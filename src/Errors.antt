-- ===== src/Errors.antt =====
-- src/dwn-error.ts: the error codes, the errors, and the result of code that can throw.
use Prim.Native.String.{String}
use dwn_server.Common.{◌≡◌, refl, ap, ◌⊎◌, inl, inr, Bool, true, false, Option, none, some}
use dwn_server.Common.Text.{◌<>◌}

pub data DwnServerErrorCode : Type 0 where
  connection_subscription_json_rpc_id_exists : DwnServerErrorCode
  connection_subscription_json_rpc_id_not_found : DwnServerErrorCode
  proof_of_work_insufficient_solution_nonce : DwnServerErrorCode
  proof_of_work_invalid_or_expired_challenge : DwnServerErrorCode
  proof_of_work_manager_invalid_challenge_nonce : DwnServerErrorCode
  proof_of_work_manager_invalid_response_nonce_format : DwnServerErrorCode
  proof_of_work_manager_response_nonce_reused : DwnServerErrorCode
  registration_manager_invalid_or_outdated_terms_of_service_hash : DwnServerErrorCode
  tenant_registration_outdated_terms_of_service : DwnServerErrorCode

-- The text of a code, as the enumeration gives it.
abbrev pub code_text : DwnServerErrorCode → String
code_text connection_subscription_json_rpc_id_exists = "ConnectionSubscriptionJsonRpcIdExists"
code_text connection_subscription_json_rpc_id_not_found = "ConnectionSubscriptionJsonRpcIdNotFound"
code_text proof_of_work_insufficient_solution_nonce = "ProofOfWorkInsufficientSolutionNonce"
code_text proof_of_work_invalid_or_expired_challenge = "ProofOfWorkInvalidOrExpiredChallenge"
code_text proof_of_work_manager_invalid_challenge_nonce = "ProofOfWorkManagerInvalidChallengeNonce"
code_text proof_of_work_manager_invalid_response_nonce_format =
    "ProofOfWorkManagerInvalidResponseNonceFormat"
code_text proof_of_work_manager_response_nonce_reused = "ProofOfWorkManagerResponseNonceReused"
code_text registration_manager_invalid_or_outdated_terms_of_service_hash =
    "RegistrationManagerInvalidOrOutdatedTermsOfServiceHash"
code_text tenant_registration_outdated_terms_of_service = "TenantRegistrationOutdatedTermsOfService"

-- An error as a handler sees it: `error.code`, which is a code of this program or one of a driver or of
-- the system, and `error.message`.
pub record Error : Type 0 where
  pub code : Option DwnServerErrorCode
  pub foreign_code : Option String
  pub message : String

-- new DwnServerError(code, message)
abbrev pub dwn_server_error : DwnServerErrorCode → String → Error
dwn_server_error code message = record {
  code = some code;
  foreign_code = none;
  message = code_text code <> ": " <> message;
}

-- An error without a code.
abbrev pub other_error : String → Error
other_error message = record { code = none; foreign_code = none; message = message }

pub data Result {ℓ} (A : Type ℓ) : Type ℓ where
  ok : A → Result A
  throw : Error → Result A

infixl 5 ◌>>=◌ ◌>>◌
abbrev pub ◌>>=◌ {ℓ κ} : {A : Type ℓ} {B : Type κ} → Result A → (A → Result B) → Result B
ok a >>= f = f a
throw e >>= f = throw e

abbrev pub ◌>>◌ {ℓ} : {B : Type ℓ} → Result (Unit {0}) → Result B → Result B
m >> k = m >>= λ _. k

pub Result-cases {ℓ} :
    {A : Type ℓ} (r : Result A) → ((a : A) × (r ≡ ok a)) ⊎ ((e : Error) × (r ≡ throw e))
Result-cases (ok a) = inl (a, refl)
Result-cases (throw e) = inr (e, refl)

abbrev pub is_ok {ℓ} : {A : Type ℓ} → Result A → Bool
is_ok (ok a) = true
is_ok (throw e) = false

pub is_ok-ok {ℓ} : {A : Type ℓ} (r : Result A) → is_ok r ≡ true → (a : A) × (r ≡ ok a)
is_ok-ok (ok a) h = (a, refl)
is_ok-ok (throw e) h = absurd (cc h)

pub ok-bind {ℓ κ} :
    {A : Type ℓ} {B : Type κ} (m : Result A) (f : A → Result B) (b : B)
    → (m >>= f) ≡ ok b
    → (a : A) × (m ≡ ok a) × (f a ≡ ok b)
ok-bind (ok a) f b h = (a, refl, h)
ok-bind (throw e) f b h = absurd (cc h)

pub bind-ok {ℓ κ} :
    {A : Type ℓ} {B : Type κ} (m : Result A) (f : A → Result B) (a : A) → m ≡ ok a → (m >>= f) ≡ f a
bind-ok m f a h = ap (λ m. m >>= f) h
