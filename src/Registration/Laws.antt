-- ===== src/Registration/Laws.antt =====
-- Who becomes a tenant, and who stays one.
use Prim.Native.String.{String}
use dwn_server.Common.{
  ℕ, ◌≡◌, ◌≢◌, ◌↔◌, some, arith, string_eq, option_eq, option_eq_iff, Bool-cases, Option-cases, inl,
  inr,
}
use dwn_server.Double.{Double}
use dwn_server.Errors.{
  ok, Result-cases, registration_manager_invalid_or_outdated_terms_of_service_hash,
}
use dwn_server.ProofOfWork.{HashInput}
use dwn_server.PowManager.{Manager, record_proof_of_work, verify_proof_of_work}
use dwn_server.PowManager.Verify.{
  IsAccepted, verify_proof_of_work-ok, thrown, verify_proof_of_work-IsAccepted,
}
use dwn_server.Registration.{
  RegistrationRequest, stringify, RegistrationTable, insert_or_update_tenant_registration,
  Registrar, record_tenant_registration, handle_registration_request,
}

module _ (d : Double) (T : RegistrationTable) (sha256 : String → String) where
  open d use {Num}

  -- The proof that a request stands for.
  abbrev pub proof_of : RegistrationRequest → HashInput
  proof_of req = record {
    challenge_nonce = req.challenge_nonce;
    response_nonce = req.response_nonce;
    request_data = stringify req.registration_data;
  }

  -- What a registration that succeeds rests on, and what it leaves.
  pub record IsRegistered (now : ℕ) (req : RegistrationRequest) (m m' : Registrar d T sha256)
      : Type 0 where
    pub agreed : req.registration_data.terms_of_service_hash ≡ m.terms_of_service_hash
    pub pow : Manager Num
    pub db : T.Db
    pub db' : T.Db
    pub has_pow : m.proof_of_work_manager ≡ some pow
    pub has_store : m.registration_store ≡ some db
    pub accepted : IsAccepted sha256 pow (proof_of req)
    pub stored : T.upsert req.registration_data db ≡ ok db'
    pub result : m' ≡ record m {
      proof_of_work_manager = some (record_proof_of_work now req.response_nonce pow);
      registration_store = some db';
    }

  pub register-IsRegistered :
      (now : ℕ) (req : RegistrationRequest) (m m' : Registrar d T sha256)
      → handle_registration_request d T sha256 now req m ≡ (m', ok tt)
      → IsRegistered now req m m'
  unfolding handle_registration_request record_tenant_registration
      insert_or_update_tenant_registration
  register-IsRegistered now req m m' h =
      elim (Bool-cases
        (option_eq string_eq req.registration_data.terms_of_service_hash m.terms_of_service_hash)) [
          | inr other ↦ absurd (ground arith)
          | inl agreed ↦ elim (Option-cases m.proof_of_work_manager) [
            | inl missing ↦ absurd (ground arith)
            | inr (pow, has_pow) ↦
                elim (Result-cases (verify_proof_of_work sha256 now (proof_of req) pow)) [
                  | inr (e, refused) ↦ absurd (ground arith)
                  | inl (pow', accepted) ↦ elim (Option-cases m.registration_store) [
                    | inl missing ↦ absurd (ground arith)
                    | inr (db, has_store) ↦
                        elim (Result-cases (T.upsert req.registration_data db)) [
                          | inr (e, failed) ↦ absurd (ground arith)
                          | inl (db', stored) ↦
                              let (is, same) =
                                verify_proof_of_work-ok sha256 now (proof_of req) pow accepted in
                              record {
                                agreed =
                                    (option_eq_iff string_eq
                                        req.registration_data.terms_of_service_hash
                                        m.terms_of_service_hash).0
                                      agreed;
                                pow = pow;
                                db = db;
                                db' = db';
                                has_pow = has_pow;
                                has_store = has_store;
                                accepted = is;
                                stored = stored;
                                result = ground (arith, same);
                              }
                        ]
                  ]
                ]
          ]
        ]

  IsRegistered-register :
      (now : ℕ) (req : RegistrationRequest) (m m' : Registrar d T sha256)
      → IsRegistered now req m m'
      → handle_registration_request d T sha256 now req m ≡ (m', ok tt)
  unfolding handle_registration_request record_tenant_registration
      insert_or_update_tenant_registration
  IsRegistered-register now req m m' h = ground (
    arith,
    verify_proof_of_work-IsAccepted sha256 now (proof_of req) h.pow h.accepted,
    option_eq_iff string_eq req.registration_data.terms_of_service_hash m.terms_of_service_hash,
  )

  -- A registration request succeeds exactly when the hash of the terms of service is the current
  -- one, the proof of work is accepted and the database takes the row; the response nonce is then
  -- recorded, the row is stored, and nothing else changes.
  pub handle_registration_request_iff :
      (now : ℕ) (req : RegistrationRequest) (m m' : Registrar d T sha256)
      → (handle_registration_request d T sha256 now req m ≡ (m', ok tt)) ↔ IsRegistered now req m m'
  handle_registration_request_iff now req m m' =
      (register-IsRegistered now req m m', IsRegistered-register now req m m')

  -- With other terms of service than the current ones a request changes nothing at all: no proof of
  -- work is used up.
  pub handle_registration_request_outdated :
      (now : ℕ) (req : RegistrationRequest) (m : Registrar d T sha256)
      → req.registration_data.terms_of_service_hash ≢ m.terms_of_service_hash
      → ((handle_registration_request d T sha256 now req m).0 ≡ m)
        × (thrown (handle_registration_request d T sha256 now req m).1
            ≡ some registration_manager_invalid_or_outdated_terms_of_service_hash)
  unfolding handle_registration_request
  handle_registration_request_outdated now req m other = ground (
    arith,
    option_eq_iff string_eq req.registration_data.terms_of_service_hash m.terms_of_service_hash,
  )
