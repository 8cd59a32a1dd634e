-- ===== src/Registration/Refusals.antt =====
-- A registration request that is refused leaves the registration manager with its store and hash.
use Prim.Native.String.{String}
use dwn_server.Common.{
  ℕ, ◌≡◌, refl, sym, ap, ◌∙◌, arith, string_eq, option_eq, Bool-cases, Option-cases, inl, inr,
}
use dwn_server.Double.{Double}
use dwn_server.Errors.{Result, ok, throw, Result-cases, Error}
use dwn_server.PowManager.{Manager}
use dwn_server.Registration.{
  RegistrationRequest, RegistrationTable, insert_or_update_tenant_registration, Registrar,
  record_tenant_registration, handle_registration_request, store_if, verify_with,
}
use dwn_server.Registration.Laws.{proof_of}

module _ (d : Double) (T : RegistrationTable) (sha256 : String → String) where
  open d use {Num}

  store_if_refused :
      (req : RegistrationRequest) (m : Registrar d T sha256) (v : Result (Manager Num)) (e : Error)
      → (store_if d T sha256 req.registration_data m v).1 ≡ throw e
      → ((store_if d T sha256 req.registration_data m v).0.registration_store
          ≡ m.registration_store)
        × ((store_if d T sha256 req.registration_data m v).0.terms_of_service_hash
            ≡ m.terms_of_service_hash)
  unfolding record_tenant_registration insert_or_update_tenant_registration
  store_if_refused req m (throw e') e h = (refl, refl)
  store_if_refused req m (ok pow) e h = elim (Option-cases m.registration_store) [
    | inl missing ↦ (ground arith, ground arith)
    | inr (db, found) ↦ elim (Result-cases (T.upsert req.registration_data db)) [
      | inr (e', failed) ↦ (ground arith, ground arith)
      | inl (db', stored) ↦ absurd (ground arith)
    ]
  ]

  pub handle_refused :
      (now : ℕ) (req : RegistrationRequest) (m : Registrar d T sha256) (e : Error)
      → (handle_registration_request d T sha256 now req m).1 ≡ throw e
      → ((handle_registration_request d T sha256 now req m).0.registration_store
          ≡ m.registration_store)
        × ((handle_registration_request d T sha256 now req m).0.terms_of_service_hash
            ≡ m.terms_of_service_hash)
  unfolding handle_registration_request
  handle_refused now req m e h =
      elim (Bool-cases
        (option_eq string_eq req.registration_data.terms_of_service_hash m.terms_of_service_hash)) [
          | inl agreed ↦
              let v =
                verify_with d T sha256 now (proof_of d T sha256 req) m.proof_of_work_manager in
              let goes : handle_registration_request d T sha256 now req m
                  ≡ store_if d T sha256 req.registration_data m v =
                rw (agreed, handle_registration_request) refl in
              rw goes (store_if_refused req m v e (sym (ap (λ x. x.1) goes) ∙ h))
          | inr other ↦ rw other (refl, refl)
        ]
