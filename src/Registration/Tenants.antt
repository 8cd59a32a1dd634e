-- ===== src/Registration/Tenants.antt =====
-- Who is an active tenant, and who stays one.
use Prim.Native.String.{String}
use dwn_server.Common.{
  ℕ, ◌≡◌, ◌≢◌, ◌↔◌, refl, sym, ap, ◌∙◌, true, false, Option, none, some, [], ◌∷◌, arith, string_eq,
  option_eq, Bool-cases, Option-cases, inl, inr, ◌⊎◌,
}
use dwn_server.Double.{Double}
use dwn_server.Errors.{Result, ok, throw, Result-cases}
use dwn_server.ProofOfWork.{hash_as_hex_string}
use dwn_server.PowManager.{Manager}
use dwn_server.Registration.{
  Column, null_column, text_column, TenantRow, agrees, RegistrationData, RegistrationRequest,
  RegistrationTable, insert_or_update_tenant_registration, get_tenant_registration,
  ActiveTenantCheckResult, Registrar, update_terms_of_service, record_tenant_registration,
  handle_registration_request, is_active_tenant, store_if, verify_with,
}
use dwn_server.Registration.Laws.{proof_of, register-IsRegistered}
use text.Mathlib.TextEquality.{eq_iff}

-- What is stored for a value: an undefined one is NULL.
abbrev pub column : Option String → Column
column none = null_column
column (some s) = text_column s

abbrev pub tenant_row : RegistrationData → TenantRow
tenant_row r = record { row_did = r.did; row_hash = column r.terms_of_service_hash }

agrees_iff :
    (c : Column) (current : Option String)
    → (agrees c current ≡ true) ↔ ((hash : String) × (c ≡ text_column hash) × (current ≡ some hash))
agrees_iff null_column current = (λ h. absurd (cc h), λ (hash, is, same). absurd (cc is))
agrees_iff (text_column s) none = (λ h. absurd (cc h), λ (hash, is, same). absurd (cc same))
agrees_iff (text_column s) (some t) = (
  λ h. (s, refl, ap (λ x. some x) (sym ((eq_iff s t).0 h))),
  λ (hash, is, same). (eq_iff s t).1 (cc (is, same)),
)

-- What SQL promises of the statements that the store runs.
pub record IsTable (T : RegistrationTable) : Type 0 where
  pub select-upsert_self :
      (r : RegistrationData) (db db' : T.Db)
      → T.upsert r db ≡ ok db'
      → T.select r.did db' ≡ tenant_row r ∷ []
  pub select-upsert_ne :
      (r : RegistrationData) (k : String) (db db' : T.Db)
      → T.upsert r db ≡ ok db'
      → k ≢ r.did
      → T.select k db' ≡ T.select k db

abbrev pub active : ActiveTenantCheckResult
active = record { is_active_tenant = true; detail = none }

abbrev pub outdated : ActiveTenantCheckResult
outdated = record { is_active_tenant = false; detail = some "Agreed terms-of-service is outdated." }

-- The answer for a tenant that registered with success: without terms of service its row holds NULL,
-- which is not undefined.
abbrev pub by_terms : Option String → ActiveTenantCheckResult
by_terms none = outdated
by_terms (some hash) = active

module _ (d : Double) (T : RegistrationTable) (sha256 : String → String) where
  open d use {Num}

  -- What a call may do to the store.
  abbrev Kept : RegistrationRequest → Registrar d T sha256 → Registrar d T sha256 → Type 0
  Kept req m m' =
      (m'.terms_of_service_hash ≡ m.terms_of_service_hash)
      × ((m'.registration_store ≡ m.registration_store)
          ⊎ ((db : T.Db) × (db' : T.Db) × (m.registration_store ≡ some db)
              × (T.upsert req.registration_data db ≡ ok db')
              × (m'.registration_store ≡ some db')))

  store-Kept :
      (req : RegistrationRequest) (m : Registrar d T sha256) (pow : Manager Num)
      → Kept req m (store_if d T sha256 req.registration_data m (ok pow)).0
  unfolding record_tenant_registration insert_or_update_tenant_registration
  store-Kept req m pow = elim (Option-cases m.registration_store) [
    | inl missing ↦ (ground arith, inl (ground arith))
    | inr (db, found) ↦ elim (Result-cases (T.upsert req.registration_data db)) [
      | inr (e, failed) ↦ (ground arith, inl (ground arith))
      | inl (db', stored) ↦ (ground arith, inr (db, db', found, stored, ground arith))
    ]
  ]

  store_if-Kept :
      (req : RegistrationRequest) (m : Registrar d T sha256) (r : Result (Manager Num))
      → Kept req m (store_if d T sha256 req.registration_data m r).0
  store_if-Kept req m (ok pow) = store-Kept req m pow
  store_if-Kept req m (throw e) = (refl, inl refl)

  handle-Kept :
      (now : ℕ) (req : RegistrationRequest) (m : Registrar d T sha256)
      → Kept req m (handle_registration_request d T sha256 now req m).0
  unfolding handle_registration_request
  handle-Kept now req m =
      let kept =
        store_if-Kept req m
          (verify_with d T sha256 now (proof_of d T sha256 req) m.proof_of_work_manager) in
      elim (Bool-cases
        (option_eq string_eq req.registration_data.terms_of_service_hash m.terms_of_service_hash)) [
          | inl agreed ↦ rw (agreed, handle_registration_request) kept
          | inr other ↦ rw (other, handle_registration_request) (refl, inl refl)
        ]

  module _ (laws : IsTable T) where
    found_tenant :
        (tenant : String) (r : RegistrationData) (m : Registrar d T sha256) (db : T.Db)
        → m.registration_store ≡ some db
        → T.select tenant db ≡ tenant_row r ∷ []
        → r.terms_of_service_hash ≡ m.terms_of_service_hash
        → is_active_tenant d T sha256 tenant m ≡ by_terms m.terms_of_service_hash
    unfolding is_active_tenant get_tenant_registration
    found_tenant tenant r m db store found same = elim (Option-cases m.terms_of_service_hash) [
      | inl unset ↦ ground (arith, store, found, same, unset)
      | inr (hash, is) ↦ ground (arith, store, found, same, is, eq_iff hash hash)
    ]

    -- Who registers with success is an active tenant exactly where there are terms of service.
    pub is_active_tenant-handle_registration_request :
        (now : ℕ) (req : RegistrationRequest) (m m' : Registrar d T sha256)
        → handle_registration_request d T sha256 now req m ≡ (m', ok tt)
        → is_active_tenant d T sha256 req.registration_data.did m'
          ≡ by_terms m.terms_of_service_hash
    is_active_tenant-handle_registration_request now req m m' h =
        let r = register-IsRegistered d T sha256 now req m m' h in
        let kept = ap (λ (x : Registrar d T sha256). x.terms_of_service_hash) r.result in
        found_tenant req.registration_data.did req.registration_data m' r.db'
          (ap (λ (x : Registrar d T sha256). x.registration_store) r.result)
          (laws.select-upsert_self req.registration_data r.db r.db' r.stored) (r.agreed ∙ sym kept)
        ∙ ap by_terms kept

    -- A registration request, whether it succeeds or not, leaves every other tenant as active or
    -- inactive as before.
    pub is_active_tenant-handle_registration_request_ne :
        (now : ℕ) (req : RegistrationRequest) (tenant : String) (m : Registrar d T sha256)
        → tenant ≢ req.registration_data.did
        → is_active_tenant d T sha256 tenant (handle_registration_request d T sha256 now req m).0
          ≡ is_active_tenant d T sha256 tenant m
    unfolding is_active_tenant get_tenant_registration
    is_active_tenant-handle_registration_request_ne now req tenant m other =
        let m' = (handle_registration_request d T sha256 now req m).0 in
        let (hash, store) = handle-Kept now req m in
        elim store [
          | inl same ↦ ground (arith, hash, same)
          | inr (db, db', before, stored, after) ↦ ground (
            arith,
            hash,
            before,
            after,
            laws.select-upsert_ne req.registration_data tenant db db' stored other,
          )
        ]

    -- After the terms of service change to a text with another hash, a tenant that was active by its
    -- registration is not, and the detail says why, until it registers anew.
    pub is_active_tenant-update_terms_of_service :
        (text tenant : String) (r : TenantRow) (db : T.Db) (m : Registrar d T sha256)
        → m.registration_store ≡ some db
        → T.select tenant db ≡ r ∷ []
        → r.row_hash ≢ text_column (hash_as_hex_string sha256 (text ∷ []))
        → is_active_tenant d T sha256 tenant (update_terms_of_service d T sha256 text m) ≡ outdated
    unfolding is_active_tenant get_tenant_registration update_terms_of_service
    is_active_tenant-update_terms_of_service text tenant r db m store found other =
        let hash = hash_as_hex_string sha256 (text ∷ []) in
        elim (Bool-cases (agrees r.row_hash (some hash))) [
          | inr differs ↦ rw (store, found, differs) refl
          | inl same ↦
              let (h, is, e) = (agrees_iff r.row_hash (some hash)).0 same in
              absurd (other (is ∙ ap text_column (cc (sym e))))
        ]

  -- A tenant is active exactly when there is no registration store, or its row is there and holds the
  -- hash of the current terms of service.
  pub is_active_tenant_iff :
      (tenant : String) (m : Registrar d T sha256)
      → (is_active_tenant d T sha256 tenant m ≡ active) ↔ (
          (m.registration_store ≡ none)
          ⊎ ((db : T.Db) × (r : TenantRow) × (hash : String) × (m.registration_store ≡ some db)
              × (get_tenant_registration T tenant db ≡ some r)
              × (r.row_hash ≡ text_column hash)
              × (m.terms_of_service_hash ≡ some hash)))
  unfolding is_active_tenant
  is_active_tenant_iff tenant m = (
    λ h. elim (Option-cases m.registration_store) [
      | inl missing ↦ inl missing
      | inr (db, store) ↦ elim (Option-cases (get_tenant_registration T tenant db)) [
        | inl unknown ↦ absurd (ground arith)
        | inr (r, found) ↦
            let same : agrees r.row_hash m.terms_of_service_hash ≡ true = ground arith in
            let (hash, is, current) = (agrees_iff r.row_hash m.terms_of_service_hash).0 same in
            inr (db, r, hash, store, found, is, current)
      ]
    ],
    λ h. elim h [
      | inl missing ↦ ground arith
      | inr (db, r, hash, store, found, is, current) ↦
          let same = (agrees_iff r.row_hash m.terms_of_service_hash).1 (hash, is, current) in
          ground (arith, same)
    ],
  )
