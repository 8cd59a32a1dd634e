-- ===== src/Registration/Registry.antt =====
-- What the registration manager promises its clients: a function from tenants to the hash that they
-- agreed to, beside the current hash. The manager of src/registration does what this registry does.
use Prim.Native.String.{String}
use dwn_server.Common.{
  ℕ, ◌≡◌, ◌≢◌, refl, sym, ap, subst, ◌∙◌, false, not, Option, none, some, List, [], ◌∷◌, arith,
  string_eq, ◌==◌, Bool-cases, inl, inr, if◌then◌else◌,
}
use dwn_server.Double.{Double}
use dwn_server.Errors.{Result, ok, throw, Result-cases, Error}
use dwn_server.ProofOfWork.{hash_as_hex_string}
use dwn_server.Registration.{
  Column, null_column, text_column, TenantRow, agrees, RegistrationData, RegistrationRequest,
  RegistrationTable, get_tenant_registration, ActiveTenantCheckResult, Registrar,
  update_terms_of_service, check, first, handle_registration_request, is_active_tenant,
}
use dwn_server.Registration.Laws.{register-IsRegistered}
use dwn_server.Registration.Refusals.{handle_refused}
use dwn_server.Registration.Tenants.{IsTable, active, outdated, column}
use text.Mathlib.TextEquality.{eq_iff}

-- The registry, and what can happen to it.
pub record Registry : Type 0 where
  pub agreed : String → Option (Option String)
  pub current : Option String

pub data Change : Type 0 where
  registers : String → Option String → Change
  refuses : Change
  renews : String → Change

abbrev pub apply : Change → Registry → Registry
apply (registers did hash) r = record r { agreed = λ k. if k == did then some hash else r.agreed k }
apply refuses r = r
apply (renews hash) r = record r { current = some hash }

abbrev pub apply_all : List Change → Registry → Registry
apply_all [] r = r
apply_all (c ∷ cs) r = apply_all cs (apply c r)

abbrev unregistered : ActiveTenantCheckResult
unregistered = record { is_active_tenant = false; detail = some "Not a registered tenant." }

abbrev verdict_on : Option (Option String) → Option String → ActiveTenantCheckResult
verdict_on none current = unregistered
verdict_on (some none) current = outdated
verdict_on (some (some hash)) none = outdated
verdict_on (some (some hash)) (some current) = if hash == current then active else outdated

-- What a registry says of a tenant.
abbrev pub verdict : Registry → String → ActiveTenantCheckResult
verdict r tenant = verdict_on (r.agreed tenant) r.current

abbrev hash_in : Column → Option String
hash_in null_column = none
hash_in (text_column s) = some s

hash_in-column : (hash : Option String) → hash_in (column hash) ≡ hash
hash_in-column none = refl
hash_in-column (some s) = refl

row_verdict :
    (c : Column) (current : Option String)
    → (if not (agrees c current) then outdated else active) ≡ verdict_on (some (hash_in c)) current
row_verdict null_column current = refl
row_verdict (text_column s) none = refl
row_verdict (text_column s) (some t) = elim (Bool-cases (s == t)) [
  | inl same ↦ rw same refl
  | inr other ↦ rw other refl
]

unequal : (a b : String) → (a == b) ≡ false → a ≢ b
unequal a b other same = absurd (cc (sym other ∙ (eq_iff a b).1 same))

module _ (d : Double) (T : RegistrationTable) (sha256 : String → String) where
  open d use {Num}

  -- A request at a time, and a change of the terms of service.
  pub data Event : Type 0 where
    submits : ℕ → RegistrationRequest → Event
    updates : String → Event

  unfoldable pub step : Event → Registrar d T sha256 → Registrar d T sha256
  step (submits now req) m = (handle_registration_request d T sha256 now req m).0
  step (updates text) m = update_terms_of_service d T sha256 text m

  unfoldable pub run : List Event → Registrar d T sha256 → Registrar d T sha256
  run [] m = m
  run (e ∷ es) m = run es (step e m)

  abbrev pub outcome : RegistrationRequest → Result (Unit {0}) → Change
  outcome req (ok done) =
      registers req.registration_data.did req.registration_data.terms_of_service_hash
  outcome req (throw e) = refuses

  -- The change that a client sees: whether its request was accepted.
  abbrev pub change : Event → Registrar d T sha256 → Change
  change (submits now req) m = outcome req (handle_registration_request d T sha256 now req m).1
  change (updates text) m = renews (hash_as_hex_string sha256 (text ∷ []))

  unfoldable pub changes : List Event → Registrar d T sha256 → List Change
  changes [] m = []
  changes (e ∷ es) m = change e m ∷ changes es (step e m)

  abbrev pub hash_of : List TenantRow → Option (Option String)
  hash_of [] = none
  hash_of (r ∷ rs) = some (hash_in r.row_hash)

  -- The manager with a store holds what the registry says.
  pub record Represents (m : Registrar d T sha256) (r : Registry) : Type 0 where
    pub db : T.Db
    pub store : m.registration_store ≡ some db
    pub same_current : m.terms_of_service_hash ≡ r.current
    pub same_agreed : (k : String) → hash_of (T.select k db) ≡ r.agreed k

  with_store :
      (tenant : String) (m : Registrar d T sha256) (db : T.Db)
      → m.registration_store ≡ some db
      → is_active_tenant d T sha256 tenant m ≡ check d T sha256 (first T (T.select tenant db)) m
  unfolding is_active_tenant get_tenant_registration
  with_store tenant m db store = ground (arith, store)

  module _ (laws : IsTable T) where
    accepted_agreed :
        (r : RegistrationData) (db db' : T.Db) (agreed : String → Option (Option String))
        (k : String)
        → T.upsert r db ≡ ok db'
        → hash_of (T.select k db) ≡ agreed k
        → hash_of (T.select k db') ≡ (if k == r.did then some r.terms_of_service_hash else agreed k)
    accepted_agreed r db db' agreed k stored before = elim (Bool-cases (k == r.did)) [
      | inl same ↦ rw same (
          ap hash_of (
            ap (λ k. T.select k db') ((eq_iff k r.did).0 same)
            ∙ laws.select-upsert_self r db db' stored)
          ∙ ap (λ x. some x) (hash_in-column r.terms_of_service_hash))
      | inr other ↦
          rw other
            (ap hash_of (laws.select-upsert_ne r k db db' stored (unequal k r.did other)) ∙ before)
    ]

    accepted-Represents :
        (now : ℕ) (req : RegistrationRequest) (m : Registrar d T sha256) (r : Registry)
        → Represents m r
        → (handle_registration_request d T sha256 now req m).1 ≡ ok tt
        → Represents
            (handle_registration_request d T sha256 now req m).0
            (apply (outcome req (ok tt)) r)
    accepted-Represents now req m r h accepted =
        let p = handle_registration_request d T sha256 now req m in
        let is = register-IsRegistered d T sha256 now req m p.0 (ap (λ x. (p.0, x)) accepted) in
        let same_db : h.db ≡ is.db = cc (sym h.store ∙ is.has_store) in
        record {
          db = is.db';
          store = ap (λ (x : Registrar d T sha256). x.registration_store) is.result;
          same_current =
              ap (λ (x : Registrar d T sha256). x.terms_of_service_hash) is.result ∙ h.same_current;
          same_agreed = λ k.
              accepted_agreed req.registration_data is.db is.db' r.agreed k is.stored
                (ap (λ db. hash_of (T.select k db)) (sym same_db) ∙ h.same_agreed k);
        }

    refused-Represents :
        (now : ℕ) (req : RegistrationRequest) (m : Registrar d T sha256) (r : Registry) (e : Error)
        → Represents m r
        → (handle_registration_request d T sha256 now req m).1 ≡ throw e
        → Represents (handle_registration_request d T sha256 now req m).0 r
    refused-Represents now req m r e h refused =
        let (store, hash) = handle_refused d T sha256 now req m e refused in
        record {
          db = h.db;
          store = store ∙ h.store;
          same_current = hash ∙ h.same_current;
          same_agreed = h.same_agreed;
        }

    step-Represents :
        (e : Event) (m : Registrar d T sha256) (r : Registry)
        → Represents m r
        → Represents (step e m) (apply (change e m) r)
    unfolding step update_terms_of_service
    step-Represents (updates text) m r h = record {
      db = h.db;
      store = h.store;
      same_current = refl;
      same_agreed = h.same_agreed;
    }
    step-Represents (submits now req) m r h =
        let p = handle_registration_request d T sha256 now req m in
        elim (Result-cases p.1) [
          | inr (e, refused) ↦
              subst (λ x. Represents p.0 (apply (outcome req x) r)) (sym refused)
                (refused-Represents now req m r e h refused)
          | inl (done, accepted) ↦
              subst (λ x. Represents p.0 (apply (outcome req x) r)) (sym accepted)
                (accepted-Represents now req m r h accepted)
        ]

    run-Represents :
        (es : List Event) (m : Registrar d T sha256) (r : Registry)
        → Represents m r
        → Represents (run es m) (apply_all (changes es m) r)
    unfolding run changes
    run-Represents [] m r h = h
    run-Represents (e ∷ es) m r h =
        run-Represents es (step e m) (apply (change e m) r) (step-Represents e m r h)

    check_lem :
        (rs : List TenantRow) (m : Registrar d T sha256)
        → check d T sha256 (first T rs) m ≡ verdict_on (hash_of rs) m.terms_of_service_hash
    check_lem [] m = refl
    check_lem (r ∷ rs) m = row_verdict r.row_hash m.terms_of_service_hash

    Represents-verdict :
        (tenant : String) (m : Registrar d T sha256) (r : Registry)
        → Represents m r
        → is_active_tenant d T sha256 tenant m ≡ verdict r tenant
    Represents-verdict tenant m r h =
        with_store tenant m h.db h.store
        ∙ check_lem (T.select tenant h.db) m
        ∙ ap (λ x. verdict_on x m.terms_of_service_hash) (h.same_agreed tenant)
        ∙ ap (verdict_on (r.agreed tenant)) h.same_current

    -- The manager with a store implements the registry: after any run of registration requests and
    -- changes of the terms of service, what it answers for a tenant is what the registry says to which
    -- the same accepted registrations and changes happened, if the two agreed at the start.
    pub run-verdict :
        (es : List Event) (m : Registrar d T sha256) (r : Registry) (tenant : String)
        → Represents m r
        → is_active_tenant d T sha256 tenant (run es m)
          ≡ verdict (apply_all (changes es m) r) tenant
    run-verdict es m r tenant h =
        Represents-verdict tenant (run es m) (apply_all (changes es m) r) (run-Represents es m r h)
