-- ===== src/Http/Admission/Laws.antt =====
-- What the registration routes answer, and what GET /info says of them.
use Prim.Native.String.{String}
use dwn_server.Common.{
  ◌≡◌, refl, Bool, true, false, List, [], ◌∷◌, ◌++◌, ◌||◌, ◌==◌, string_eq, if◌then◌else◌,
}
use dwn_server.Double.{Double}
use dwn_server.Http.Admission.{InfoConfig, PackageInfo, registration_routes, get_info, is_defined}

abbrev pub contains : String → List String → Bool
contains s [] = false
contains s (t ∷ ts) = t == s || contains s ts

every :
    (pow terms store : Bool)
    → let requirements : List String =
        (if pow then "proof-of-work-sha256-v0" ∷ [] else [])
        ++ (if terms then "terms-of-service" ∷ [] else []) in
      let routes : List String =
        (if pow then "GET /registration/proof-of-work" ∷ [] else [])
        ++ (if terms then "GET /registration/terms-of-service" ∷ [] else [])
        ++ (if store then "POST /registration" ∷ [] else []) in
      (contains "proof-of-work-sha256-v0" requirements
        ≡ contains "GET /registration/proof-of-work" routes)
      × (contains "terms-of-service" requirements
          ≡ contains "GET /registration/terms-of-service" routes)
every true true true = (refl, refl)
every true true false = (refl, refl)
every true false true = (refl, refl)
every true false false = (refl, refl)
every false true true = (refl, refl)
every false true false = (refl, refl)
every false false true = (refl, refl)
every false false false = (refl, refl)

-- On a server that runs with the configuration of its process, GET /info lists a requirement exactly
-- when the route that serves it is there: that of a challenge, and that of the terms of service.
pub get_info-registration_routes :
    {Size : Type 0} (config : InfoConfig Size) (info : PackageInfo)
    → (contains "proof-of-work-sha256-v0" (get_info config info).registration_requirements
        ≡ contains "GET /registration/proof-of-work" (registration_routes config))
      × (contains "terms-of-service" (get_info config info).registration_requirements
          ≡ contains "GET /registration/terms-of-service" (registration_routes config))
unfolding get_info registration_routes
get_info-registration_routes config info =
    every config.registration_proof_of_work_enabled (is_defined config.terms_of_service_file_path)
      (is_defined config.registration_store_url)
