-- ===== src/Http/Query/Tests.antt =====
-- A concrete query.
use Prim.Native.String.{String}
use dwn_server.Common.{◌≡◌, refl, List, [], ◌∷◌, All}
use dwn_server.Errors.{ok, throw, other_error}
use dwn_server.Http.Query.{Fields, leaf, object, empty, field, split, set_path, build}
use dwn_server.Http.Query.Laws.{apart}
use dwn_server.Http.Query.Build.{IsSpread, IsPlain, IsRead, build-IsRead}

abbrev query : List (String × String)
query = ("filter.protocol", "foo") ∷ ("filter.protocolPath", "bar") ∷ ("dateSort", "asc") ∷ []

query-IsPlain : All IsPlain query
unfolding split
query-IsPlain = ((refl, (refl, tt)), ((refl, (refl, tt)), ((refl, tt), tt)))

query-IsSpread : IsSpread query
unfolding split apart
query-IsSpread = ((refl, (refl, tt)), ((refl, tt), (tt, tt)))

nested :
    build query empty
    ≡ ok (
        field "filter"
          (object (field "protocol" (leaf "foo") (field "protocolPath" (leaf "bar") empty)))
          (field "dateSort" (leaf "asc") empty))
unfolding build set_path split
nested = refl

-- A name that goes on from another's value is refused.
clash :
    build (("filter", "x") ∷ ("filter.protocol", "y") ∷ []) empty
    ≡ throw (other_error "Cannot create property on string")
unfolding build set_path split
clash = refl

build-IsRead_example : (fs : Fields) × (build query empty ≡ ok fs) × All (IsRead fs) query
build-IsRead_example = build-IsRead query query-IsPlain query-IsSpread
