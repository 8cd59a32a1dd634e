-- ===== src/Http/Query.antt =====
-- The nested object that src/http-api.ts builds from the dotted names of a query. Values that are not
-- texts, which repeated or bracketed names have, are left out, and so are the names that every
-- object inherits.
pub mod Laws
pub mod Build
mod Tests
use Prim.Native.Char.{Char, code}
use Prim.Native.String
use Prim.Native.String.{String}
use dwn_server.Common.{Option, none, some, List, [], ◌∷◌, if◌then◌else◌, ◌==◌, string_eq, nat_beq}
use dwn_server.Errors.{Result, ok, throw, other_error, Error, ◌>>=◌}

mutual
  pub data Value : Type 0 where
    leaf : String → Value
    object : Fields → Value

  -- The properties of an object, in their order.
  pub data Fields : Type 0 where
    empty : Fields
    field : String → Value → Fields → Fields

abbrev pub get_field : String → Fields → Option Value
get_field k empty = none
get_field k (field j v fs) = if j == k then some v else get_field k fs

abbrev pub set_field : String → Value → Fields → Fields
set_field k v empty = field k v empty
set_field k v (field j w fs) = if j == k then field j v fs else field j w (set_field k v fs)

-- A property of a text is assigned, in strict code.
abbrev pub cannot_create_property : Error
cannot_create_property = other_error "Cannot create property on string"

-- `obj[key] || {}`, as far as properties can be assigned to it.
abbrev pub fields_of : Option Value → Result Fields
fields_of none = ok empty
fields_of (some (leaf s)) = if s == "" then ok empty else throw cannot_create_property
fields_of (some (object fs)) = ok fs

-- The walk over `keys`, and the assignment to the last one, for names that no object inherits: the
-- objects of the model have no prototype, and __proto__ has no setter.
unfoldable pub set_path : List String → String → Value → Fields → Result Fields
set_path [] last v fs = ok (set_field last v fs)
set_path (k ∷ keys) last v fs = do
  below ← fields_of (get_field k fs)
  below' ← set_path keys last v below
  ok (set_field k (object below') fs)

abbrev prepend : Char → List String → List String
prepend c [] = String.◌∷◌ c "" ∷ []
prepend c (s ∷ ss) = String.◌∷◌ c s ∷ ss

-- `param.split('.')`
unfoldable pub split : String → List String
split String.[] = "" ∷ []
split (String.◌∷◌ c s) =
    let rest = split s in if nat_beq (code c) b'.' then "" ∷ rest else prepend c rest

-- The keys that are left after `keys.pop()`, and the last one.
abbrev pub pop : List String → List String × String
pop [] = ([], "")
pop (k ∷ []) = ([], k)
pop (k ∷ j ∷ ks) = let r = pop (j ∷ ks) in (k ∷ r.0, r.1)

abbrev pub path_of : String → List String × String
path_of param = pop (split param)

-- The loop over the parameters of the query, in the order of `for ... in`.
unfoldable pub build : List (String × String) → Fields → Result Fields
build [] fs = ok fs
build ((param, value) ∷ rest) fs = do
  fs' ← set_path (path_of param).0 (path_of param).1 (leaf value) fs
  build rest fs'
