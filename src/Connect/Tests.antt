-- ===== src/Connect/Tests.antt =====
-- Concrete requests and responses.
use Prim.Native.String.{String}
use dwn_server.Common.{ℕ, ◌≡◌, none, some, [], ◌∷◌, arith, ◌+◌, ◌*◌, if◌then◌else◌, ◌==◌, string_eq}
use dwn_server.Connect.{execute_all, CacheEntry, Server, response_key}
use dwn_server.Connect.Table.{settled}
use dwn_server.Connect.Rows.{rows}
use text.Mathlib.TextEquality.{eq_iff}

abbrev row : String → ℕ → CacheEntry
row key set_at = record { key = key; value = "hello"; expiry = set_at + 600 * 1000 }

abbrev full : Server rows.Db
full = record {
  base_url = "https://dwn";
  db = λ k. if k == response_key "s" then some (row (response_key "s") 5) else none;
  pending = [];
}

response_there : rows.select (response_key "s") full.db ≡ row (response_key "s") 5 ∷ []
response_there = ground (arith, eq_iff (response_key "s") (response_key "s"))

response_settled :
    rows.select (response_key "s") (settled rows full) ≡ row (response_key "s") 5 ∷ []
unfolding execute_all
response_settled = response_there
