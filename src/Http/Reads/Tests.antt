-- ===== src/Http/Reads/Tests.antt =====
-- A DWN whose records only their author may read.
use Prim.Native.String.{String}
use dwn_server.Common.{ℕ, ◌≡◌, refl, ◌⊎◌, false, some, [], ◌==◌, string_eq}
use dwn_server.Errors.{ok, Error}
use dwn_server.Http.Reads.{
  Sdk, get_read_protocol_path, get_read_protocol, records_read_handler, get_query_protocols,
  get_query, status_only, status_text, reply_json,
}
use dwn_server.Http.Reads.Laws.{Gives, reads_private}

-- A reply is its status.
abbrev sdk : Sdk
sdk = record {
  Message = String;
  Reply = ℕ;
  Stream = String;
  Entry = String;
  status = λ r. r;
  data_format = λ r. "text/plain";
  data_ = λ r. some "data";
  entries = λ r. [];
  record_id = λ e. e;
  records_query = λ f p s. ok "query";
  latest_query = λ f. ok "latest";
  records_read = λ id. ok "read";
  protocols_query = λ p. ok "protocols";
  process_message = λ did message. ok 401;
  base64_url = λ s. ok s;
}

abbrev trim : String → String
trim s = s

abbrev rest : String
rest = "a/b"

full : (rest == "") ≡ false
full = refl

reads_private_example :
    ((get_read_protocol_path sdk trim "did:alice" "p" rest [] ≡ status_only 404)
      ⊎ (get_read_protocol_path sdk trim "did:alice" "p" rest [] ≡ status_only 400))
    × ((get_read_protocol sdk "did:alice" "p" ≡ status_only 404)
        ⊎ (get_read_protocol sdk "did:alice" "p" ≡ status_only 400))
    × Gives sdk (status_only 404) (records_read_handler sdk "did:alice" "id")
    × Gives sdk (status_only 404) (get_query_protocols sdk "did:alice")
    × ((get_query sdk "did:alice" [] ≡ reply_json 200 401)
        ⊎ ((e : Error) × (get_query sdk "did:alice" [] ≡ status_text 400 e.message)))
reads_private_example =
    reads_private sdk "did:alice" 401 refl (λ m. refl) trim "p" rest "id" [] full
