-- ===== src/Http/Reads/Laws.antt =====
-- What the reading routes answer where the DWN does not authorize the caller.
use Prim.Native.String.{String}
use dwn_server.Common.{
  ◌≡◌, refl, ap, inl, inr, ◌⊎◌, true, false, some, none, List, ◌==◌, string_eq, nat_beq,
}
use dwn_server.Errors.{Error, Result, ok, throw, ◌>>=◌}
use dwn_server.Http.Query.{object, empty, field, get_field, build}
use dwn_server.Http.Reads.{
  Sdk, Answer, status_only, status_text, reply_json, read_reply_handler, records_read_handler,
  by_status, caught, caught_with, read_first, read_protocol_path, get_read_protocol_path,
  first_entry, read_protocol, get_read_protocol, all_entries, get_query_protocols, query_records,
  get_query, filter_of,
}

module _ (S : Sdk) where
  -- A given answer, or an exception before there is one.
  abbrev pub Gives : Answer S → Result (Answer S) → Type 0
  Gives a r = (r ≡ ok a) ⊎ ((e : Error) × (r ≡ throw e))

  bind-Gives :
      {A : Type 0} (m : Result A) (f : A → Result (Answer S)) (a : Answer S)
      → ((x : A) → Gives a (f x))
      → Gives a (m >>= f)
  bind-Gives (ok x) f a h = h x
  bind-Gives (throw e) f a h = inr (e, refl)

  caught-Gives :
      (r : Result (Answer S)) (a : Answer S)
      → Gives a r
      → (caught S r ≡ a) ⊎ (caught S r ≡ status_only 400)
  caught-Gives r a (inl is) = inl (ap (caught S) is)
  caught-Gives r a (inr (e, is)) = inr (ap (caught S) is)

  caught_with-Gives :
      (r : Result (Answer S)) (a : Answer S)
      → Gives a r
      → (caught_with S r ≡ a) ⊎ ((e : Error) × (caught_with S r ≡ status_text 400 e.message))
  caught_with-Gives r a (inl is) = inl (ap (caught_with S) is)
  caught_with-Gives r a (inr (e, is)) = inr (e, ap (caught_with S) is)

  -- A DWN that replies with 401 to every message to a tenant.
  module _ (did : String) (r : S.Reply) (private : nat_beq (S.status r) 401 ≡ true)
      (other : nat_beq (S.status r) 200 ≡ false)
      (replies : (m : S.Message) → S.process_message did m ≡ ok r) where
    reply-Gives :
        (m : S.Message) (f : S.Reply → Result (Answer S)) (a : Answer S)
        → f r ≡ ok a
        → Gives a (S.process_message did m >>= f)
    reply-Gives m f a is = rw (replies m) (inl is)

    by_status_private :
        (f : List S.Entry → Result (Answer S)) → by_status S f r ≡ ok (status_only 404)
    by_status_private f = rw (other, private) refl

    read_reply_handler_private : read_reply_handler S r ≡ status_only 404
    unfolding read_reply_handler
    read_reply_handler_private = rw (other, private) refl

    read_protocol_path-Gives :
        (protocol path : String) (query : List (String × String))
        → Gives (status_only 404) (read_protocol_path S did protocol path query)
    read_protocol_path-Gives protocol path query =
        bind-Gives (build query (field "filter" (object empty) empty)) _ (status_only 404)
          (λ options. bind-Gives (S.base64_url protocol) _ (status_only 404) (λ decoded.
            bind-Gives (filter_of S (get_field "filter" options)) _ (status_only 404) (λ filter.
              bind-Gives _ _ (status_only 404) (λ message.
                reply-Gives message (by_status S (read_first S did)) (status_only 404)
                  (by_status_private (read_first S did))))))

    read_protocol-Gives :
        (protocol : String) → Gives (status_only 404) (read_protocol S did protocol)
    read_protocol-Gives protocol =
        bind-Gives (S.base64_url protocol) _ (status_only 404) (λ decoded.
          bind-Gives (S.protocols_query (some decoded)) _ (status_only 404) (λ message.
            reply-Gives message (by_status S (first_entry S)) (status_only 404)
              (by_status_private (first_entry S))))

    records_read_handler-Gives :
        (id : String) → Gives (status_only 404) (records_read_handler S did id)
    unfolding records_read_handler
    records_read_handler-Gives id = bind-Gives (S.records_read id) _ (status_only 404) (λ message.
        reply-Gives message (λ reply. ok (read_reply_handler S reply)) (status_only 404)
          (ap (λ a. ok a) read_reply_handler_private))

    get_query_protocols-Gives : Gives (status_only 404) (get_query_protocols S did)
    unfolding get_query_protocols
    get_query_protocols-Gives = bind-Gives (S.protocols_query none) _ (status_only 404) (λ message.
        reply-Gives message (by_status S (all_entries S)) (status_only 404)
          (by_status_private (all_entries S)))

    query_records-Gives :
        (query : List (String × String)) → Gives (reply_json 200 r) (query_records S did query)
    query_records-Gives query = bind-Gives (build query empty) _ (reply_json 200 r) (λ options.
        bind-Gives _ _ (reply_json 200 r) (λ message.
          reply-Gives message (λ reply. ok (reply_json 200 reply)) (reply_json 200 r) refl))

  -- Where the DWN replies to every message to a tenant that the caller is not authorized, the routes
  -- that read a record or a protocol of that tenant answer with a bare 404, and with no other status
  -- but the 400 of an error on the way; those without a catch block may end in that error. GET /query
  -- alone hands the DWN's reply out, with 200.
  pub reads_private :
      (did : String) (r : S.Reply)
      → S.status r ≡ 401
      → ((m : S.Message) → S.process_message did m ≡ ok r)
      → (trim : String → String) (protocol rest id : String) (query : List (String × String))
      → (rest == "") ≡ false
      → ((get_read_protocol_path S trim did protocol rest query ≡ status_only 404)
          ⊎ (get_read_protocol_path S trim did protocol rest query ≡ status_only 400))
        × ((get_read_protocol S did protocol ≡ status_only 404)
            ⊎ (get_read_protocol S did protocol ≡ status_only 400))
        × Gives (status_only 404) (records_read_handler S did id)
        × Gives (status_only 404) (get_query_protocols S did)
        × ((get_query S did query ≡ reply_json 200 r)
            ⊎ ((e : Error) × (get_query S did query ≡ status_text 400 e.message)))
  unfolding get_read_protocol_path get_read_protocol get_query
  reads_private did r refused replies trim protocol rest id query there =
      let private : nat_beq (S.status r) 401 ≡ true = rw refused refl in
      let other : nat_beq (S.status r) 200 ≡ false = rw refused refl in
      (
        rw there (
            caught-Gives (read_protocol_path S did protocol (trim rest) query) (status_only 404)
              (read_protocol_path-Gives did r private other replies protocol (trim rest) query)),
        caught-Gives (read_protocol S did protocol) (status_only 404)
            (read_protocol-Gives did r private other replies protocol),
        records_read_handler-Gives did r private other replies id,
        get_query_protocols-Gives did r private other replies,
        caught_with-Gives (query_records S did query) (reply_json 200 r)
            (query_records-Gives did r private other replies query),
      )
