-- ===== src/Client/Server.antt =====
-- The client of src/json-rpc-socket.ts with the server of src/connection/socket-connection.ts: what the
-- server sends in answer to a request settles the promise that the client waits for.
use Prim.Native.String.{String}
use dwn_server.Common.{
  ℕ, ◌≡◌, ◌∙◌, sym, ap, subst, refl, true, Option, none, some, List, [], ◌∷◌, ◌++◌, nat_beq_iff,
  nat_eq,
}
use dwn_server.Common.Dict
use dwn_server.Errors.{ok}
use dwn_server.JsonRpc.{
  JsonRpcId, string, number, null, id_beq, id_beq_iff, Dwn, JsonRpcRequest, JsonRpcResponse,
  success, failure,
}
use dwn_server.JsonRpc.Connection.{SocketConnection, sent}
use dwn_server.JsonRpc.Handlers.{id_or_uuid}
use dwn_server.JsonRpc.Socket.{Job, Outcome, handle_request, finish}
use dwn_server.JsonRpc.Socket.Answers.{
  Fits, finish-Answers, handle_request-IsTaken, response_id as sent_id,
}
use dwn_server.Client.{
  handle_response, resolved, JsonRpcSocket, new_socket, id_or, request, receive, response_id, Event,
  requests, run, step,
}
use dwn_server.Client.Responses.{answered, receive_answers}

module _ (D : Dwn) (uuidv4 : ℕ → String) where
  -- The request as the client sends it.
  abbrev pub with_id : JsonRpcRequest D → JsonRpcSocket D → JsonRpcRequest D
  with_id q c = record q { id = some (id_or D (uuidv4 c.count) q.id) }

  run-append :
      (es : List (Event D)) (e : Event D) (c : JsonRpcSocket D)
      → run D uuidv4 (es ++ e ∷ []) c ≡ step D uuidv4 e (run D uuidv4 es c)
  unfolding run
  run-append [] e c = refl
  run-append (x ∷ es) e c = run-append es e (step D uuidv4 x c)

  request_listens :
      (q : JsonRpcRequest D) (c : JsonRpcSocket D)
      → Dict.get c.count (request D uuidv4 q c).listeners
        ≡ some (handle_response (id_or D (uuidv4 c.count) q.id))
  unfolding request
  request_listens q c =
      let id = id_or D (uuidv4 c.count) q.id in
      rw
        (
          Dict.get-set c.count c.count (handle_response id) c.listeners,
          (nat_beq_iff c.count c.count).1 refl,
        )
        refl

  -- The client's id is no null, and the server keeps it.
  id_or_uuid-id_or :
      (uuid uuid' : String) (i : Option JsonRpcId)
      → id_or_uuid (some (id_or D uuid i)) uuid' ≡ id_or D uuid i
  id_or_uuid-id_or uuid uuid' none = refl
  id_or_uuid-id_or uuid uuid' (some null) = refl
  id_or_uuid-id_or uuid uuid' (some (string s)) = refl
  id_or_uuid-id_or uuid uuid' (some (number s)) = refl

  response_id_same : (r : JsonRpcResponse D) → sent_id D r ≡ response_id D r
  response_id_same (success id r) = refl
  response_id_same (failure id e) = refl

  step_requests :
      (q : JsonRpcRequest D) (c : JsonRpcSocket D)
      → step D uuidv4 (requests q) c ≡ request D uuidv4 q c
  unfolding step
  step_requests q c = refl

  -- A response under the id of the client's last request resolves its promise.
  response_resolves :
      (es : List (Event D)) (q : JsonRpcRequest D) (r : JsonRpcResponse D)
      → let c = run D uuidv4 es (new_socket D) in
        sent_id D r ≡ id_or D (uuidv4 c.count) q.id
        → Dict.get c.count (receive D uuidv4 r (request D uuidv4 q c)).promises ≡ some (resolved r)
  response_resolves es q r same =
      let c = run D uuidv4 es (new_socket D) in
      let c' = request D uuidv4 q c in
      let id = id_or D (uuidv4 c.count) q.id in
      let run≡ : run D uuidv4 (es ++ requests q ∷ []) (new_socket D) ≡ c' =
        run-append es (requests q) (new_socket D) ∙ step_requests q c in
      let settled : Dict.get c.count (receive D uuidv4 r c').promises
          ≡ some (answered D uuidv4 r id) =
        subst
          (λ x. Dict.get c.count (receive D uuidv4 r x).promises ≡ some (answered D uuidv4 r id))
          run≡
          (receive_answers D uuidv4 (es ++ requests q ∷ []) r c.count id (
            ap (λ (x : JsonRpcSocket D). Dict.get c.count x.listeners) run≡
            ∙ request_listens q c)) in
      let match : id_beq (response_id D r) id ≡ true =
        (id_beq_iff (response_id D r) id).1 (sym (response_id_same r) ∙ same) in
      settled ∙ rw match refl

  -- A request that the client sends is handled by the server, which leaves a job that waits for the
  -- DWN or for a close function; when the outcome arrives the server sends one response, and the
  -- client's promise, which the request made, is resolved with it.
  pub request-finish-receive :
      (es : List (Event D)) (q : JsonRpcRequest D) (uuid : String) (s s' : SocketConnection D)
      (job : Job D) (outcome : Outcome D)
      → let c = run D uuidv4 es (new_socket D) in
        handle_request D uuid (with_id q c) s ≡ ok (s', some job)
        → Fits D job outcome
        → (r : JsonRpcResponse D) × ((finish D job outcome s').out ≡ s'.out ++ sent r ∷ [])
          × (Dict.get c.count (receive D uuidv4 r (request D uuidv4 q c)).promises
              ≡ some (resolved r))
  request-finish-receive es q uuid s s' job outcome h fits =
      let c = run D uuidv4 es (new_socket D) in
      let (r, out, id) = finish-Answers D job outcome s' fits in
      let taken = handle_request-IsTaken D uuid (with_id q c) s (s', some job) h in
      (r, out, response_resolves es q r (id ∙ taken ∙ id_or_uuid-id_or (uuidv4 c.count) uuid q.id))
