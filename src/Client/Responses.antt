-- ===== src/Client/Responses.antt =====
-- The responses that src/json-rpc-socket.ts receives: which promises they settle.
use Prim.Native.String.{String}
use dwn_server.Common.{
  ℕ, ◌<◌, ◌≡◌, ◌∙◌, sym, inl, inr, refl, true, false, Option, none, some, List, [], ◌∷◌, arith,
  Bool-cases, nat_beq, nat_beq_iff, nat_eq, if◌then◌else◌,
}
use dwn_server.Common.Dict
use dwn_server.JsonRpc.{JsonRpcId, id_beq, Dwn, JsonRpcRequest, JsonRpcResponse}
use dwn_server.Client.{
  Listener, handle_response, socket_event_listener, Promise, pending, resolved, rejected,
  JsonRpcSocket, is_unsettled, response_id, is_error, request, close_subscription, close_listener,
  hear, hear_all, receive, Event, run, new_socket,
}
use dwn_server.Client.Exact.{IsOutcome, settled, unsettled}
use dwn_server.Client.Keeps.{IsConsistent}
use dwn_server.Client.Runs.{run-IsConsistent, new_socket-IsConsistent}

module _ (D : Dwn) (uuidv4 : ℕ → String) where
  settled_ne :
      (n k : ℕ) (p : Promise D) (ps : List (ℕ × Promise D))
      → nat_beq k n ≡ false
      → Dict.get n (settled D k p ps) ≡ Dict.get n ps
  settled_ne n k p ps other = elim (Bool-cases (unsettled D k ps)) [
    | inl open_ ↦ rw (open_, Dict.get-set k n p ps, other) refl
    | inr over ↦ rw over refl
  ]

  pub settled_over :
      (n k : ℕ) (o p : Promise D) (ps : List (ℕ × Promise D))
      → IsOutcome D o
      → Dict.get n ps ≡ some o
      → Dict.get n (settled D k p ps) ≡ some o
  settled_over n k o p ps outcome there = elim (Bool-cases (nat_beq k n)) [
    | inr other ↦ settled_ne n k p ps other ∙ there
    | inl same ↦ rw ((nat_beq_iff k n).0 same, there, outcome) there
  ]

  -- The promise `n` has been made, and is as the table says.
  abbrev pub Has : ℕ → Option (Promise D) → JsonRpcSocket D → Type 0
  Has n p c = (n < c.count) × (Dict.get n c.promises ≡ p)

  pub request-Has :
      (r : JsonRpcRequest D) (n : ℕ) (p : Option (Promise D)) (c : JsonRpcSocket D)
      → Has n p c
      → Has n p (request D uuidv4 r c)
  unfolding request
  request-Has r n p c (lt, h) =
      let other : nat_beq c.count n ≡ false = ground arith in
      (omega arith, rw (Dict.get-set c.count n pending c.promises, other) h)

  pub close_listener-Has :
      (k : ℕ) (id : JsonRpcId) (n : ℕ) (p : Option (Promise D)) (c : JsonRpcSocket D)
      → Has n p c
      → Has n p (close_listener D uuidv4 k id c)
  unfolding close_listener close_subscription
  close_listener-Has k id n p c h = request-Has _ n p _ h

  pub hear_event-Has :
      (r : JsonRpcResponse D) (k : ℕ) (id : JsonRpcId) (n : ℕ) (p : Option (Promise D))
      (c : JsonRpcSocket D)
      → Has n p c
      → Has n p (hear D uuidv4 r (k, socket_event_listener id) c)
  unfolding hear
  hear_event-Has r k id n p c h = elim (Bool-cases (id_beq (response_id D r) id)) [
    | inr other ↦ rw other h
    | inl same ↦ rw same (elim (Bool-cases (is_error D r)) [
      | inl err ↦ rw err (close_listener-Has k id n p c h)
      | inr fine ↦ rw fine h
    ])
  ]

  hear-Has :
      (r : JsonRpcResponse D) (k : ℕ) (l : Listener D) (n : ℕ) (p : Option (Promise D))
      (c : JsonRpcSocket D)
      → nat_beq k n ≡ false
      → Has n p c
      → Has n p (hear D uuidv4 r (k, l) c)
  unfolding hear
  hear-Has r k (socket_event_listener id) n p c other h = hear_event-Has r k id n p c h
  hear-Has r k (handle_response id) n p c other (lt, h) =
      elim (Bool-cases (id_beq (response_id D r) id)) [
        | inr wrong ↦ rw wrong (lt, h)
        | inl same ↦ rw same (lt, settled_ne n k (resolved r) c.promises other ∙ h)
      ]

  hear_all-Has :
      (r : JsonRpcResponse D) (ls : List (ℕ × Listener D)) (n : ℕ) (p : Option (Promise D))
      (c : JsonRpcSocket D)
      → Dict.has n ls ≡ false
      → Has n p c
      → Has n p (hear_all D uuidv4 r ls c)
  unfolding hear_all Dict.has
  hear_all-Has r [] n p c gone h = h
  hear_all-Has r ((k, l) ∷ ls) n p c gone h =
      hear_all-Has r ls n p (hear D uuidv4 r (k, l) c) (ground (arith, gone))
        (hear-Has r k l n p c (ground (arith, gone)) h)

  -- What a response does to the promise of a request that waits for the id.
  abbrev pub answered : JsonRpcResponse D → JsonRpcId → Promise D
  answered r id = if id_beq (response_id D r) id then resolved r else pending

  hear-answered :
      (r : JsonRpcResponse D) (n : ℕ) (id : JsonRpcId) (c : JsonRpcSocket D)
      → Has n (some pending) c
      → Has n (some (answered r id)) (hear D uuidv4 r (n, handle_response id) c)
  unfolding hear
  hear-answered r n id c (lt, h) = elim (Bool-cases (id_beq (response_id D r) id)) [
    | inr wrong ↦ rw wrong (lt, h)
    | inl same ↦
        rw same
          (lt, rw (h, Dict.get-set n n (resolved r) c.promises, (nat_beq_iff n n).1 refl) refl)
  ]

  first_listener :
      (k n : ℕ) (l l' : Listener D) (ls : List (ℕ × Listener D))
      → nat_beq k n ≡ true
      → Dict.get n ((k, l) ∷ ls) ≡ some l'
      → l ≡ l'
  unfolding Dict.get
  first_listener k n l l' ls same there =
      let here : Dict.get n ((k, l) ∷ ls) ≡ some l = rw same refl in cc (sym here ∙ there)

  hear_all-answered :
      (r : JsonRpcResponse D) (ls : List (ℕ × Listener D)) (n : ℕ) (id : JsonRpcId)
      (c : JsonRpcSocket D)
      → Dict.IsMap ls
      → Dict.get n ls ≡ some (handle_response id)
      → Has n (some pending) c
      → Has n (some (answered r id)) (hear_all D uuidv4 r ls c)
  unfolding hear_all Dict.get Dict.IsMap hear
  hear_all-answered r [] n id c unique there h = absurd (cc)
  hear_all-answered r ((k, l) ∷ ls) n id c (fresh, unique) there h =
      elim (Bool-cases (nat_beq k n)) [
        | inl same ↦
            let k≡n = (nat_beq_iff k n).0 same in
            let l≡ : l ≡ handle_response id =
              first_listener k n l (handle_response id) ls same there in
            rw (k≡n, l≡)
              (hear_all-Has r ls n (some (answered r id))
                (hear D uuidv4 r (n, handle_response id) c) (rw⁻¹ k≡n fresh)
                (hear-answered r n id c h))
        | inr other ↦
            hear_all-answered r ls n id (hear D uuidv4 r (k, l) c) unique
              (ground (arith, there, other)) (hear-Has r k l n (some pending) c other h)
      ]

  pending_of : (o : Option (Promise D)) → is_unsettled D o ≡ true → o ≡ some pending
  pending_of none h = absurd (cc)
  pending_of (some pending) h = refl
  pending_of (some (resolved r)) h = absurd (cc)
  pending_of (some (rejected e)) h = absurd (cc)

  listener_pending :
      (c : JsonRpcSocket D) (n : ℕ) (id : JsonRpcId)
      → IsConsistent D c
      → Dict.get n c.listeners ≡ some (handle_response id)
      → Has n (some pending) c
  listener_pending c n id h there =
      let lt : n < c.count = ground (
        arith,
        h.tables.free_listener n,
        Dict.get-some-has n (handle_response id) c.listeners there,
      ) in
      (lt, pending_of (Dict.get n c.promises) (h.tables.exact n ∙ rw there refl))

  -- A response settles the promise of each request whose listener stands and waits for its id, with
  -- that response; the promise of a request that waits for another id stays pending.
  pub receive_answers :
      (es : List (Event D)) (r : JsonRpcResponse D) (n : ℕ) (id : JsonRpcId)
      → Dict.get n (run D uuidv4 es (new_socket D)).listeners ≡ some (handle_response id)
      → Dict.get n (receive D uuidv4 r (run D uuidv4 es (new_socket D))).promises
        ≡ some (answered r id)
  unfolding receive
  receive_answers es r n id there =
      let c = run D uuidv4 es (new_socket D) in
      let h = run-IsConsistent D uuidv4 es (new_socket D) (new_socket-IsConsistent D uuidv4) in
      (hear_all-answered r c.listeners n id c h.tables.unique there
        (listener_pending c n id h there)).1
