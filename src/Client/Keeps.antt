-- ===== src/Client/Keeps.antt =====
-- src/json-rpc-socket.ts: what holds of the tables of the client's socket, and that each change of
-- them keeps it.
use Prim.Native.String.{String}
use dwn_server.Common.{ℕ, ◌≡◌, sym, subst, inl, inr, refl, Bool-cases, All, All-map, nat_eq}
use dwn_server.JsonRpc.{JsonRpcId, id_beq, Dwn, JsonRpcRequest, JsonRpcResponse}
use dwn_server.Client.{
  Listener, handle_response, socket_event_listener, Promise, resolved, Subscribed, refused, opened,
  thrown, Waiting, JsonRpcSocket, settle, remove_event_listener, response_id, is_error, id_or,
  request, close_subscription, add_subscriber, close_listener, hear, call_listener,
}
use dwn_server.Client.Exact.{
  IsExact, IsSpare, IsOutcome, add_request-IsExact, add_subscriber-IsExact, remove-IsExact,
  settle-IsExact, add-IsSpare, delete-IsSpare,
}

module _ (D : Dwn) where
  -- The number of a listener that a subscription made.
  abbrev pub IsSubscriber : JsonRpcSocket D → ℕ → Type 0
  IsSubscriber c k = IsSpare D c.listeners c.count k

  abbrev pub WaitsFor : JsonRpcSocket D → ℕ × Waiting D → Type 0
  WaitsFor c (n, w) = IsSubscriber c w.listener

  abbrev pub Closes : JsonRpcSocket D → ℕ × Subscribed D → Type 0
  Closes c (n, refused r) = Unit
  Closes c (n, opened r k id) = IsSubscriber c k
  Closes c (n, thrown e) = Unit

  pub record IsConsistent (c : JsonRpcSocket D) : Type 0 where
    pub tables : IsExact D c.listeners c.count c.promises
    pub waiting : All (WaitsFor c) c.waiting
    pub closable : All (Closes c) c.subscribed

  -- What a change of the listeners and the promises keeps.
  pub record Keeps (c c' : JsonRpcSocket D) : Type 0 where
    pub consistent : IsConsistent c'
    pub subscriber : (k : ℕ) → IsSubscriber c k → IsSubscriber c' k

  Closes-map :
      (c c' : JsonRpcSocket D)
      → ((k : ℕ) → IsSubscriber c k → IsSubscriber c' k)
      → (e : ℕ × Subscribed D) → Closes c e
      → Closes c' e
  Closes-map c c' f (n, refused r) h = tt
  Closes-map c c' f (n, opened r k id) h = f k h
  Closes-map c c' f (n, thrown e) h = tt

  -- The other tables stand as they were.
  pub keep :
      (c c' : JsonRpcSocket D)
      → c'.waiting ≡ c.waiting
      → c'.subscribed ≡ c.subscribed
      → ((k : ℕ) → IsSubscriber c k → IsSubscriber c' k)
      → IsExact D c'.listeners c'.count c'.promises
      → IsConsistent c
      → Keeps c c'
  keep c c' waits subs f tables h = record {
    consistent = record {
      tables = tables;
      waiting =
          subst (λ w. All (WaitsFor c') w) (sym waits)
            (All-map (WaitsFor c) (WaitsFor c') (λ e. f e.1.listener) c.waiting h.waiting);
      closable =
          subst (λ s. All (Closes c') s) (sym subs)
            (All-map (Closes c) (Closes c') (Closes-map c c' f) c.subscribed h.closable);
    };
    subscriber = f;
  }

  pub then_ :
      (c c' c'' : JsonRpcSocket D) → Keeps c c' → (IsConsistent c' → Keeps c' c'') → Keeps c c''
  then_ c c' c'' k l =
      let k' = l k.consistent in
      record { consistent = k'.consistent; subscriber = λ j s. k'.subscriber j (k.subscriber j s) }

  module _ (uuidv4 : ℕ → String) where
    pub request-Keeps :
        (r : JsonRpcRequest D) (c : JsonRpcSocket D)
        → IsConsistent c
        → Keeps c (request D uuidv4 r c)
    unfolding request
    request-Keeps r c h =
        keep c (request D uuidv4 r c) refl refl
          (λ k s.
            add-IsSpare D (handle_response (id_or D (uuidv4 c.count) r.id)) k c.count c.listeners s)
          (add_request-IsExact D (id_or D (uuidv4 c.count) r.id) c.listeners c.count c.promises
            h.tables)
          h

    pub add_subscriber-Keeps :
        (id : JsonRpcId) (c : JsonRpcSocket D)
        → IsConsistent c
        → Keeps c (add_subscriber D uuidv4 id c)
    add_subscriber-Keeps id c h =
        keep c (add_subscriber D uuidv4 id c) refl refl
          (λ k s. add-IsSpare D (socket_event_listener id) k c.count c.listeners s)
          (add_subscriber-IsExact D id c.listeners c.count c.promises h.tables) h

    pub remove-Keeps :
        (k : ℕ) (c : JsonRpcSocket D)
        → IsSubscriber c k
        → IsConsistent c
        → Keeps c (remove_event_listener D k c)
    remove-Keeps k c spare h =
        keep c (remove_event_listener D k c) refl refl
          (λ j s. delete-IsSpare D k j c.count c.listeners h.tables.unique s)
          (remove-IsExact D k c.listeners c.count c.promises spare h.tables) h

    pub settle-Keeps :
        (n : ℕ) (p : Promise D) (c : JsonRpcSocket D)
        → IsOutcome D p
        → IsConsistent c
        → Keeps c (settle D n p (remove_event_listener D n c))
    settle-Keeps n p c outcome h =
        keep c (settle D n p (remove_event_listener D n c)) refl refl
          (λ j s. delete-IsSpare D n j c.count c.listeners h.tables.unique s)
          (settle-IsExact D n p c.listeners c.count c.promises outcome h.tables) h

    pub close_listener-Keeps :
        (k : ℕ) (id : JsonRpcId) (c : JsonRpcSocket D)
        → IsSubscriber c k
        → IsConsistent c
        → Keeps c (close_listener D uuidv4 k id c)
    unfolding close_listener close_subscription
    close_listener-Keeps k id c spare h =
        then_ c (remove_event_listener D k c) (close_listener D uuidv4 k id c)
          (remove-Keeps k c spare h) (request-Keeps _ (remove_event_listener D k c))

    call_listener-Keeps :
        (n : ℕ) (r : JsonRpcResponse D) (c c' : JsonRpcSocket D)
        → Keeps c c'
        → Keeps c (call_listener D uuidv4 n r c')
    call_listener-Keeps n r c c' h =
        then_ c c' (call_listener D uuidv4 n r c') h
          (λ g. keep c' (call_listener D uuidv4 n r c') refl refl (λ k s. s) g.tables g)

    pub stay : (c : JsonRpcSocket D) → IsConsistent c → Keeps c c
    stay c h = record { consistent = h; subscriber = λ k s. s }

    -- An entry of the listeners that were copied before the first was called.
    abbrev pub IsHeard : JsonRpcSocket D → ℕ × Listener D → Type 0
    IsHeard c (n, handle_response id) = Unit
    IsHeard c (n, socket_event_listener id) = IsSubscriber c n

    pub IsHeard-map :
        (c c' : JsonRpcSocket D) → Keeps c c' → (l : ℕ × Listener D) → IsHeard c l → IsHeard c' l
    IsHeard-map c c' k (n, handle_response id) h = tt
    IsHeard-map c c' k (n, socket_event_listener id) h = k.subscriber n h

    pub hear-Keeps :
        (r : JsonRpcResponse D) (l : ℕ × Listener D) (c : JsonRpcSocket D)
        → IsHeard c l
        → IsConsistent c
        → Keeps c (hear D uuidv4 r l c)
    unfolding hear
    hear-Keeps r (n, handle_response id) c l h = elim (Bool-cases (id_beq (response_id D r) id)) [
      | inl same ↦ rw same (settle-Keeps n (resolved r) c refl h)
      | inr other ↦ rw other (stay c h)
    ]
    hear-Keeps r (n, socket_event_listener id) c l h =
        elim (Bool-cases (id_beq (response_id D r) id)) [
          | inl same ↦ rw same (elim (Bool-cases (is_error D r)) [
            | inl err ↦ rw err (
                call_listener-Keeps n r c (close_listener D uuidv4 n id c)
                  (close_listener-Keeps n id c l h))
            | inr fine ↦ rw fine (call_listener-Keeps n r c c (stay c h))
          ])
          | inr other ↦ rw other (stay c h)
        ]
