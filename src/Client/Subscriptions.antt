-- ===== src/Client/Subscriptions.antt =====
-- The subscriptions of src/json-rpc-socket.ts: which functions a response reaches, and what
-- `subscribe` leaves behind on each of its ends.
use Prim.Native.String.{String}
use dwn_server.Common.{
  ℕ, suc, ◌<◌, ◌≡◌, ◌∙◌, sym, ap, inl, inr, refl, true, false, some, List, [], ◌∷◌, ◌++◌, arith,
  Bool-cases, nat_beq, nat_eq, if◌then◌else◌,
}
use dwn_server.Common.Dict
use dwn_server.Errors.{ok}
use dwn_server.JsonRpc.{JsonRpcId, string, id_beq, Dwn, JsonRpcRequest, JsonRpcResponse}
use dwn_server.Client.{
  Listener, handle_response, socket_event_listener, Promise, pending, resolved, rejected,
  JsonRpcSocket, response_id, is_error, id_or, end_subscribe, closes, request, close_subscription,
  close_listener, begin_subscription, begin_subscribe, finish_subscribe, hear, hear_all, receive,
  time_out, Event, subscribes, expires, resumes, step, run, new_socket, refused, opened, thrown,
  Waiting,
}
use dwn_server.Client.Keeps.{WaitsFor}
use dwn_server.Client.Runs.{run-IsConsistent, new_socket-IsConsistent}
use mathlib.Core.List.{append_assoc, append-nil}
use text.Mathlib.Text.{starts_with}

module _ (D : Dwn) (uuidv4 : ℕ → String) where
  abbrev called : JsonRpcResponse D → ℕ × Listener D → List (ℕ × JsonRpcResponse D)
  called r (n, handle_response id) = []
  called r (n, socket_event_listener id) = if id_beq (response_id D r) id then (n, r) ∷ [] else []

  -- The subscribers' functions that wait for the response's id, in the order of the listeners.
  abbrev pub subscribers : JsonRpcResponse D → List (ℕ × Listener D) → List (ℕ × JsonRpcResponse D)
  subscribers r [] = []
  subscribers r (l ∷ ls) = called r l ++ subscribers r ls

  hear-heard :
      (r : JsonRpcResponse D) (l : ℕ × Listener D) (c : JsonRpcSocket D)
      → (hear D uuidv4 r l c).heard ≡ c.heard ++ called r l
  unfolding hear close_listener close_subscription request
  hear-heard r (n, handle_response id) c = elim (Bool-cases (id_beq (response_id D r) id)) [
    | inl same ↦ rw same (sym (append-nil c.heard))
    | inr other ↦ rw other (sym (append-nil c.heard))
  ]
  hear-heard r (n, socket_event_listener id) c = elim (Bool-cases (id_beq (response_id D r) id)) [
    | inl same ↦
        rw same
          (elim (Bool-cases (is_error D r)) [ inl err ↦ rw err refl | inr fine ↦ rw fine refl ])
    | inr other ↦ rw other (sym (append-nil c.heard))
  ]

  hear_all-heard :
      (r : JsonRpcResponse D) (ls : List (ℕ × Listener D)) (c : JsonRpcSocket D)
      → (hear_all D uuidv4 r ls c).heard ≡ c.heard ++ subscribers r ls
  unfolding hear_all
  hear_all-heard r [] c = sym (append-nil c.heard)
  hear_all-heard r (l ∷ ls) c =
      hear_all-heard r ls (hear D uuidv4 r l c)
      ∙ ap (λ h. h ++ subscribers r ls) (hear-heard r l c)
      ∙ append_assoc c.heard (called r l) (subscribers r ls)

  -- A response is given to the functions of exactly the subscriptions whose listeners stand and
  -- whose id it has, once each and in the order in which they subscribed, whatever the listeners
  -- that are called before do to the list of listeners.
  pub receive-heard :
      (r : JsonRpcResponse D) (c : JsonRpcSocket D)
      → (receive D uuidv4 r c).heard ≡ c.heard ++ subscribers r c.listeners
  unfolding receive
  receive-heard r c = hear_all-heard r c.listeners c

  -- A subscription whose request is not answered in time.
  abbrev pub timed_out : JsonRpcRequest D → JsonRpcSocket D → JsonRpcSocket D
  timed_out r c = run D uuidv4 (subscribes r ∷ expires (suc c.count) ∷ resumes (suc c.count) ∷ []) c

  begin_subscribe_ok :
      (r : JsonRpcRequest D) (id : JsonRpcId) (c : JsonRpcSocket D)
      → starts_with r.method "rpc.subscribe." ≡ true
      → r.subscription ≡ some id
      → begin_subscribe D uuidv4 r c ≡ ok (begin_subscription D uuidv4 r id c)
  unfolding begin_subscribe
  begin_subscribe_ok r id c prefixed asked = rw prefixed (simp (asked))

  step_subscribes :
      (r : JsonRpcRequest D) (id : JsonRpcId) (c : JsonRpcSocket D)
      → starts_with r.method "rpc.subscribe." ≡ true
      → r.subscription ≡ some id
      → step D uuidv4 (subscribes r) c ≡ begin_subscription D uuidv4 r id c
  unfolding step
  step_subscribes r id c prefixed asked = rw (begin_subscribe_ok r id c prefixed asked) refl

  not_self : (n : ℕ) → nat_beq (suc n) n ≡ false
  not_self n = ground arith

  self : (n : ℕ) → nat_beq n n ≡ true
  self n = ground arith

  -- The tables after `subscribe` began.
  begun :
      (r : JsonRpcRequest D) (id : JsonRpcId) (c : JsonRpcSocket D)
      → let b = begin_subscription D uuidv4 r id c in
        (Dict.get (suc c.count) b.promises ≡ some pending)
        × (Dict.get (suc c.count) b.waiting
            ≡ some (record { listener = c.count; subscription_id = id }))
        × (Dict.get c.count b.listeners ≡ some (socket_event_listener id))
  unfolding begin_subscription request
  begun r id c =
      let n = c.count in
      let w : Waiting D = record { listener = n; subscription_id = id } in
      let ls = Dict.set n (socket_event_listener id) c.listeners in
      (
        rw (Dict.get-set (suc n) (suc n) pending c.promises, self (suc n)) refl,
        rw (Dict.get-set (suc n) (suc n) w c.waiting, self (suc n)) refl,
        rw
            (
              Dict.get-set (suc n) n (handle_response (id_or D (uuidv4 (suc n)) r.id)) ls,
              not_self n,
              Dict.get-set n n (socket_event_listener id) c.listeners,
              self n,
            )
            refl,
      )

  timer_runs :
      (n k : ℕ) (w : Waiting D) (l : Listener D) (b : JsonRpcSocket D)
      → nat_beq n k ≡ false
      → Dict.get n b.promises ≡ some pending
      → Dict.get n b.waiting ≡ some w
      → Dict.get k b.listeners ≡ some l
      → let t = step D uuidv4 (resumes n) (step D uuidv4 (expires n) b) in
        (Dict.get n t.subscribed ≡ some (thrown "request timed out"))
        × (Dict.get k t.listeners ≡ some l)
  unfolding step time_out finish_subscribe
  timer_runs n k w l b other open_ waits there =
      let late : Promise D = rejected "request timed out" in
      rw
        (
          Dict.get-some-has n pending b.promises open_,
          waits,
          open_,
          Dict.get-set n n late b.promises,
          self n,
        )
        (
          rw (Dict.get-set n n (thrown "request timed out") b.subscribed, self n) refl,
          rw (Dict.get-delete_ne n k b.listeners other) there,
        )

  -- A subscription whose request is not answered in time ends with an exception, without a close
  -- function, and its listener stays on the socket.
  pub subscribe_timed_out :
      (r : JsonRpcRequest D) (id : JsonRpcId) (c : JsonRpcSocket D)
      → starts_with r.method "rpc.subscribe." ≡ true
      → r.subscription ≡ some id
      → (Dict.get (suc c.count) (timed_out r c).subscribed ≡ some (thrown "request timed out"))
        × (Dict.get c.count (timed_out r c).listeners ≡ some (socket_event_listener id))
  unfolding run
  subscribe_timed_out r id c prefixed asked =
      let (open_, waits, there) = begun r id c in
      rw (step_subscribes r id c prefixed asked) (
        timer_runs (suc c.count) c.count (record { listener = c.count; subscription_id = id })
          (socket_event_listener id) (begin_subscription D uuidv4 r id c) (not_self c.count) open_
          waits there)

  closed_listener :
      (k : ℕ) (id : JsonRpcId) (c : JsonRpcSocket D)
      → k < c.count
      → Dict.IsMap c.listeners
      → Dict.has k (close_listener D uuidv4 k id c).listeners ≡ false
  unfolding close_listener close_subscription request
  closed_listener k id c lt unique =
      let other : nat_beq c.count k ≡ false = ground arith in
      rw
        (
          Dict.has-set c.count k (handle_response (string (uuidv4 c.count)))
              (Dict.delete k c.listeners),
          other,
        )
        (Dict.has-delete_self k c.listeners unique)

  answer_then_close :
      (n : ℕ) (w : Waiting D) (r : JsonRpcResponse D) (b : JsonRpcSocket D)
      → Dict.IsMap b.listeners
      → w.listener < b.count
      → Dict.get n b.promises ≡ some (resolved r)
      → Dict.get n b.waiting ≡ some w
      → Dict.has w.listener (step D uuidv4 (closes n) (step D uuidv4 (resumes n) b)).listeners
        ≡ false
  unfolding step finish_subscribe
  answer_then_close n w r b unique lt there waits = elim (Bool-cases (is_error D r)) [
    | inl err ↦
        rw (waits, there, err, Dict.get-set n n (refused r) b.subscribed, self n)
          (Dict.has-delete_self w.listener b.listeners unique)
    | inr fine ↦
        rw
          (
            waits,
            there,
            fine,
            Dict.get-set n n (opened r w.listener w.subscription_id) b.subscribed,
            self n,
          )
          (closed_listener w.listener w.subscription_id
            (end_subscribe D uuidv4 n (opened r w.listener w.subscription_id) b) lt unique)
  ]

  -- A subscription whose request was answered leaves no listener behind: on an error `subscribe`
  -- removes it, and otherwise the close function that `subscribe` returns does.
  pub subscribe_close :
      (es : List (Event D)) (n : ℕ) (w : Waiting D) (r : JsonRpcResponse D)
      → Dict.get n (run D uuidv4 es (new_socket D)).promises ≡ some (resolved r)
      → Dict.get n (run D uuidv4 es (new_socket D)).waiting ≡ some w
      → Dict.has w.listener
          (run D uuidv4 (resumes n ∷ closes n ∷ []) (run D uuidv4 es (new_socket D))).listeners
        ≡ false
  unfolding run
  subscribe_close es n w r there waits =
      let b = run D uuidv4 es (new_socket D) in
      let h = run-IsConsistent D uuidv4 es (new_socket D) (new_socket-IsConsistent D uuidv4) in
      let spare = Dict.All-get (WaitsFor D b) n w b.waiting h.waiting waits in
      answer_then_close n w r b h.tables.unique spare.used there waits
