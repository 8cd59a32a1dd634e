-- ===== src/Client/Runs.antt =====
-- All runs of src/json-rpc-socket.ts: the tables stay consistent.
use Prim.Native.String.{String}
use dwn_server.Common.{
  ℕ, suc, ◌≡◌, inl, inr, refl, Option, none, some, List, [], ◌∷◌, arith, Bool-cases, Option-cases,
  All, All-map, nat_eq,
}
use dwn_server.Common.Dict
use dwn_server.JsonRpc.{JsonRpcId, Dwn, JsonRpcRequest, JsonRpcResponse}
use dwn_server.Client.{
  Listener, handle_response, socket_event_listener, Promise, pending, resolved, rejected,
  Subscribed, refused, opened, thrown, Waiting, JsonRpcSocket, new_socket, is_pending,
  remove_event_listener, is_error, request, add_subscriber, begin_subscription, begin_subscribe,
  with_options, end_subscribe, after_request, finish_subscribe, close_opened, hear, hear_all,
  receive, time_out, or_same, Event, requests, subscribes, receives, expires, resumes, closes, step,
  run,
}
use dwn_server.Client.Exact.{handles, new-IsSpare}
use dwn_server.Client.Keeps.{
  IsSubscriber, WaitsFor, Closes, IsConsistent, Keeps, then_, request-Keeps, add_subscriber-Keeps,
  remove-Keeps, settle-Keeps, close_listener-Keeps, stay, IsHeard, IsHeard-map, hear-Keeps,
}
use text.Mathlib.Text.{starts_with}

module _ (D : Dwn) (uuidv4 : ℕ → String) where
  IsHeard-entry :
      (c : JsonRpcSocket D)
      → IsConsistent D c
      → (n : ℕ) (l : Listener D) → Dict.get n c.listeners ≡ some l
      → IsHeard D uuidv4 c (n, l)
  IsHeard-entry c h n (handle_response id) there = tt
  IsHeard-entry c h n (socket_event_listener id) there = record {
    used = ground (
      arith,
      h.tables.free_listener n,
      Dict.get-some-has n (socket_event_listener id) c.listeners there,
    );
    silent = rw there refl;
  }

  pub listeners-IsHeard :
      (c : JsonRpcSocket D) → IsConsistent D c → All (IsHeard D uuidv4 c) c.listeners
  listeners-IsHeard c h =
      Dict.All-of (IsHeard D uuidv4 c) c.listeners h.tables.unique (IsHeard-entry c h)

  hear_all-Keeps :
      (r : JsonRpcResponse D) (ls : List (ℕ × Listener D)) (c : JsonRpcSocket D)
      → All (IsHeard D uuidv4 c) ls
      → IsConsistent D c
      → Keeps D c (hear_all D uuidv4 r ls c)
  unfolding hear_all
  hear_all-Keeps r [] c hs h = stay D uuidv4 c h
  hear_all-Keeps r (l ∷ ls) c (p, hs) h =
      let k = hear-Keeps D uuidv4 r l c p h in
      let c' = hear D uuidv4 r l c in
      then_ D c c' (hear_all D uuidv4 r ls c') k (
        hear_all-Keeps r ls c'
          (All-map (IsHeard D uuidv4 c) (IsHeard D uuidv4 c') (IsHeard-map D uuidv4 c c' k) ls hs))

  begin_subscription-IsConsistent :
      (r : JsonRpcRequest D) (id : JsonRpcId) (c : JsonRpcSocket D)
      → IsConsistent D c
      → IsConsistent D (begin_subscription D uuidv4 r id c)
  unfolding begin_subscription
  begin_subscription-IsConsistent r id c h =
      let c1 = add_subscriber D uuidv4 id c in
      let k1 = add_subscriber-Keeps D uuidv4 id c h in
      let c2 = request D uuidv4 r c1 in
      let k2 = request-Keeps D uuidv4 r c1 k1.consistent in
      let g = k2.consistent in
      record {
        tables = g.tables;
        waiting =
            Dict.All-set (WaitsFor D c2) (suc c.count)
              (record { listener = c.count; subscription_id = id }) c2.waiting
              (k2.subscriber c.count (new-IsSpare D id c.count c.listeners)) g.waiting;
        closable = g.closable;
      }

  end_subscribe-IsConsistent :
      (n : ℕ) (s : Subscribed D) (c : JsonRpcSocket D)
      → Closes D c (n, s)
      → IsConsistent D c
      → IsConsistent D (end_subscribe D uuidv4 n s c)
  end_subscribe-IsConsistent n s c p h = record {
    tables = h.tables;
    waiting = Dict.All-delete (WaitsFor D c) n c.waiting h.waiting;
    closable = Dict.All-set (Closes D c) n s c.subscribed p h.closable;
  }

  after_request-IsConsistent :
      (n : ℕ) (w : Waiting D) (p : Option (Promise D)) (c : JsonRpcSocket D)
      → IsSubscriber D c w.listener
      → IsConsistent D c
      → IsConsistent D (after_request D uuidv4 n w p c)
  after_request-IsConsistent n w none c s h = h
  after_request-IsConsistent n w (some pending) c s h = h
  after_request-IsConsistent n w (some (resolved r)) c s h = elim (Bool-cases (is_error D r)) [
    | inl err ↦ rw err (
        end_subscribe-IsConsistent n (refused r) (remove_event_listener D w.listener c) tt
          (remove-Keeps D uuidv4 w.listener c s h).consistent)
    | inr fine ↦
        rw fine (end_subscribe-IsConsistent n (opened r w.listener w.subscription_id) c s h)
  ]
  after_request-IsConsistent n w (some (rejected e)) c s h =
      end_subscribe-IsConsistent n (thrown e) c tt h

  finish_subscribe-IsConsistent :
      (n : ℕ) (c : JsonRpcSocket D)
      → IsConsistent D c
      → IsConsistent D (finish_subscribe D uuidv4 n c)
  unfolding finish_subscribe
  finish_subscribe-IsConsistent n c h = elim (Option-cases (Dict.get n c.waiting)) [
    | inl gone ↦ rw gone h
    | inr (w, there) ↦ rw there (
        after_request-IsConsistent n w (Dict.get n c.promises) c
          (Dict.All-get (WaitsFor D c) n w c.waiting h.waiting there) h)
  ]

  close_one :
      (n : ℕ) (s : Subscribed D) (c : JsonRpcSocket D)
      → Closes D c (n, s)
      → IsConsistent D c
      → IsConsistent D (close_opened D uuidv4 (some s) c)
  close_one n (refused r) c p h = h
  close_one n (opened r k id) c p h = (close_listener-Keeps D uuidv4 k id c p h).consistent
  close_one n (thrown e) c p h = h

  close_opened-IsConsistent :
      (n : ℕ) (c : JsonRpcSocket D)
      → IsConsistent D c
      → IsConsistent D (close_opened D uuidv4 (Dict.get n c.subscribed) c)
  close_opened-IsConsistent n c h = elim (Option-cases (Dict.get n c.subscribed)) [
    | inl gone ↦ rw gone h
    | inr (s, there) ↦
        rw there (close_one n s c (Dict.All-get (Closes D c) n s c.subscribed h.closable there) h)
  ]

  with_options-IsConsistent :
      (r : JsonRpcRequest D) (s : Option JsonRpcId) (c : JsonRpcSocket D)
      → IsConsistent D c
      → IsConsistent D (or_same D uuidv4 c (with_options D uuidv4 r s c))
  with_options-IsConsistent r none c h = h
  with_options-IsConsistent r (some id) c h = begin_subscription-IsConsistent r id c h

  begin_subscribe-IsConsistent :
      (r : JsonRpcRequest D) (c : JsonRpcSocket D)
      → IsConsistent D c
      → IsConsistent D (or_same D uuidv4 c (begin_subscribe D uuidv4 r c))
  unfolding begin_subscribe
  begin_subscribe-IsConsistent r c h = elim (Bool-cases (starts_with r.method "rpc.subscribe.")) [
    | inr other ↦ rw other h
    | inl prefixed ↦ rw prefixed (with_options-IsConsistent r r.subscription c h)
  ]

  step-IsConsistent :
      (e : Event D) (c : JsonRpcSocket D) → IsConsistent D c → IsConsistent D (step D uuidv4 e c)
  unfolding step receive time_out
  step-IsConsistent (requests r) c h = (request-Keeps D uuidv4 r c h).consistent
  step-IsConsistent (subscribes r) c h = begin_subscribe-IsConsistent r c h
  step-IsConsistent (receives r) c h =
      (hear_all-Keeps r c.listeners c (listeners-IsHeard c h) h).consistent
  step-IsConsistent (expires n) c h = elim (Bool-cases (Dict.has n c.promises)) [
    | inl there ↦
        rw there ((settle-Keeps D uuidv4 n (rejected "request timed out") c refl h).consistent)
    | inr gone ↦ rw gone h
  ]
  step-IsConsistent (resumes n) c h = finish_subscribe-IsConsistent n c h
  step-IsConsistent (closes n) c h = close_opened-IsConsistent n c h

  pub run-IsConsistent :
      (es : List (Event D)) (c : JsonRpcSocket D)
      → IsConsistent D c
      → IsConsistent D (run D uuidv4 es c)
  unfolding run
  run-IsConsistent [] c h = h
  run-IsConsistent (e ∷ es) c h = run-IsConsistent es (step D uuidv4 e c) (step-IsConsistent e c h)

  pub new_socket-IsConsistent : IsConsistent D (new_socket D)
  unfolding Dict.IsMap Dict.has Dict.get
  new_socket-IsConsistent = record {
    tables = record {
      unique = tt;
      free_listener = λ n le. refl;
      free_promise = λ n le. refl;
      exact = λ n. refl;
    };
    waiting = tt;
    closable = tt;
  }

  -- Whatever requests, subscriptions, responses, timers and closes happen to a new socket, the
  -- promise of a request is pending exactly while its listener stands: none waits without a
  -- listener, and no listener of a request stays behind.
  pub run-is_pending :
      (es : List (Event D)) (n : ℕ)
      → is_pending D n (run D uuidv4 es (new_socket D))
        ≡ handles D (Dict.get n (run D uuidv4 es (new_socket D)).listeners)
  run-is_pending es n = (run-IsConsistent es (new_socket D) new_socket-IsConsistent).tables.exact n
