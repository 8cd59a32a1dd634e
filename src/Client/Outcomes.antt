-- ===== src/Client/Outcomes.antt =====
-- src/json-rpc-socket.ts: the outcome of a promise is final, and a timer brings one.
use Prim.Native.String.{String}
use dwn_server.Common.{
  ℕ, ◌<◌, ◌≡◌, ◌⊎◌, inl, inr, refl, true, Option, none, some, List, [], ◌∷◌, arith, Bool-cases,
  nat_beq_iff, nat_eq,
}
use dwn_server.Common.Dict
use dwn_server.JsonRpc.{JsonRpcId, id_beq, Dwn, JsonRpcRequest, JsonRpcResponse}
use dwn_server.Client.{
  Listener, handle_response, socket_event_listener, Promise, pending, resolved, rejected,
  JsonRpcSocket, add_subscriber, response_id, is_error, begin_subscription, begin_subscribe,
  or_same, with_options, resume, after_request, finish_subscribe, close_opened, hear, hear_all,
  receive, time_out, Event, requests, subscribes, receives, expires, resumes, closes, step, run,
  new_socket, Subscribed, refused, opened, thrown, Waiting,
}
use dwn_server.Client.Exact.{IsOutcome}
use dwn_server.Client.Runs.{run-IsConsistent, new_socket-IsConsistent}
use dwn_server.Client.Responses.{Has, settled_over, request-Has, close_listener-Has, hear_event-Has}
use text.Mathlib.Text.{starts_with}

module _ (D : Dwn) (uuidv4 : ℕ → String) where
  hear-over :
      (r : JsonRpcResponse D) (l : ℕ × Listener D) (n : ℕ) (o : Promise D) (c : JsonRpcSocket D)
      → IsOutcome D o
      → Has D uuidv4 n (some o) c
      → Has D uuidv4 n (some o) (hear D uuidv4 r l c)
  unfolding hear
  hear-over r (k, socket_event_listener id) n o c over h =
      hear_event-Has D uuidv4 r k id n (some o) c h
  hear-over r (k, handle_response id) n o c over (lt, h) =
      elim (Bool-cases (id_beq (response_id D r) id)) [
        | inr wrong ↦ rw wrong (lt, h)
        | inl same ↦ rw same (lt, settled_over D uuidv4 n k o (resolved r) c.promises over h)
      ]

  hear_all-over :
      (r : JsonRpcResponse D) (ls : List (ℕ × Listener D)) (n : ℕ) (o : Promise D)
      (c : JsonRpcSocket D)
      → IsOutcome D o
      → Has D uuidv4 n (some o) c
      → Has D uuidv4 n (some o) (hear_all D uuidv4 r ls c)
  unfolding hear_all
  hear_all-over r [] n o c over h = h
  hear_all-over r (l ∷ ls) n o c over h =
      hear_all-over r ls n o (hear D uuidv4 r l c) over (hear-over r l n o c over h)

  after_request-Has :
      (m : ℕ) (w : Waiting D) (q : Option (Promise D)) (n : ℕ) (p : Option (Promise D))
      (c : JsonRpcSocket D)
      → Has D uuidv4 n p c
      → Has D uuidv4 n p (after_request D uuidv4 m w q c)
  after_request-Has m w none n p c h = h
  after_request-Has m w (some pending) n p c h = h
  after_request-Has m w (some (resolved r)) n p c h = elim (Bool-cases (is_error D r)) [
    | inl err ↦ rw err h
    | inr fine ↦ rw fine h
  ]
  after_request-Has m w (some (rejected e)) n p c h = h

  resume-Has :
      (m : ℕ) (w : Option (Waiting D)) (n : ℕ) (p : Option (Promise D)) (c : JsonRpcSocket D)
      → Has D uuidv4 n p c
      → Has D uuidv4 n p (resume D uuidv4 m w c)
  resume-Has m none n p c h = h
  resume-Has m (some w) n p c h = after_request-Has m w (Dict.get m c.promises) n p c h

  close_opened-Has :
      (s : Option (Subscribed D)) (n : ℕ) (p : Option (Promise D)) (c : JsonRpcSocket D)
      → Has D uuidv4 n p c
      → Has D uuidv4 n p (close_opened D uuidv4 s c)
  close_opened-Has none n p c h = h
  close_opened-Has (some (refused r)) n p c h = h
  close_opened-Has (some (opened r k id)) n p c h = close_listener-Has D uuidv4 k id n p c h
  close_opened-Has (some (thrown e)) n p c h = h

  with_options-Has :
      (r : JsonRpcRequest D) (s : Option JsonRpcId) (n : ℕ) (p : Option (Promise D))
      (c : JsonRpcSocket D)
      → Has D uuidv4 n p c
      → Has D uuidv4 n p (or_same D uuidv4 c (with_options D uuidv4 r s c))
  unfolding begin_subscription
  with_options-Has r none n p c h = h
  with_options-Has r (some id) n p c (lt, h) =
      request-Has D uuidv4 r n p (add_subscriber D uuidv4 id c) (omega arith, h)

  step-over :
      (e : Event D) (n : ℕ) (o : Promise D) (c : JsonRpcSocket D)
      → IsOutcome D o
      → Has D uuidv4 n (some o) c
      → Has D uuidv4 n (some o) (step D uuidv4 e c)
  unfolding step receive time_out begin_subscribe finish_subscribe
  step-over (requests r) n o c over h = request-Has D uuidv4 r n (some o) c h
  step-over (subscribes r) n o c over h =
      elim (Bool-cases (starts_with r.method "rpc.subscribe.")) [
        | inr other ↦ rw other h
        | inl prefixed ↦ rw prefixed (with_options-Has r r.subscription n (some o) c h)
      ]
  step-over (receives r) n o c over h = hear_all-over r c.listeners n o c over h
  step-over (expires k) n o c over (lt, h) = elim (Bool-cases (Dict.has k c.promises)) [
    | inr gone ↦ rw gone (lt, h)
    | inl there ↦
        rw there (lt, settled_over D uuidv4 n k o (rejected "request timed out") c.promises over h)
  ]
  step-over (resumes k) n o c over h = resume-Has k (Dict.get k c.waiting) n (some o) c h
  step-over (closes k) n o c over h = close_opened-Has (Dict.get k c.subscribed) n (some o) c h

  run-over :
      (es : List (Event D)) (n : ℕ) (o : Promise D) (c : JsonRpcSocket D)
      → IsOutcome D o
      → Has D uuidv4 n (some o) c
      → Has D uuidv4 n (some o) (run D uuidv4 es c)
  unfolding run
  run-over [] n o c over h = h
  run-over (e ∷ es) n o c over h =
      run-over es n o (step D uuidv4 e c) over (step-over e n o c over h)

  unfoldable AfterTimer : ℕ → JsonRpcSocket D → Type 0
  AfterTimer n c =
      (o : Promise D) × IsOutcome D o
      × (Dict.get n (step D uuidv4 (expires n) c).promises ≡ some o)
      × ((o ≡ rejected "request timed out") ⊎ (Dict.get n c.promises ≡ some o))

  after_timer :
      (n : ℕ) (p : Promise D) (c : JsonRpcSocket D)
      → Dict.has n c.promises ≡ true
      → Dict.get n c.promises ≡ some p
      → AfterTimer n c
  unfolding AfterTimer step time_out
  after_timer n pending c made there = (
    rejected "request timed out",
    refl,
    rw
        (
          made,
          there,
          Dict.get-set n n (rejected "request timed out") c.promises,
          (nat_beq_iff n n).1 refl,
        )
        refl,
    inl refl,
  )
  after_timer n (resolved r) c made there = (
    resolved r,
    refl,
    rw made (
        settled_over D uuidv4 n n (resolved r) (rejected "request timed out") c.promises refl
          there),
    inr there,
  )
  after_timer n (rejected e) c made there = (
    rejected e,
    refl,
    rw made (
        settled_over D uuidv4 n n (rejected e) (rejected "request timed out") c.promises refl
          there),
    inr there,
  )

  timer-count :
      (n : ℕ) (c : JsonRpcSocket D)
      → Dict.has n c.promises ≡ true
      → n < c.count
      → n < (step D uuidv4 (expires n) c).count
  unfolding step time_out
  timer-count n c made lt = rw made lt

  -- Once the timer of a request has run, its promise is settled for good: whatever happened before
  -- and whatever happens afterwards, it is rejected, or it was resolved before the timer ran.
  pub time_out_settles :
      (es es' : List (Event D)) (n : ℕ)
      → Dict.has n (run D uuidv4 es (new_socket D)).promises ≡ true
      → (o : Promise D) × IsOutcome D o
        × (Dict.get n (run D uuidv4 (expires n ∷ es') (run D uuidv4 es (new_socket D))).promises
            ≡ some o)
        × ((o ≡ rejected "request timed out")
            ⊎ (Dict.get n (run D uuidv4 es (new_socket D)).promises ≡ some o))
  unfolding run AfterTimer
  time_out_settles es es' n made =
      let c = run D uuidv4 es (new_socket D) in
      let h = run-IsConsistent D uuidv4 es (new_socket D) (new_socket-IsConsistent D uuidv4) in
      let (p, there) = Dict.has-get n c.promises made in
      let lt : n < c.count = ground (arith, h.tables.free_promise n, made) in
      let (o, over, now, which) = after_timer n p c made there in
      (
        o,
        over,
        (run-over es' n o (step D uuidv4 (expires n) c) over (timer-count n c made lt, now)).1,
        which,
      )
