-- ===== src/JsonRpc/Socket/Runs.antt =====
-- What holds in every run of a connection, whatever interleaves.
use Prim.Native.String.{String}
use dwn_server.Common.{
  ℕ, ◌≡◌, refl, sym, subst, ◌∙◌, Bool, true, false, Bool-cases, some, List, [], ◌∷◌, ◌++◌, arith,
  if◌then◌else◌, string_eq, inl, inr, ◌⊎◌,
}
use dwn_server.Common.Dict
use dwn_server.Errors.{Result}
use dwn_server.JsonRpc.{JsonRpcId, id_eq, Dwn, JsonRpcRequest}
use dwn_server.JsonRpc.Connection.{finish_close}
use dwn_server.JsonRpc.Connection.Laws.{begin_close_lem, closings}
use dwn_server.JsonRpc.Socket.{
  State, Event, arrives, returns, published, pongs, ticks, fails, closes, closed_all, step, run,
  after_return, take_job,
}
use dwn_server.JsonRpc.Socket.Changes.{Change, kept, emptied, added, removed, step-Change}

module _ (D : Dwn) where
  Change-IsMap : (m m' : List (JsonRpcId × ℕ)) → Change D m m' → Dict.IsMap m → Dict.IsMap m'
  unfolding Dict.IsMap
  Change-IsMap m _ kept h = h
  Change-IsMap m _ emptied h = tt
  Change-IsMap m _ (added id n new) h = Dict.set-IsMap id n m h
  Change-IsMap m _ (removed id) h = Dict.delete-IsMap id m h

  has-nil : (id : JsonRpcId) → Dict.has {K = JsonRpcId} {V = ℕ} id [] ≡ false
  unfolding Dict.has
  has-nil id = refl

  Change-get :
      (id : JsonRpcId) (n : ℕ) (m m' : List (JsonRpcId × ℕ))
      → Change D m m'
      → Dict.IsMap m
      → Dict.get id m ≡ some n
      → (Dict.get id m' ≡ some n) ⊎ (Dict.has id m' ≡ false)
  Change-get id n m _ kept h held = inl held
  Change-get id n m _ emptied h held = inr (has-nil id)
  Change-get id n m _ (added j k new) h held =
      ground (arith, Dict.get-set j id k m, id_eq.beq_iff j id, Dict.get-some-has id n m held)
  Change-get id n m _ (removed j) h held = elim (Bool-cases (id_eq.beq j id)) [
    | inl same ↦ inr (ground (arith, id_eq.beq_iff j id, same, Dict.has-delete_self id m h))
    | inr other ↦ inl (Dict.get-delete_ne j id m other ∙ held)
  ]

  module _ (parse : String → Result (JsonRpcRequest D)) where
    -- In every run no two subscriptions of a connection share an id, if none did at its start.
    pub run-IsMap :
        (es : List (Event D)) (s : State D)
        → Dict.IsMap s.connection.subscriptions
        → Dict.IsMap (run D parse es s).connection.subscriptions
    unfolding run
    run-IsMap [] s h = h
    run-IsMap (e ∷ es) s h =
        run-IsMap es (step D parse e s) (Change-IsMap _ _ (step-Change D parse e s) h)

    -- A step never gives an id to another subscription of the DWN: what an id stands for before the
    -- step it stands for after it, or the id is free then, if no two subscriptions share an id.
    pub step-get :
        (e : Event D) (s : State D) (id : JsonRpcId) (n : ℕ)
        → Dict.IsMap s.connection.subscriptions
        → Dict.get id s.connection.subscriptions ≡ some n
        → (Dict.get id (step D parse e s).connection.subscriptions ≡ some n)
          ⊎ (Dict.has id (step D parse e s).connection.subscriptions ≡ false)
    step-get e s id n h held = Change-get id n _ _ (step-Change D parse e s) h held

    -- The connection is closed, and no handler waits.
    pub record IsOver (s : State D) : Type 0 where
      pub deaf : s.connection.listening ≡ false
      pub stopped : s.connection.heartbeat ≡ false
      pub unsubscribed : s.connection.subscriptions ≡ []
      pub idle : s.jobs ≡ []

    either-IsOver :
        (b : Bool) (s s' : State D) → b ≡ false → IsOver s' → IsOver (if b then s else s')
    either-IsOver true s s' h o = absurd (cc h)
    either-IsOver false s s' h o = o

    step-IsOver : (e : Event D) (s : State D) → IsOver s → IsOver (step D parse e s)
    unfolding step finish_close
    step-IsOver (arrives uuid data_) s o = either-IsOver s.connection.listening _ s o.deaf o
    step-IsOver (returns n outcome) s o =
        subst (λ js. IsOver (after_return D s outcome (take_job D n js))) (sym o.idle) o
    step-IsOver (published id e) s o = record {
      deaf = o.deaf;
      stopped = o.stopped;
      unsubscribed = o.unsubscribed;
      idle = o.idle;
    }
    step-IsOver pongs s o = either-IsOver s.connection.listening _ s o.deaf o
    step-IsOver ticks s o = either-IsOver s.connection.heartbeat _ s o.stopped o
    step-IsOver fails s o = either-IsOver s.connection.listening _ s o.deaf o
    step-IsOver closes s o =
        rw (begin_close_lem s.connection)
          (record { deaf = refl; stopped = refl; unsubscribed = refl; idle = o.idle })
    step-IsOver closed_all s o = record {
      deaf = o.deaf;
      stopped = o.stopped;
      unsubscribed = o.unsubscribed;
      idle = o.idle;
    }

    run-IsOver : (es : List (Event D)) (s : State D) → IsOver s → IsOver (run D parse es s)
    unfolding run
    run-IsOver [] s o = o
    run-IsOver (e ∷ es) s o = run-IsOver es (step D parse e s) (step-IsOver e s o)

    -- The close of a socket for which no handler waits calls the close function of each of its
    -- subscriptions, and then, whatever happens afterwards, the connection has no subscription, no
    -- timer, no listener and no waiting handler.
    pub run_after_close :
        (es : List (Event D)) (s : State D)
        → s.jobs ≡ []
        → ((step D parse closes s).connection.out
            ≡ s.connection.out ++ closings s.connection.subscriptions)
          × IsOver (run D parse es (step D parse closes s))
    unfolding step
    run_after_close es s none_wait =
        let closed_ = begin_close_lem s.connection in
        (
          rw closed_ refl,
          run-IsOver es (step D parse closes s) (
              rw closed_
                (record { deaf = refl; stopped = refl; unsubscribed = refl; idle = none_wait })),
        )
