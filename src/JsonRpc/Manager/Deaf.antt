-- ===== src/JsonRpc/Manager/Deaf.antt =====
-- A connection that hears nothing more stays so.
use Prim.Native.String.{String}
use dwn_server.Common.{
  ℕ, ◌≡◌, inl, inr, refl, Bool, true, false, Bool-cases, Option, none, some, List, if◌then◌else◌,
  nat_eq,
}
use dwn_server.Common.Dict
use dwn_server.Errors.{Result, ok, throw}
use dwn_server.JsonRpc.{JsonRpcId, id_eq, Dwn, JsonRpcRequest}
use dwn_server.JsonRpc.Connection.{
  SocketConnection, add_subscription, finish_close, finish_close_subscription,
}
use dwn_server.JsonRpc.Connection.Laws.{begin_close_lem}
use dwn_server.JsonRpc.Handlers.{
  Call, Reply, after_reply, finish_process_message, finish_subscriptions_close,
}
use dwn_server.JsonRpc.Socket.{
  Job, processing, closing, Outcome, replied, returned, finish, State, Event as SocketEvent,
  arrives, returns, published, pongs, ticks, fails, closes, closed_all, step as socket_step,
  after_return, take_job,
}

module _ (D : Dwn) where
  -- The connection has neither listeners nor a timer.
  pub record IsDeaf (c : SocketConnection D) : Type 0 where
    pub deaf : c.listening ≡ false
    pub stopped : c.heartbeat ≡ false

  after_reply-IsDeaf :
      (call : Call D) (reply : Reply D) (id : Option JsonRpcId) (n : Option ℕ)
      (c : SocketConnection D)
      → IsDeaf c
      → IsDeaf (after_reply D call reply id n c).0
  unfolding add_subscription
  after_reply-IsDeaf call reply none n c h = h
  after_reply-IsDeaf call reply (some id) none c h = h
  after_reply-IsDeaf call reply (some id) (some n) c h =
      elim (Bool-cases (Dict.has id c.subscriptions)) [
        | inl present ↦ rw (present, add_subscription) h
        | inr new ↦ rw (new, add_subscription) (record { deaf = h.deaf; stopped = h.stopped })
      ]

  finish-IsDeaf :
      (job : Job D) (outcome : Outcome D) (c : SocketConnection D)
      → IsDeaf c
      → IsDeaf (finish D job outcome c)
  unfolding finish finish_process_message finish_subscriptions_close finish_close_subscription
  finish-IsDeaf (processing call) (replied (throw e)) c h = record {
    deaf = h.deaf;
    stopped = h.stopped;
  }
  finish-IsDeaf (processing call) (replied (ok reply)) c h =
      let k = after_reply-IsDeaf call reply call.subscription_request reply.subscription c h in
      record { deaf = k.deaf; stopped = k.stopped }
  finish-IsDeaf (processing call) (returned outcome) c h = h
  finish-IsDeaf (closing request_id id) (returned (ok done)) c h = record {
    deaf = h.deaf;
    stopped = h.stopped;
  }
  finish-IsDeaf (closing request_id id) (returned (throw e)) c h = record {
    deaf = h.deaf;
    stopped = h.stopped;
  }
  finish-IsDeaf (closing request_id id) (replied outcome) c h = h

  after_return-IsDeaf :
      (outcome : Outcome D) (taken : Option (Job D × List (Job D))) (s : State D)
      → IsDeaf s.connection
      → IsDeaf (after_return D s outcome taken).connection
  after_return-IsDeaf outcome none s h = h
  after_return-IsDeaf outcome (some (job, rest)) s h = finish-IsDeaf job outcome s.connection h

  either-IsDeaf :
      (b : Bool) (s s' : State D)
      → b ≡ false
      → IsDeaf s'.connection
      → IsDeaf (if b then s else s').connection
  either-IsDeaf true s s' h o = absurd (cc h)
  either-IsDeaf false s s' h o = o

  module _ (parse : String → Result (JsonRpcRequest D)) where
    pub closes-IsDeaf : (s : State D) → IsDeaf (socket_step D parse closes s).connection
    unfolding socket_step
    closes-IsDeaf s = rw (begin_close_lem s.connection) (record { deaf = refl; stopped = refl })

    pub socket_step-IsDeaf :
        (e : SocketEvent D) (s : State D)
        → IsDeaf s.connection
        → IsDeaf (socket_step D parse e s).connection
    unfolding socket_step finish_close
    socket_step-IsDeaf (arrives uuid data_) s o = either-IsDeaf s.connection.listening _ s o.deaf o
    socket_step-IsDeaf (returns n outcome) s o =
        after_return-IsDeaf outcome (take_job D n s.jobs) s o
    socket_step-IsDeaf (published id e) s o = record { deaf = o.deaf; stopped = o.stopped }
    socket_step-IsDeaf pongs s o = either-IsDeaf s.connection.listening _ s o.deaf o
    socket_step-IsDeaf ticks s o = either-IsDeaf s.connection.heartbeat _ s o.stopped o
    socket_step-IsDeaf fails s o = either-IsDeaf s.connection.listening _ s o.deaf o
    socket_step-IsDeaf closes s o =
        rw (begin_close_lem s.connection) (record { deaf = refl; stopped = refl })
    socket_step-IsDeaf closed_all s o = record { deaf = o.deaf; stopped = o.stopped }
