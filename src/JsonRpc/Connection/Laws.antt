-- ===== src/JsonRpc/Connection/Laws.antt =====
-- What the close, the heartbeat and the subscriptions of one connection do.
use dwn_server.Common.{ℕ, ◌≡◌, refl, ap, ◌∙◌, true, false, List, [], ◌∷◌, ◌++◌, map, arith}
use dwn_server.Common.Dict
use dwn_server.Errors.{ok}
use dwn_server.JsonRpc.{JsonRpcId, id_eq, Dwn}
use dwn_server.JsonRpc.Connection.{
  Output, closed, SocketConnection, emit, has_subscription, add_subscription,
  begin_close_subscription, finish_close_subscription, close_all, begin_close, pong, heartbeat_tick,
}

++-assoc : {A : Type 0} (xs ys zs : List A) → (xs ++ ys) ++ zs ≡ xs ++ (ys ++ zs)
++-assoc [] ys zs = refl
++-assoc (x ∷ xs) ys zs = ap (λ l. x ∷ l) (++-assoc xs ys zs)

++-nil : {A : Type 0} (xs : List A) → xs ++ [] ≡ xs
++-nil [] = refl
++-nil (x ∷ xs) = ap (λ l. x ∷ l) (++-nil xs)

module _ {D : Dwn} where
  -- The calls of the close functions of the given entries.
  abbrev pub closings : List (JsonRpcId × ℕ) → List (Output D)
  closings = map (λ e. closed e.1)

  close_all-empty :
      (m : List (JsonRpcId × ℕ)) (c : SocketConnection D)
      → c.subscriptions ≡ m
      → close_all m c ≡ record c { subscriptions = []; out = c.out ++ closings m }
  unfolding close_all
  close_all-empty [] c h = ground (arith, h, ++-nil c.out)
  close_all-empty ((id, n) ∷ m) c h =
      let c' : SocketConnection D = record c {
        subscriptions = Dict.delete id c.subscriptions;
        out = c.out ++ closed n ∷ [];
      } in
      close_all-empty m c' (rw h (Dict.delete-cons id n m))
      ∙ ap (λ o. record c { subscriptions = []; out = o })
          (++-assoc c.out (closed n ∷ []) (closings m))

  -- The close of a connection calls the close function of each of its subscriptions once, in the
  -- order of the map, and keeps no reference to any; it stops the timer and the listeners.
  pub begin_close_lem :
      (c : SocketConnection D)
      → begin_close c ≡ record c {
        subscriptions = [];
        heartbeat = false;
        listening = false;
        out = c.out ++ closings c.subscriptions;
      }
  unfolding begin_close
  begin_close_lem c = close_all-empty c.subscriptions _ refl

  -- A connection whose last ping was answered outlives the next tick of the timer. If a pong arrives
  -- before the tick after that, the connection keeps its subscriptions, its timer and its listeners
  -- once more; if none arrives, that tick closes it.
  pub heartbeat_tick_lem :
      (c : SocketConnection D)
      → c.is_alive ≡ true
      → let once = heartbeat_tick c in
        (heartbeat_tick (pong once)
          ≡ record c { is_alive = false; out = (heartbeat_tick (pong once)).out })
        × ((heartbeat_tick once).subscriptions ≡ [])
        × ((heartbeat_tick once).heartbeat ≡ false)
        × ((heartbeat_tick once).listening ≡ false)
  unfolding heartbeat_tick
  heartbeat_tick_lem c alive = ground (arith, alive, begin_close_lem (heartbeat_tick c))

  -- A subscription that is added under a new id can be closed: its close function is called, and
  -- the connection has the subscriptions from before again. Under an id in use nothing is added.
  pub add_subscription_close :
      (id : JsonRpcId) (n : ℕ) (c : SocketConnection D)
      → has_subscription id c ≡ false
      → (c' : SocketConnection D) × (add_subscription id n c ≡ ok c')
        × (begin_close_subscription id c' ≡ ok (emit (closed n) c'))
        × ((finish_close_subscription id (emit (closed n) c')).subscriptions ≡ c.subscriptions)
  unfolding add_subscription begin_close_subscription finish_close_subscription
  add_subscription_close id n c new =
      let m = Dict.set id n c.subscriptions in
      (
        record c { subscriptions = m },
        ground (arith, new),
        ground (arith, Dict.get-set id id n c.subscriptions, id_eq.beq_iff id id),
        Dict.delete-set id n c.subscriptions new,
      )
