-- ===== src/Client/Exact.antt =====
-- The listeners of requests against their promises: what each change of the tables in
-- src/json-rpc-socket.ts keeps.
use dwn_server.Common.{
  ℕ, suc, ◌≤◌, ◌<◌, ◌≡◌, ◌∙◌, inl, inr, refl, Bool, true, false, Option, none, some, List, subst,
  arith, Bool-cases, nat_beq, nat_beq_iff, nat_eq, if◌then◌else◌,
}
use dwn_server.Common.Dict
use dwn_server.JsonRpc.{JsonRpcId, Dwn}
use dwn_server.Client.{
  Listener, handle_response, socket_event_listener, Promise, pending, is_unsettled,
}

module _ (D : Dwn) where
  abbrev pub handles : Option (Listener D) → Bool
  handles none = false
  handles (some (handle_response id)) = true
  handles (some (socket_event_listener id)) = false

  abbrev pub unsettled : ℕ → List (ℕ × Promise D) → Bool
  unsettled n ps = is_unsettled D (Dict.get n ps)

  abbrev pub listens : ℕ → List (ℕ × Listener D) → Bool
  listens n ls = handles (Dict.get n ls)

  -- The numbers from `count` on are free, and exactly the requests whose promises are pending have
  -- their listener.
  pub record IsExact (ls : List (ℕ × Listener D)) (count : ℕ) (ps : List (ℕ × Promise D))
      : Type 0 where
    pub unique : Dict.IsMap ls
    pub free_listener : (n : ℕ) → count ≤ n → Dict.has n ls ≡ false
    pub free_promise : (n : ℕ) → count ≤ n → Dict.has n ps ≡ false
    pub exact : (n : ℕ) → unsettled n ps ≡ listens n ls

  -- The number `k` is, or was, that of a subscriber's listener.
  pub record IsSpare (ls : List (ℕ × Listener D)) (count k : ℕ) : Type 0 where
    pub used : k < count
    pub silent : listens k ls ≡ false

  unsettled-free :
      (n : ℕ) (ps : List (ℕ × Promise D)) → Dict.has n ps ≡ false → unsettled n ps ≡ false
  unsettled-free n ps h = rw (Dict.get-has n ps h) refl

  pub add_request-IsExact :
      (id : JsonRpcId) (ls : List (ℕ × Listener D)) (count : ℕ) (ps : List (ℕ × Promise D))
      → IsExact ls count ps
      → IsExact (Dict.set count (handle_response id) ls) (suc count) (Dict.set count pending ps)
  add_request-IsExact id ls count ps h = record {
    unique = Dict.set-IsMap count (handle_response id) ls h.unique;
    free_listener =
        λ n le. ground (arith, Dict.has-set count n (handle_response id) ls, h.free_listener n);
    free_promise = λ n le. ground (arith, Dict.has-set count n pending ps, h.free_promise n);
    exact = λ n.
        rw (Dict.get-set count n (handle_response id) ls, Dict.get-set count n pending ps)
          (elim (Bool-cases (nat_beq count n)) [
            | inl same ↦ rw same refl
            | inr other ↦ rw other (h.exact n)
          ]);
  }

  pub add_subscriber-IsExact :
      (id : JsonRpcId) (ls : List (ℕ × Listener D)) (count : ℕ) (ps : List (ℕ × Promise D))
      → IsExact ls count ps
      → IsExact (Dict.set count (socket_event_listener id) ls) (suc count) ps
  add_subscriber-IsExact id ls count ps h = record {
    unique = Dict.set-IsMap count (socket_event_listener id) ls h.unique;
    free_listener = λ n le.
        ground (arith, Dict.has-set count n (socket_event_listener id) ls, h.free_listener n);
    free_promise = λ n le. h.free_promise n (omega arith);
    exact = λ n.
        rw (Dict.get-set count n (socket_event_listener id) ls)
          (elim (Bool-cases (nat_beq count n)) [
            | inl same ↦
                rw same
                  (unsettled-free n ps (h.free_promise n (ground (arith, nat_beq_iff count n))))
            | inr other ↦ rw other (h.exact n)
          ]);
  }

  listens-delete :
      (n k : ℕ) (ls : List (ℕ × Listener D))
      → Dict.IsMap ls
      → listens n (Dict.delete k ls) ≡ (if nat_beq k n then false else listens n ls)
  listens-delete n k ls unique = elim (Bool-cases (nat_beq k n)) [
    | inl same ↦
        let gone : Dict.get n (Dict.delete k ls) ≡ none = Dict.get-has n (Dict.delete k ls) (
          subst (λ n. Dict.has n (Dict.delete k ls) ≡ false) ((nat_beq_iff k n).0 same)
            (Dict.has-delete_self k ls unique)) in
        rw (gone, same) refl
    | inr other ↦ rw (Dict.get-delete_ne k n ls other, other) refl
  ]

  pub remove-IsExact :
      (k : ℕ) (ls : List (ℕ × Listener D)) (count : ℕ) (ps : List (ℕ × Promise D))
      → IsSpare ls count k
      → IsExact ls count ps
      → IsExact (Dict.delete k ls) count ps
  remove-IsExact k ls count ps spare h = record {
    unique = Dict.delete-IsMap k ls h.unique;
    free_listener = λ n le. Dict.has-delete_le k n ls (h.free_listener n le);
    free_promise = h.free_promise;
    exact = λ n. rw (listens-delete n k ls h.unique) (elim (Bool-cases (nat_beq k n)) [
      | inl same ↦
          rw same
            (h.exact n ∙ subst (λ n. listens n ls ≡ false) ((nat_beq_iff k n).0 same) spare.silent)
      | inr other ↦ rw other (h.exact n)
    ]);
  }

  -- The table of promises after an outcome that is not pending.
  abbrev pub settled : ℕ → Promise D → List (ℕ × Promise D) → List (ℕ × Promise D)
  settled n p ps = if unsettled n ps then Dict.set n p ps else ps

  abbrev pub IsOutcome : Promise D → Type 0
  IsOutcome p = is_unsettled D (some p) ≡ false

  unsettled-settled :
      (n k : ℕ) (p : Promise D) (ps : List (ℕ × Promise D))
      → IsOutcome p
      → unsettled n (settled k p ps) ≡ (if nat_beq k n then false else unsettled n ps)
  unsettled-settled n k p ps h = elim (Bool-cases (unsettled k ps)) [
    | inl open_ ↦
        rw (open_, Dict.get-set k n p ps)
          (elim (Bool-cases (nat_beq k n)) [ inl same ↦ rw same h | inr other ↦ rw other refl ])
    | inr over ↦ rw over (elim (Bool-cases (nat_beq k n)) [
      | inl same ↦ rw same (subst (λ n. unsettled n ps ≡ false) ((nat_beq_iff k n).0 same) over)
      | inr other ↦ rw other refl
    ])
  ]

  has-settled :
      (n k : ℕ) (p : Promise D) (ps : List (ℕ × Promise D))
      → Dict.has n ps ≡ false
      → Dict.has n (settled k p ps) ≡ false
  has-settled n k p ps h = elim (Bool-cases (unsettled k ps)) [
    | inl open_ ↦
        rw (open_, Dict.has-set k n p ps)
          (elim (Bool-cases (nat_beq k n)) [
            | inl same ↦
                let free = subst (λ k. unsettled k ps ≡ true) ((nat_beq_iff k n).0 same) open_ in
                let none_ = unsettled-free n ps h in absurd (cc)
            | inr other ↦ rw (other, h) refl
          ])
    | inr over ↦ rw over h
  ]

  pub settle-IsExact :
      (k : ℕ) (p : Promise D) (ls : List (ℕ × Listener D)) (count : ℕ) (ps : List (ℕ × Promise D))
      → IsOutcome p
      → IsExact ls count ps
      → IsExact (Dict.delete k ls) count (settled k p ps)
  settle-IsExact k p ls count ps outcome h = record {
    unique = Dict.delete-IsMap k ls h.unique;
    free_listener = λ n le. Dict.has-delete_le k n ls (h.free_listener n le);
    free_promise = λ n le. has-settled n k p ps (h.free_promise n le);
    exact = λ n.
        rw (listens-delete n k ls h.unique, unsettled-settled n k p ps outcome, h.exact n) refl;
  }

  -- Spare numbers stay spare.
  pub add-IsSpare :
      (l : Listener D) (k count : ℕ) (ls : List (ℕ × Listener D))
      → IsSpare ls count k
      → IsSpare (Dict.set count l ls) (suc count) k
  add-IsSpare l k count ls h = record {
    used = (let u = h.used in omega arith);
    silent = rw (Dict.get-set count k l ls) (elim (Bool-cases (nat_beq count k)) [
      | inl same ↦ absurd (let u = h.used in let e = (nat_beq_iff count k).0 same in omega arith)
      | inr other ↦ rw other h.silent
    ]);
  }

  pub delete-IsSpare :
      (n k count : ℕ) (ls : List (ℕ × Listener D))
      → Dict.IsMap ls
      → IsSpare ls count k
      → IsSpare (Dict.delete n ls) count k
  delete-IsSpare n k count ls unique h = record {
    used = h.used;
    silent =
        rw (listens-delete k n ls unique, h.silent)
          (elim (Bool-cases (nat_beq n k)) [ inl same ↦ rw same refl | inr other ↦ rw other refl ]);
  }

  pub new-IsSpare :
      (id : JsonRpcId) (count : ℕ) (ls : List (ℕ × Listener D))
      → IsSpare (Dict.set count (socket_event_listener id) ls) (suc count) count
  new-IsSpare id count ls = record {
    used = omega arith;
    silent =
        rw
          (Dict.get-set count count (socket_event_listener id) ls, (nat_beq_iff count count).1 refl)
          refl;
  }
