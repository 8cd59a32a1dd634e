-- ===== src/PowManager/Run/Replay.antt =====
-- A response nonce is not accepted twice within a minute.
use Prim.Native.String.{String}
use dwn_server.Common.{
  ℕ, ◌+◌, ◌≤◌, ◌≡◌, refl, sym, subst, ap, ◌∙◌, false, Option, none, some, List, [], ◌∷◌, arith, leb,
  inl, inr, string_eq, filter, All,
}
use dwn_server.Common.Dict
use dwn_server.Double.{Double}
use dwn_server.Errors.{ok, Result-cases, proof_of_work_manager_response_nonce_reused}
use dwn_server.ProofOfWork.{HashInput}
use dwn_server.PowManager.{
  Manager, record_proof_of_work, verify_proof_of_work, refresh_challenge_nonce,
  remove_proof_of_work_older_than_one_minute, current_solve_count_per_minute,
}
use dwn_server.PowManager.Verify.{thrown, verify_proof_of_work-ok}
use dwn_server.PowManager.Cleanup.{remove_proof_of_work_older_than_one_minute-filter}
use dwn_server.PowManager.Difficulty.{
  harder, increment_per_evaluation, easier, adjust, outcome, refresh_maximum_allowed_hash_value,
}
use dwn_server.PowManager.Run.{Event, submit, nonce_timer, difficulty_timer, settle, step, run}
use text.Mathlib.TextEquality.{eq_iff}

refresh_challenge_nonce-proofs :
    {Num : Type 0} (sha256 : String → String) (now : ℕ) (random : List ℕ) (m : Manager Num)
    → (refresh_challenge_nonce sha256 now random m).proof_of_work_of_last_minute
      ≡ m.proof_of_work_of_last_minute
unfolding refresh_challenge_nonce
refresh_challenge_nonce-proofs sha256 now random m = ground arith

module _ (d : Double) where
  open d use {Num}

  harder-proofs :
      (latest : ℕ) (m m' : Manager Num)
      → harder d latest m ≡ some m'
      → m'.proof_of_work_of_last_minute ≡ m.proof_of_work_of_last_minute
  unfolding harder
  harder-proofs latest m m' h = ground arith

  easier-proofs :
      (m m' : Manager Num)
      → easier d m ≡ some m'
      → m'.proof_of_work_of_last_minute ≡ m.proof_of_work_of_last_minute
  unfolding easier increment_per_evaluation
  easier-proofs m m' h = ground arith

  adjust-proofs :
      (latest : ℕ) (m m' : Manager Num)
      → adjust d latest m ≡ some m'
      → m'.proof_of_work_of_last_minute ≡ m.proof_of_work_of_last_minute
  unfolding adjust
  adjust-proofs latest m m' h = ground (arith, harder-proofs latest m m', easier-proofs m m')

  outcome-proofs :
      (m : Manager Num) (r : Option (Manager Num))
      → ((m' : Manager Num)
          → r ≡ some m'
          → m'.proof_of_work_of_last_minute ≡ m.proof_of_work_of_last_minute)
      → (outcome d m r).0.proof_of_work_of_last_minute ≡ m.proof_of_work_of_last_minute
  outcome-proofs m none h = refl
  outcome-proofs m (some m') h = h m' refl

  pub refresh-proofs :
      (now : ℕ) (m : Manager Num)
      → Dict.IsMap m.proof_of_work_of_last_minute
      → (refresh_maximum_allowed_hash_value d now m).0.proof_of_work_of_last_minute
        ≡ filter (λ e. leb now (e.1 + 60000)) m.proof_of_work_of_last_minute
  unfolding refresh_maximum_allowed_hash_value
  refresh-proofs now m h =
      let cleaned = remove_proof_of_work_older_than_one_minute now m in
      let latest = current_solve_count_per_minute cleaned in
      outcome-proofs cleaned (adjust d latest cleaned) (adjust-proofs latest cleaned)
      ∙ ap (λ (x : Manager Num). x.proof_of_work_of_last_minute)
          (remove_proof_of_work_older_than_one_minute-filter now m h)

  module _ (sha256 : String → String) where
    -- The map of recent proofs is a map, and holds the nonce with its time.
    abbrev Recorded : String → ℕ → Manager Num → Type 0
    Recorded nonce time m =
        Dict.IsMap m.proof_of_work_of_last_minute
        × (Dict.get nonce m.proof_of_work_of_last_minute ≡ some time)

    record-Recorded :
        (nonce : String) (time now : ℕ) (id : String) (m : Manager Num)
        → Dict.has id m.proof_of_work_of_last_minute ≡ false
        → Recorded nonce time m
        → Recorded nonce time (record_proof_of_work now id m)
    unfolding record_proof_of_work
    record-Recorded nonce time now id m fresh r =
        let proofs = m.proof_of_work_of_last_minute in
        (
          Dict.set-IsMap id now proofs r.0,
          ground (
            arith,
            r.1,
            Dict.get-set id nonce now proofs,
            Dict.get-has id proofs fresh,
            eq_iff id nonce,
          ),
        )

    refresh-Recorded :
        (nonce : String) (time now : ℕ) (m : Manager Num)
        → now ≤ time + 60000
        → Recorded nonce time m
        → Recorded nonce time (refresh_maximum_allowed_hash_value d now m).0
    refresh-Recorded nonce time now m t r =
        let proofs = m.proof_of_work_of_last_minute in
        let recent = λ (e : String × ℕ). leb now (e.1 + 60000) in
        rw (refresh-proofs now m r.0) (
          Dict.filter-IsMap recent proofs r.0,
          Dict.get-filter recent nonce time proofs r.1 (ground arith),
        )

    step-Recorded :
        (nonce : String) (time now : ℕ) (e : Event) (m : Manager Num)
        → now ≤ time + 60000
        → Recorded nonce time m
        → Recorded nonce time (step d sha256 now e m)
    unfolding step
    step-Recorded nonce time now (submit p) m t r =
        elim (Result-cases (verify_proof_of_work sha256 now p m)) [
          | inl (m', e) ↦
              let (accepted, same) = verify_proof_of_work-ok sha256 now p m e in
              subst (λ r. Recorded nonce time (settle m r)) (sym (e ∙ ap ok same))
                (record-Recorded nonce time now p.response_nonce m accepted.fresh r)
          | inr (err, e) ↦ subst (λ r. Recorded nonce time (settle m r)) (sym e) r
        ]
    step-Recorded nonce time now (nonce_timer random) m t r =
        rw (refresh_challenge_nonce-proofs sha256 now random m) r
    step-Recorded nonce time now difficulty_timer m t r = refresh-Recorded nonce time now m t r

    run-Recorded :
        (nonce : String) (time : ℕ) (es : List (ℕ × Event)) (m : Manager Num)
        → All (λ e. e.0 ≤ time + 60000) es
        → Recorded nonce time m
        → Recorded nonce time (run d sha256 es m)
    unfolding run
    run-Recorded nonce time [] m t r = r
    run-Recorded nonce time ((now, e) ∷ es) m t r =
        run-Recorded nonce time es (step d sha256 now e m) t.1
          (step-Recorded nonce time now e m t.0 r)

    -- Once a proof of work is accepted, every later submission with the same response nonce is
    -- refused as reused, whatever was submitted and whichever timers ran in between, as long as
    -- all that happened within a minute of the acceptance.
    pub run-refuses_replay :
        (now : ℕ) (p q : HashInput) (m m' : Manager Num) (es : List (ℕ × Event)) (later : ℕ)
        → Dict.IsMap m.proof_of_work_of_last_minute
        → verify_proof_of_work sha256 now p m ≡ ok m'
        → All (λ e. e.0 ≤ now + 60000) es
        → q.response_nonce ≡ p.response_nonce
        → thrown (verify_proof_of_work sha256 later q (run d sha256 es m'))
          ≡ some proof_of_work_manager_response_nonce_reused
    unfolding verify_proof_of_work
    run-refuses_replay now p q m m' es later v ok' t same =
        let (accepted, new) = verify_proof_of_work-ok sha256 now p m ok' in
        let proofs = m.proof_of_work_of_last_minute in
        let start : Recorded p.response_nonce now m' =
          subst (Recorded p.response_nonce now) (sym new) (
            Dict.set-IsMap p.response_nonce now proofs v,
            ground (
              arith,
              Dict.get-set p.response_nonce p.response_nonce now proofs,
              eq_iff p.response_nonce p.response_nonce,
            ),
          ) in
        let kept = run-Recorded p.response_nonce now es m' t start in
        let used =
          Dict.get-some-has p.response_nonce now (run d sha256 es m').proof_of_work_of_last_minute
            kept.1 in
        rw (same, used)
