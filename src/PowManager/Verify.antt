-- ===== src/PowManager/Verify.antt =====
-- When a proof of work is accepted, and what each refusal says.
use Prim.Native.String.{String}
use dwn_server.Common.{
  ℕ, ◌≡◌, refl, sym, ap, ◌∙◌, ◌↔◌, ◌≢◌, ◌⊎◌, inl, inr, true, false, Option, none, some, [], ◌∷◌,
  arith, nat_beq, Bool-cases, Option-cases, string_eq, length, filter,
}
use dwn_server.Common.Int.{ℤ, pos, ◌≤ℤ◌}
use dwn_server.Common.Text.{codes, big_int_of_hex}
use dwn_server.Common.Dict
use dwn_server.Errors.{
  Result, ok, throw, ◌>>◌, DwnServerErrorCode, proof_of_work_manager_response_nonce_reused,
  proof_of_work_insufficient_solution_nonce, proof_of_work_manager_invalid_response_nonce_format,
  proof_of_work_manager_invalid_challenge_nonce,
}
use dwn_server.ProofOfWork.{HashInput, compute_hash, parse_big_int, verify_response_nonce}
use dwn_server.PowManager.{
  ChallengeNonces, Manager, includes, is_usable, is_hex_string, is_acceptable, record_proof_of_work,
  verify_proof_of_work,
}
use text.Mathlib.TextEquality.{eq_iff}

-- The challenge is one of the three at hand, and not empty.
abbrev pub IsKnown : ChallengeNonces → String → Type 0
IsKnown n c =
    (c ≢ "")
    × ((n.previous_challenge_nonce ≡ some c)
        ⊎ ((n.current_challenge_nonce ≡ c) ⊎ (n.next_challenge_nonce ≡ some c)))

known_iff :
    (p : Option String) (q : String) (r : Option String) (c : String)
    → (includes c (filter is_usable (p ∷ some q ∷ r ∷ [])) ≡ true)
      ↔ ((c ≢ "") × ((p ≡ some c) ⊎ ((q ≡ c) ⊎ (r ≡ some c))))
known_iff none q none c = ground (arith, eq_iff q "", eq_iff q c, eq_iff c "")
known_iff none q (some r) c =
    ground (arith, eq_iff q "", eq_iff q c, eq_iff c "", eq_iff r "", eq_iff r c)
known_iff (some p) q none c =
    ground (arith, eq_iff q "", eq_iff q c, eq_iff c "", eq_iff p "", eq_iff p c)
known_iff (some p) q (some r) c =
    ground (
      arith,
      eq_iff q "",
      eq_iff q c,
      eq_iff c "",
      eq_iff p "",
      eq_iff p c,
      eq_iff r "",
      eq_iff r c,
    )

pub is_acceptable-IsKnown :
    (n : ChallengeNonces) (c : String) → (is_acceptable n c ≡ true) ↔ IsKnown n c
unfolding is_acceptable
is_acceptable-IsKnown n c =
    known_iff n.previous_challenge_nonce n.current_challenge_nonce n.next_challenge_nonce c

-- `error.code` of what a call throws.
abbrev pub thrown {ℓ} : {A : Type ℓ} → Result A → Option DwnServerErrorCode
thrown (ok a) = none
thrown (throw e) = e.code

pub thrown_then {ℓ} : {A : Type ℓ} (r : Result (Unit {0})) (a : A) → thrown (r >> ok a) ≡ thrown r
thrown_then (ok _) a = refl
thrown_then (throw e) a = refl

module _ (sha256 : String → String) where
  -- The digest is a number, and it is at most the maximum.
  abbrev pub IsSolved : ℤ → HashInput → Type 0
  IsSolved maximum p =
      (h : ℕ) × (big_int_of_hex (compute_hash sha256 p) ≡ some h) × (pos h ≤ℤ maximum)

  pub verify_response_nonce-IsSolved :
      (maximum : ℤ) (p : HashInput)
      → (verify_response_nonce sha256 maximum p ≡ ok tt) ↔ IsSolved maximum p
  unfolding verify_response_nonce parse_big_int
  verify_response_nonce-IsSolved maximum p =
      elim (Option-cases (big_int_of_hex (compute_hash sha256 p))) [
        | inl wrong ↦ (λ h. ground arith, λ h. ground arith)
        | inr (h, parsed) ↦
            rw (parsed, verify_response_nonce, parse_big_int)
              (λ e. (h, refl, ground arith), λ e. ground arith)
      ]

  verify_response_nonce-unsolved :
      (maximum : ℤ) (p : HashInput) (c : DwnServerErrorCode)
      → thrown (verify_response_nonce sha256 maximum p) ≡ some c
      → (h : ℕ) × (big_int_of_hex (compute_hash sha256 p) ≡ some h)
        × (¬ (pos h ≤ℤ maximum))
        × (c ≡ proof_of_work_insufficient_solution_nonce)
  unfolding verify_response_nonce parse_big_int
  verify_response_nonce-unsolved maximum p c e =
      elim (Option-cases (big_int_of_hex (compute_hash sha256 p))) [
        | inl wrong ↦ absurd (ground arith)
        | inr (h, parsed) ↦ (h, parsed, ground arith, ground arith)
      ]

  unsolved-thrown :
      (maximum : ℤ) (p : HashInput) (h : ℕ)
      → big_int_of_hex (compute_hash sha256 p) ≡ some h
      → ¬ (pos h ≤ℤ maximum)
      → thrown (verify_response_nonce sha256 maximum p)
        ≡ some proof_of_work_insufficient_solution_nonce
  unfolding verify_response_nonce parse_big_int
  unsolved-thrown maximum p h parsed high = ground arith

  module _ {Num : Type 0} where
    -- What `verifyProofOfWork` asks for.
    pub record IsAccepted (m : Manager Num) (p : HashInput) : Type 0 where
      pub fresh : Dict.has p.response_nonce m.proof_of_work_of_last_minute ≡ false
      pub hex : is_hex_string p.response_nonce ≡ true
      pub size : length (codes p.response_nonce) ≡ 64
      pub known : IsKnown m.challenge_nonces p.challenge_nonce
      pub solved : IsSolved m.current_maximum_allowed_hash_value p

    pub verify_proof_of_work-ok :
        (now : ℕ) (p : HashInput) (m : Manager Num) {m' : Manager Num}
        → verify_proof_of_work sha256 now p m ≡ ok m'
        → IsAccepted m p × (m' ≡ record_proof_of_work now p.response_nonce m)
    unfolding verify_proof_of_work
    verify_proof_of_work-ok now p m h = ground (
      arith,
      is_acceptable-IsKnown m.challenge_nonces p.challenge_nonce,
      verify_response_nonce-IsSolved m.current_maximum_allowed_hash_value p,
    )

    pub verify_proof_of_work-IsAccepted :
        (now : ℕ) (p : HashInput) (m : Manager Num)
        → IsAccepted m p
        → verify_proof_of_work sha256 now p m ≡ ok (record_proof_of_work now p.response_nonce m)
    unfolding verify_proof_of_work
    verify_proof_of_work-IsAccepted now p m h = ground (
      arith,
      (is_acceptable-IsKnown m.challenge_nonces p.challenge_nonce).1 h.known,
      (verify_response_nonce-IsSolved m.current_maximum_allowed_hash_value p).1 h.solved,
    )

    -- Which error is thrown: the first test that fails decides.
    pub data Refuses (m : Manager Num) (p : HashInput) (c : DwnServerErrorCode) : Type 0 where
      reused :
          Dict.has p.response_nonce m.proof_of_work_of_last_minute ≡ true
          → c ≡ proof_of_work_manager_response_nonce_reused
          → Refuses m p c
      malformed :
          Dict.has p.response_nonce m.proof_of_work_of_last_minute ≡ false
          → (is_hex_string p.response_nonce ≡ false) ⊎ (length (codes p.response_nonce) ≢ 64)
          → c ≡ proof_of_work_manager_invalid_response_nonce_format
          → Refuses m p c
      unknown :
          Dict.has p.response_nonce m.proof_of_work_of_last_minute ≡ false
          → is_hex_string p.response_nonce ≡ true
          → length (codes p.response_nonce) ≡ 64
          → ¬ IsKnown m.challenge_nonces p.challenge_nonce
          → c ≡ proof_of_work_manager_invalid_challenge_nonce
          → Refuses m p c
      unsolved :
          Dict.has p.response_nonce m.proof_of_work_of_last_minute ≡ false
          → is_hex_string p.response_nonce ≡ true
          → length (codes p.response_nonce) ≡ 64
          → IsKnown m.challenge_nonces p.challenge_nonce
          → (h : ℕ) → big_int_of_hex (compute_hash sha256 p) ≡ some h
          → ¬ (pos h ≤ℤ m.current_maximum_allowed_hash_value)
          → c ≡ proof_of_work_insufficient_solution_nonce
          → Refuses m p c

    module _ (now : ℕ) (p : HashInput) (m : Manager Num) (c : DwnServerErrorCode) where
      refused-Refuses : thrown (verify_proof_of_work sha256 now p m) ≡ some c → Refuses m p c
      unfolding verify_proof_of_work
      refused-Refuses h =
          elim (Bool-cases (Dict.has p.response_nonce m.proof_of_work_of_last_minute)) [
            | inl used ↦ reused used (ground arith)
            | inr fresh ↦ elim (Bool-cases (is_hex_string p.response_nonce)) [
              | inr other ↦ malformed fresh (inl other) (ground arith)
              | inl hex ↦ elim (Bool-cases (nat_beq (length (codes p.response_nonce)) 64)) [
                | inr other ↦ malformed fresh (inr (ground arith)) (ground arith)
                | inl size ↦
                    elim (Bool-cases (is_acceptable m.challenge_nonces p.challenge_nonce)) [
                      | inr other ↦
                          unknown fresh hex (ground arith)
                            (λ k. cc (
                              other,
                              (is_acceptable-IsKnown m.challenge_nonces p.challenge_nonce).1 k,
                            ))
                            (ground arith)
                      | inl known ↦
                          let (n, parsed, high, e) =
                            verify_response_nonce-unsolved m.current_maximum_allowed_hash_value p c
                              (ground (
                                arith,
                                thrown_then
                                    (verify_response_nonce sha256
                                      m.current_maximum_allowed_hash_value p)
                                    (record_proof_of_work now p.response_nonce m),
                              )) in
                          unsolved fresh hex (ground arith)
                            ((is_acceptable-IsKnown m.challenge_nonces p.challenge_nonce).0 known) n
                            parsed high e
                    ]
              ]
            ]
          ]

      Refuses-refused : Refuses m p c → thrown (verify_proof_of_work sha256 now p m) ≡ some c
      unfolding verify_proof_of_work
      Refuses-refused (reused used e) = ground arith
      Refuses-refused (malformed fresh (inl other) e) = ground arith
      Refuses-refused (malformed fresh (inr other) e) = ground arith
      Refuses-refused (unknown fresh hex size other e) =
          ground (arith, is_acceptable-IsKnown m.challenge_nonces p.challenge_nonce)
      Refuses-refused (unsolved fresh hex size known h parsed high e) = ground (
        arith,
        (is_acceptable-IsKnown m.challenge_nonces p.challenge_nonce).1 known,
        thrown_then (verify_response_nonce sha256 m.current_maximum_allowed_hash_value p)
            (record_proof_of_work now p.response_nonce m),
        unsolved-thrown m.current_maximum_allowed_hash_value p h parsed high,
      )

    -- `verifyProofOfWork` accepts exactly the proofs with a fresh response nonce of 64 hexadecimal
    -- digits, a challenge nonce that is known, and a hash of at most the current maximum; it then
    -- records the response nonce at the present time and changes nothing else.
    pub verify_proof_of_work_iff :
        (now : ℕ) (p : HashInput) (m m' : Manager Num)
        → (verify_proof_of_work sha256 now p m ≡ ok m')
          ↔ (IsAccepted m p × (m' ≡ record_proof_of_work now p.response_nonce m))
    verify_proof_of_work_iff now p m m' = (
      verify_proof_of_work-ok now p m,
      λ a. verify_proof_of_work-IsAccepted now p m a.0 ∙ ap ok (sym a.1),
    )

    -- `verifyProofOfWork` throws an error with a code exactly when a test fails, and the code is
    -- that of the first test that fails: a reused response nonce, a malformed one, an unknown
    -- challenge nonce, a hash above the maximum.
    pub verify_proof_of_work_refusal :
        (now : ℕ) (p : HashInput) (m : Manager Num) (c : DwnServerErrorCode)
        → (thrown (verify_proof_of_work sha256 now p m) ≡ some c) ↔ Refuses m p c
    verify_proof_of_work_refusal now p m c = (refused-Refuses now p m c, Refuses-refused now p m c)
