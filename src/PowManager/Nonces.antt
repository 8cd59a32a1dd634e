-- ===== src/PowManager/Nonces.antt =====
-- The challenge nonces over time.
use Prim.Native.String.{String}
use dwn_server.Common.{
  ℕ, ◌+◌, ◌*◌, ◌/◌, ◌≤◌, ◌<◌, ◌≡◌, ◌≢◌, ap, subst, dec_lt, true, none, some, List, [], ◌∷◌, arith,
  inl, inr,
}
use dwn_server.Common.Int.{ℤ, pos, negsuc, ◌+ℤ◌}
use dwn_server.ProofOfWork.{generate_nonce, hash_as_hex_string}
use dwn_server.PowManager.{
  ChallengeNonces, Manager, interval_text, seeded_nonce, is_acceptable, refresh_challenge_nonce,
}
use dwn_server.PowManager.Verify.{is_acceptable-IsKnown}

-- The number of the interval at the given time.
abbrev pub interval : ℕ → ℕ → ℕ
interval frequency now = now / (frequency * 1000)

interval_text-later :
    (frequency now later : ℕ)
    → 0 < frequency
    → interval frequency later ≡ interval frequency now + 1
    → interval_text frequency later (negsuc 0) ≡ interval_text frequency now (pos 0)
unfolding interval_text ◌+ℤ◌
interval_text-later frequency now later h e = ground arith

interval_text-same :
    (frequency now later : ℕ) (o : ℤ)
    → 0 < frequency
    → interval frequency later ≡ interval frequency now
    → interval_text frequency later o ≡ interval_text frequency now o
unfolding interval_text
interval_text-same frequency now later o h e = ground arith

interval_text-earlier :
    (frequency now later : ℕ)
    → 0 < frequency
    → interval frequency now ≡ interval frequency later + 1
    → interval_text frequency later (pos 1) ≡ interval_text frequency now (pos 0)
unfolding interval_text ◌+ℤ◌
interval_text-earlier frequency now later h e = ground arith

-- The three nonces of the interval at the given time.
abbrev seeded_nonces : (String → String) → String → ℕ → ℕ → ChallengeNonces
seeded_nonces sha256 seed frequency now = record {
  previous_challenge_nonce = some (seeded_nonce sha256 seed frequency now (negsuc 0));
  current_challenge_nonce = seeded_nonce sha256 seed frequency now (pos 0);
  next_challenge_nonce = some (seeded_nonce sha256 seed frequency now (pos 1));
}

module _ {Num : Type 0} (sha256 : String → String) where
  refresh_challenge_nonce-seeded :
      (m : Manager Num) (seed : String) (now : ℕ) (random : List ℕ)
      → m.challenge_seed ≡ some seed
      → (refresh_challenge_nonce sha256 now random m).challenge_nonces
        ≡ seeded_nonces sha256 seed m.challenge_refresh_frequency_in_seconds now
  unfolding refresh_challenge_nonce
  refresh_challenge_nonce-seeded m seed now random h = rw (h, refresh_challenge_nonce)

  -- Two servers with the same seed and frequency, whose clocks are at most one interval apart: the
  -- challenge that one gives out is accepted by the other, if it is not empty.
  pub refresh_challenge_nonce-IsKnown :
      (m n : Manager Num) (seed : String) (now later : ℕ) (random random' : List ℕ)
      → m.challenge_seed ≡ some seed
      → n.challenge_seed ≡ some seed
      → n.challenge_refresh_frequency_in_seconds ≡ m.challenge_refresh_frequency_in_seconds
      → 0 < m.challenge_refresh_frequency_in_seconds
      → interval m.challenge_refresh_frequency_in_seconds later
        ≤ interval m.challenge_refresh_frequency_in_seconds now + 1
      → interval m.challenge_refresh_frequency_in_seconds now
        ≤ interval m.challenge_refresh_frequency_in_seconds later + 1
      → (refresh_challenge_nonce sha256 now random m).challenge_nonces.current_challenge_nonce ≢ ""
      → is_acceptable
          (refresh_challenge_nonce sha256 later random' n).challenge_nonces
          (refresh_challenge_nonce sha256 now random m).challenge_nonces.current_challenge_nonce
        ≡ true
  refresh_challenge_nonce-IsKnown m n seed now later random random' hm hn same some_freq after
        before full =
      let f = m.challenge_refresh_frequency_in_seconds in
      let mine = refresh_challenge_nonce-seeded m seed now random hm in
      let theirs = refresh_challenge_nonce-seeded n seed later random' hn in
      let nonce = λ (t : String). hash_as_hex_string sha256 (seed ∷ t ∷ seed ∷ []) in
      let full' : seeded_nonce sha256 seed f now (pos 0) ≢ "" =
        subst (λ (x : ChallengeNonces). x.current_challenge_nonce ≢ "") mine full in
      rw (theirs, mine, same)
        ((is_acceptable-IsKnown (seeded_nonces sha256 seed f later)
            (seeded_nonce sha256 seed f now (pos 0))).1
          (
            full',
            elim (dec_lt (interval f now) (interval f later)) [
              | yes h ↦ inl (
                  ap (λ t. some (nonce t))
                    (interval_text-later f now later some_freq (omega arith)))
              | no h ↦ inr (elim (dec_lt (interval f later) (interval f now)) [
                | yes k ↦ inr (
                    ap (λ t. some (nonce t))
                      (interval_text-earlier f now later some_freq (omega arith)))
                | no k ↦
                    inl (ap nonce (interval_text-same f now later (pos 0) some_freq (omega arith)))
              ])
            ],
          ))

  -- Without a seed the last challenge stays acceptable for one refresh, and the new one becomes so,
  -- if they are not empty; the recent proofs and the difficulty do not change.
  pub refresh_challenge_nonce_unseeded :
      (m : Manager Num) (now : ℕ) (random : List ℕ)
      → m.challenge_seed ≡ none
      → m.challenge_nonces.current_challenge_nonce ≢ ""
      → generate_nonce random ≢ ""
      → (is_acceptable
            (refresh_challenge_nonce sha256 now random m).challenge_nonces
            m.challenge_nonces.current_challenge_nonce
          ≡ true)
        × (is_acceptable
              (refresh_challenge_nonce sha256 now random m).challenge_nonces
              (generate_nonce random)
            ≡ true)
  unfolding refresh_challenge_nonce
  refresh_challenge_nonce_unseeded m now random unseeded full full' = ground (
    arith,
    unseeded,
    is_acceptable-IsKnown (refresh_challenge_nonce sha256 now random m).challenge_nonces
        m.challenge_nonces.current_challenge_nonce,
    is_acceptable-IsKnown (refresh_challenge_nonce sha256 now random m).challenge_nonces
        (generate_nonce random),
  )
