-- ===== src/PowManager/Solve.antt =====
-- src/registration/proof-of-work.ts, `findQualifiedResponseNonce`: the search ends, and what it
-- finds is accepted.

use Prim.Native.String.{String}
use dwn_server.Common.{
  ℕ, zero, suc, ◌+◌, ◌*◌, ◌/◌, ◌%◌, ◌^◌, ◌≤◌, ◌<◌, ◌≡◌, ◌≢◌, refl, sym, subst, ◌∙◌, true, false,
  some, List, [], ◌∷◌, arith, length, leb, Bool-cases, Option-cases, inl, inr, dec_le, string_eq,
}
use dwn_server.Common.Int.{pos, ◌≤ℤ◌}
use dwn_server.Common.Text.{codes, big_int_of_hex}
use dwn_server.Common.Dict
use dwn_server.Errors.{ok}
use dwn_server.ProofOfWork.{
  HashInput, parse_big_int, generate_nonce, compute_hash, parse_big_int, find_from,
  find_qualified_response_nonce,
}
use dwn_server.PowManager.{
  Manager, all_hex, is_hex_string, get_proof_of_work_challenge, big_int_to_hex_string,
  record_proof_of_work, verify_proof_of_work,
}
use dwn_server.PowManager.Challenge.{is_hex_digit-digit, big_int_to_hex_string_roundtrip}
use dwn_server.PowManager.Verify.{IsSolved, verify_proof_of_work-IsAccepted}

length-generate_nonce : (bytes : List ℕ) → length (codes (generate_nonce bytes)) ≡ 2 * length bytes
unfolding generate_nonce
length-generate_nonce [] = refl
length-generate_nonce (b ∷ bytes) = omega (arith, length-generate_nonce bytes)

all_hex-generate_nonce : (bytes : List ℕ) → all_hex (codes (generate_nonce bytes)) ≡ true
unfolding generate_nonce
all_hex-generate_nonce [] = refl
all_hex-generate_nonce (b ∷ bytes) = ground (
  arith,
  is_hex_digit-digit (b / 16 % 16) (omega arith),
  is_hex_digit-digit (b % 16) (omega arith),
  all_hex-generate_nonce bytes,
)

-- A nonce of 32 bytes has the form that `verifyProofOfWork` asks for.
pub is_hex_string-generate_nonce :
    (bytes : List ℕ)
    → length bytes ≡ 32
    → (is_hex_string (generate_nonce bytes) ≡ true) × (length (codes (generate_nonce bytes)) ≡ 64)
unfolding is_hex_string
is_hex_string-generate_nonce bytes h = (
  ground (arith, length-generate_nonce bytes, all_hex-generate_nonce bytes),
  omega (arith, length-generate_nonce bytes),
)

-- The digest is hexadecimal text.
abbrev pub IsDigest : (String → String) → Type 0
IsDigest sha256 = (s : String) → (h : ℕ) × (big_int_of_hex (sha256 s) ≡ some h)

compute_hash-digest :
    (sha256 : String → String)
    → IsDigest sha256
    → (p : HashInput) → (h : ℕ) × (big_int_of_hex (compute_hash sha256 p) ≡ some h)
unfolding compute_hash
compute_hash-digest sha256 digest p = digest _

module _ (sha256 : String → String) (random : ℕ → List ℕ) where
  -- The proof of round `i`.
  abbrev pub attempt : String → String → ℕ → HashInput
  attempt c data_ i = record {
    challenge_nonce = c;
    response_nonce = generate_nonce (random i);
    request_data = data_;
  }

  module _ (maximum : ℕ) (c data_ : String) where
    find_from_sound :
        (fuel i : ℕ) (n : String)
        → find_from sha256 fuel random maximum c data_ i ≡ some (ok n)
        → (j : ℕ) × (n ≡ generate_nonce (random j))
          × IsSolved sha256 (pos maximum) (attempt c data_ j)
    unfolding find_from parse_big_int
    find_from_sound zero i n h = absurd (cc)
    find_from_sound (suc fuel) i n h =
        elim (Option-cases (big_int_of_hex (compute_hash sha256 (attempt c data_ i)))) [
          | inl wrong ↦ absurd (ground arith)
          | inr (v, parsed) ↦ elim (Bool-cases (leb v maximum)) [
            | inl low ↦ (i, ground arith, (v, parsed, ground arith))
            | inr high ↦ find_from_sound fuel (suc i) n (ground arith)
          ]
        ]

    find_from-low :
        (fuel i v : ℕ)
        → big_int_of_hex (compute_hash sha256 (attempt c data_ i)) ≡ some v
        → v ≤ maximum
        → find_from sha256 (suc fuel) random maximum c data_ i
          ≡ some (ok (generate_nonce (random i)))
    unfolding find_from parse_big_int
    find_from-low fuel i v parsed low = ground arith

    find_from-high :
        (fuel i v : ℕ)
        → big_int_of_hex (compute_hash sha256 (attempt c data_ i)) ≡ some v
        → maximum < v
        → find_from sha256 (suc fuel) random maximum c data_ i
          ≡ find_from sha256 fuel random maximum c data_ (suc i)
    unfolding find_from parse_big_int
    find_from-high fuel i v parsed high = ground arith

    -- The search is over at the first round whose proof is solved, or before.
    find_from_ends :
        (fuel i k : ℕ)
        → IsDigest sha256
        → k < fuel
        → IsSolved sha256 (pos maximum) (attempt c data_ (i + k))
        → (n : String) × (find_from sha256 fuel random maximum c data_ i ≡ some (ok n))
    find_from_ends zero i k digest h s = absurd (omega arith)
    find_from_ends (suc fuel) i zero digest h s =
        let at : i + 0 ≡ i = omega arith in
        let (v, parsed, low) =
          subst (λ j. IsSolved sha256 (pos maximum) (attempt c data_ j)) at s in
        (generate_nonce (random i), find_from-low fuel i v parsed (omega (arith, low)))
    find_from_ends (suc fuel) i (suc k) digest h s =
        let (v, parsed) = compute_hash-digest sha256 digest (attempt c data_ i) in
        elim (dec_le v maximum) [
          | yes low ↦ (generate_nonce (random i), find_from-low fuel i v parsed low)
          | no high ↦
              let at : i + suc k ≡ suc i + k = omega arith in
              let later = subst (λ j. IsSolved sha256 (pos maximum) (attempt c data_ j)) at s in
              let (n, found) = find_from_ends fuel (suc i) k digest (omega arith) later in
              (n, find_from-high fuel i v parsed (omega arith) ∙ found)
        ]

  find_qualified_from :
      (fuel maximum : ℕ) (text c data_ : String)
      → big_int_of_hex text ≡ some maximum
      → find_qualified_response_nonce sha256 fuel random text c data_
        ≡ find_from sha256 fuel random maximum c data_ 0
  unfolding find_qualified_response_nonce parse_big_int
  find_qualified_from fuel maximum text c data_ parsed = ground (arith, parsed)

  -- The search returns a nonce, and not an error, as soon as its rounds are more than the number of
  -- a round that draws a solution, if the given maximum is hexadecimal text and so is every digest.
  pub find_qualified_response_nonce_ends :
      (fuel k maximum : ℕ) (text c data_ : String)
      → IsDigest sha256
      → big_int_of_hex text ≡ some maximum
      → k < fuel
      → IsSolved sha256 (pos maximum) (attempt c data_ k)
      → (n : String) × (find_qualified_response_nonce sha256 fuel random text c data_ ≡ some (ok n))
  find_qualified_response_nonce_ends fuel k maximum text c data_ digest parsed h s =
      let at : 0 + k ≡ k = omega arith in
      let here = subst (λ j. IsSolved sha256 (pos maximum) (attempt c data_ j)) (sym at) s in
      let (n, found) = find_from_ends maximum c data_ fuel 0 k digest h here in
      (n, find_qualified_from fuel maximum text c data_ parsed ∙ found)

  -- A nonce that the search finds for the challenge that the manager gives out is accepted, and
  -- recorded: the nonce only has to be new, the challenge nonce not empty, the maximum a number
  -- below 2 ^ 256, and each draw 32 bytes.
  pub find_qualified_response_nonce_accepted :
      {Num : Type 0} (m : Manager Num) (fuel now maximum : ℕ) (data_ n : String)
      → m.current_maximum_allowed_hash_value ≡ pos maximum
      → maximum < 16 ^ 64
      → m.challenge_nonces.current_challenge_nonce ≢ ""
      → ((i : ℕ) → length (random i) ≡ 32)
      → find_qualified_response_nonce sha256 fuel random
          (get_proof_of_work_challenge m).maximum_allowed_hash_value
          (get_proof_of_work_challenge m).challenge_nonce
          data_
        ≡ some (ok n)
      → Dict.has n m.proof_of_work_of_last_minute ≡ false
      → verify_proof_of_work sha256 now
          (record {
            challenge_nonce = (get_proof_of_work_challenge m).challenge_nonce;
            response_nonce = n;
            request_data = data_;
          })
          m
        ≡ ok (record_proof_of_work now n m)
  unfolding get_proof_of_work_challenge
  find_qualified_response_nonce_accepted m fuel now maximum data_ n is small some_nonce bytes found
        fresh =
      let c = m.challenge_nonces.current_challenge_nonce in
      let text = big_int_to_hex_string m.current_maximum_allowed_hash_value in
      let parsed : big_int_of_hex text ≡ some maximum =
        rw is (big_int_to_hex_string_roundtrip maximum small).0 in
      let (j, drawn, (v, hashed, low)) =
        find_from_sound maximum c data_ fuel 0 n
          (sym (find_qualified_from fuel maximum text c data_ parsed) ∙ found) in
      let (hex, size) = is_hex_string-generate_nonce (random j) (bytes j) in
      verify_proof_of_work-IsAccepted sha256 now
        (record { challenge_nonce = c; response_nonce = n; request_data = data_ }) m
        (record {
          fresh = fresh;
          hex = rw drawn hex;
          size = rw drawn size;
          known = (some_nonce, inr (inl refl));
          solved = (
            v,
            subst
                (λ r.
                  big_int_of_hex (
                    compute_hash sha256
                      (record { challenge_nonce = c; response_nonce = r; request_data = data_ }))
                  ≡ some v)
                (sym drawn) hashed,
            subst (λ x. pos v ≤ℤ x) (sym is) low,
          );
        })
