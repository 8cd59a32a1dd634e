-- ===== src/PowManager/Run/Reuse.antt =====
-- What the clean-up forgets.
use Prim.Native.String.{String}
use dwn_server.Common.{ℕ, ◌+◌, ◌<◌, ◌≡◌, false, List, [], ◌∷◌, arith, string_eq, leb, filter}
use dwn_server.Common.Dict
use dwn_server.Errors.{ok}
use dwn_server.ProofOfWork.{HashInput}
use dwn_server.PowManager.{
  Manager, record_proof_of_work, remove_proof_of_work_older_than_one_minute, verify_proof_of_work,
}
use dwn_server.PowManager.Cleanup.{remove_proof_of_work_older_than_one_minute-filter}
use dwn_server.PowManager.Verify.{verify_proof_of_work-ok, verify_proof_of_work-IsAccepted}

forgotten :
    (id : String) (now later : ℕ) (m : List (String × ℕ))
    → Dict.has id m ≡ false
    → now + 60000 < later
    → Dict.has id (filter (λ e. leb later (e.1 + 60000)) (Dict.set id now m)) ≡ false
unfolding Dict.has Dict.set
forgotten id now later [] new late = ground arith
forgotten id now later ((j, t) ∷ m) new late = ground (arith, forgotten id now later m)

-- A proof that was accepted is accepted again once more than a minute has passed and the clean-up
-- has run, if the challenge nonces and the maximum have not changed in between.
pub verify_proof_of_work_again :
    {Num : Type 0} (sha256 : String → String) (now later : ℕ) (p : HashInput) (m m' : Manager Num)
    → Dict.IsMap m.proof_of_work_of_last_minute
    → verify_proof_of_work sha256 now p m ≡ ok m'
    → now + 60000 < later
    → verify_proof_of_work sha256 later p (remove_proof_of_work_older_than_one_minute later m')
      ≡ ok (
          record_proof_of_work later p.response_nonce
            (remove_proof_of_work_older_than_one_minute later m'))
unfolding record_proof_of_work
verify_proof_of_work_again sha256 now later p m m' is_map was_ok late =
    let (is, same) = verify_proof_of_work-ok sha256 now p m was_ok in
    let proofs = Dict.set p.response_nonce now m.proof_of_work_of_last_minute in
    let valid : Dict.IsMap m'.proof_of_work_of_last_minute =
      rw same (Dict.set-IsMap p.response_nonce now m.proof_of_work_of_last_minute is_map) in
    let cleaned = remove_proof_of_work_older_than_one_minute-filter later m' valid in
    let free = forgotten p.response_nonce now later m.proof_of_work_of_last_minute is.fresh late in
    verify_proof_of_work-IsAccepted sha256 later p
      (remove_proof_of_work_older_than_one_minute later m')
      (record {
        fresh = rw (cleaned, same) free;
        hex = is.hex;
        size = is.size;
        known = rw (cleaned, same) is.known;
        solved = rw (cleaned, same) is.solved;
      })
