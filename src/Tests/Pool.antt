-- ===== src/Tests/Pool.antt =====
-- The pool of attestations on concrete inputs.
use shasper.Prelude.{◌≡◌, refl, true, false, [], ◌∷◌, List, Bool, replicate}
use shasper.Types.{Attestation, zero_hash}
use shasper.Outcome.{ok}
use shasper.Config.{bls_no_verification}
use shasper.Pool.{AttestationPool, push, pop, iter, hash_of}
use shasper.Pool.Aggregates.{push_set, appended}
use shasper.Tests.Samples.{small, checkpoint_at}

abbrev vote_of : List Bool → Attestation
vote_of bits = record {
  aggregation_bits = bits;
  att_data = record {
    slot = 7;
    index = 0;
    beacon_block_root = zero_hash;
    source = checkpoint_at 0;
    target = checkpoint_at 0;
  };
  custody_bits = false ∷ false ∷ [];
  signature = replicate 96 0;
}

-- Two validators that attest the same are not aggregated.
abbrev waiting : AttestationPool
waiting = (zero_hash, vote_of (true ∷ false ∷ []) ∷ []) ∷ []

push_set_example :
    push small bls_no_verification (vote_of (false ∷ true ∷ [])) waiting
    ≡ ok (
        appended
          (hash_of small bls_no_verification (vote_of (false ∷ true ∷ [])))
          (vote_of (false ∷ true ∷ []))
          waiting)
push_set_example =
    push_set small bls_no_verification (vote_of (false ∷ true ∷ [])) waiting 1 ((refl, tt), tt) refl

popped : iter (pop zero_hash waiting) ≡ []
unfolding pop iter
popped = refl
