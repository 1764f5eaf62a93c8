-- ===== src/Executive/Epoch/Inclusion.antt =====
-- The attestation that pays for an attester: the fold of
-- beacon/src/executive/transition/per_epoch/reward.rs.
use shasper.Prelude.{
  ℕ, zero, suc, ◌≤◌, ◌<◌, ◌≡◌, refl, ap, inl, inr, arith, List, [], ◌∷◌, ltb, Bool-cases, get_elem?,
  lt-of_get_elem?, some,
}
use shasper.Types.{PendingAttestation}
use shasper.Executive.Epoch.Deltas.{min_inclusion_delay}

-- Of the attestations, `a` is the last of those of least delay.
pub record LastLeast (as' : List PendingAttestation) (a : PendingAttestation) : Type 0 where
  pub place : ℕ
  pub at_place : get_elem? as' place ≡ some a
  pub least :
      (i : ℕ) (b : PendingAttestation)
      → get_elem? as' i ≡ some b
      → a.inclusion_delay ≤ b.inclusion_delay
  pub last :
      (i : ℕ) (b : PendingAttestation)
      → place < i
      → get_elem? as' i ≡ some b
      → a.inclusion_delay < b.inclusion_delay

delay : {a b : PendingAttestation} → some a ≡ some b → a.inclusion_delay ≡ b.inclusion_delay
delay {a} {b} e = let same : a ≡ b = cc in ap (λ (x : PendingAttestation). x.inclusion_delay) same

-- The last of the least of a list with its first two merged, in the list itself.
keeps_first :
    (a b r : PendingAttestation) (own : List PendingAttestation)
    → a.inclusion_delay < b.inclusion_delay
    → LastLeast (a ∷ own) r
    → LastLeast (a ∷ b ∷ own) r
keeps_first a b r own less h = at h.place h.at_place h.last
  where
    least :
        (i : ℕ) (c : PendingAttestation)
        → get_elem? (a ∷ b ∷ own) i ≡ some c
        → r.inclusion_delay ≤ c.inclusion_delay
    least zero c e = h.least zero c e
    least (suc zero) c e = omega (arith, h.least 0 a refl, less, delay e)
    least (suc (suc i)) c e = h.least (suc i) c e

    at :
        (k : ℕ)
        → get_elem? (a ∷ own) k ≡ some r
        → ((i : ℕ) (c : PendingAttestation)
            → k < i
            → get_elem? (a ∷ own) i ≡ some c
            → r.inclusion_delay < c.inclusion_delay)
        → LastLeast (a ∷ b ∷ own) r
    at zero here later = record {
      place = 0;
      at_place = here;
      least = least;
      last = λ i c lt e. last_first i c lt e;
    }
      where
        last_first :
            (i : ℕ) (c : PendingAttestation)
            → 0 < i
            → get_elem? (a ∷ b ∷ own) i ≡ some c
            → r.inclusion_delay < c.inclusion_delay
        last_first zero c lt e = absurd (omega arith)
        last_first (suc zero) c lt e = omega (arith, h.least 0 a refl, less, delay e)
        last_first (suc (suc i)) c lt e = later (suc i) c (omega arith) e
    at (suc k) here later = record {
      place = suc (suc k);
      at_place = here;
      least = least;
      last = last_later;
    }
      where
        last_later :
            (i : ℕ) (c : PendingAttestation)
            → suc (suc k) < i
            → get_elem? (a ∷ b ∷ own) i ≡ some c
            → r.inclusion_delay < c.inclusion_delay
        last_later zero c lt e = absurd (omega arith)
        last_later (suc zero) c lt e = absurd (omega arith)
        last_later (suc (suc i)) c lt e = later (suc i) c (omega arith) e

keeps_second :
    (a b r : PendingAttestation) (own : List PendingAttestation)
    → b.inclusion_delay ≤ a.inclusion_delay
    → LastLeast (b ∷ own) r
    → LastLeast (a ∷ b ∷ own) r
keeps_second a b r own more h = record {
  place = suc h.place;
  at_place = h.at_place;
  least = least;
  last = last;
}
  where
    least :
        (i : ℕ) (c : PendingAttestation)
        → get_elem? (a ∷ b ∷ own) i ≡ some c
        → r.inclusion_delay ≤ c.inclusion_delay
    least zero c e = omega (arith, h.least 0 b refl, delay e)
    least (suc i) c e = h.least i c e

    last :
        (i : ℕ) (c : PendingAttestation)
        → suc h.place < i
        → get_elem? (a ∷ b ∷ own) i ≡ some c
        → r.inclusion_delay < c.inclusion_delay
    last zero c lt e = absurd (omega arith)
    last (suc i) c lt e = h.last i c (omega arith) e

-- The fold returns one of the attestations that it goes through: the last of those that were included with
-- the least delay.
pub min_inclusion_delay-LastLeast :
    (own : List PendingAttestation) (first : PendingAttestation)
    → LastLeast (first ∷ own) (min_inclusion_delay first own)
unfolding min_inclusion_delay
min_inclusion_delay-LastLeast [] first = record {
  place = 0;
  at_place = refl;
  least = λ i b e. alone i b e;
  last = λ i b lt e. absurd (omega (arith, lt-of_get_elem? (first ∷ []) i e));
}
  where
    alone :
        (i : ℕ) (b : PendingAttestation)
        → get_elem? (first ∷ []) i ≡ some b
        → first.inclusion_delay ≤ b.inclusion_delay
    alone zero b e = omega (arith, delay e)
    alone (suc i) b e = absurd (cc)
min_inclusion_delay-LastLeast (b ∷ own) first =
    elim (Bool-cases (ltb first.inclusion_delay b.inclusion_delay)) [
      | inl less ↦ rw less (
          keeps_first first b _ own (ground (arith, less))
            (min_inclusion_delay-LastLeast own first))
      | inr more ↦
          rw more (
            keeps_second first b _ own (ground (arith, more)) (min_inclusion_delay-LastLeast own b))
    ]
