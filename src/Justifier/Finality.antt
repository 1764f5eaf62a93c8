-- ===== src/Justifier/Finality.antt =====
-- Which checkpoint a call of the justifier finalizes (beacon/src/components/justification.rs).
use shasper.Prelude.{
  ℕ, ◌+◌, ◌*◌, ◌≤◌, ◌<◌, ◌≡◌, ◌⊎◌, inl, inr, refl, Bool-cases, Bool, true, false, List, [], ◌∷◌,
  arith, u64_mod, get_or, set, ◌||◌, ◌==◌, leb, add64, if◌then◌else◌, ap, ◌∙◌,
}
use shasper.Outcome.{ok}
use shasper.Justifier.{
  Justifier, JustifierRegistry, all_set, shift_bits, justify, finalize, process, reaches,
}
use shasper.Justifier.Order.{outcome}
use shasper.Justifier.Due.{Choice, finalize-Choice}

module _ {A : Type 0} (epoch : A → ℕ) where
  -- What the registry answers: the balances that voted for the two targets, and the total.
  record Answers (registry : JustifierRegistry A) (previous current : A) (p c t : ℕ) : Type 0 where
    for_previous : registry.attesting_target_balance previous ≡ ok p
    for_current : registry.attesting_target_balance current ≡ ok c
    for_total : registry.total_active_balance ≡ ok t

  process-Answers :
      (j : Justifier A) (previous current : A) (registry : JustifierRegistry A) (p c t : ℕ)
      → Answers registry previous current p c t
      → process epoch j previous current registry
        ≡ ok (outcome epoch j previous current (reaches epoch p t) (reaches epoch c t))
  unfolding process outcome
  process-Answers j previous current registry p c t answers =
      rw (answers.for_previous, answers.for_total, answers.for_current) refl

  outcome-bits :
      (j : Justifier A) (previous current : A) (p c b0 b1 b2 b3 : Bool)
      → j.justification_bits ≡ b0 ∷ b1 ∷ b2 ∷ b3 ∷ []
      → (outcome epoch j previous current p c).justification_bits ≡ c ∷ (p || b0) ∷ b1 ∷ b2 ∷ []
  unfolding outcome justify shift_bits
  outcome-bits j previous current p c b0 b1 b2 b3 e = rw e (settled p c)
    where
      settled :
          (p c : Bool)
          → (let bits_1 = if p then false ∷ true ∷ b1 ∷ b2 ∷ [] else false ∷ b0 ∷ b1 ∷ b2 ∷ [] in
              (if c then set bits_1 0 true else bits_1) ≡ c ∷ (p || b0) ∷ b1 ∷ b2 ∷ [])
      settled true true = refl
      settled true false = refl
      settled false true = refl
      settled false false = refl

  -- Whether two thirds of the total voted, for balances whose triples do not wrap.
  reaches_lem :
      (b t : ℕ) → 3 * b < u64_mod → 2 * t < u64_mod → reaches epoch b t ≡ leb (2 * t) (3 * b)
  reaches_lem b t small_b small_t = ground arith

  -- A call whose registry answers succeeds. The first of the new bits says whether two thirds voted for the
  -- current epoch, the second whether they did for the previous one or it was justified already, and the
  -- others are shifted. By these bits the finalized checkpoint is the last justified one where that is due,
  -- else the one before it where that is due, and else stays. (There are four bits, and no sum or product
  -- wraps.)
  pub process-Choice :
      (j : Justifier A) (previous current : A) (registry : JustifierRegistry A) (p c t : ℕ)
      (b0 b1 b2 b3 : Bool)
      → j.justification_bits ≡ b0 ∷ b1 ∷ b2 ∷ b3 ∷ []
      → registry.attesting_target_balance previous ≡ ok p
      → registry.attesting_target_balance current ≡ ok c
      → registry.total_active_balance ≡ ok t
      → 3 * p < u64_mod
      → 3 * c < u64_mod
      → 2 * t < u64_mod
      → epoch j.previous_justified_checkpoint + 3 < u64_mod
      → epoch j.current_justified_checkpoint + 3 < u64_mod
      → (j' : Justifier A) × (process epoch j previous current registry ≡ ok j')
        × (j'.justification_bits ≡ leb (2 * t) (3 * c) ∷ (leb (2 * t) (3 * p) || b0) ∷ b1 ∷ b2 ∷ [])
        × Choice epoch j'.justification_bits
            (epoch current)
            j.previous_justified_checkpoint
            j.current_justified_checkpoint
            j.finalized_checkpoint
            j'.finalized_checkpoint
  unfolding outcome
  process-Choice j previous current registry p c t b0 b1 b2 b3 e e_p e_c e_t small_p small_c small_t
        sp sc =
      let answers : Answers registry previous current p c t = record {
        for_previous = e_p;
        for_current = e_c;
        for_total = e_t;
      } in
      (
        outcome epoch j previous current (reaches epoch p t) (reaches epoch c t),
        process-Answers j previous current registry p c t answers,
        rw (← reaches_lem p t small_p small_t, ← reaches_lem c t small_c small_t)
            (outcome-bits j previous current (reaches epoch p t) (reaches epoch c t) b0 b1 b2 b3 e),
        finalize-Choice epoch _ (epoch current) j.previous_justified_checkpoint
            j.current_justified_checkpoint j.finalized_checkpoint sp sc,
      )

  -- Where two thirds vote for the current epoch, and the epoch before it was justified already or two thirds
  -- vote for it now, and the last justified checkpoint is of that epoch, the call succeeds, finalizes that
  -- checkpoint, and makes the current one the last justified. (There are four bits, and no sum or product
  -- wraps.)
  pub process_finalizes_previous :
      (j : Justifier A) (previous current : A) (registry : JustifierRegistry A) (p c t : ℕ)
      (b0 b1 b2 b3 : Bool)
      → j.justification_bits ≡ b0 ∷ b1 ∷ b2 ∷ b3 ∷ []
      → registry.attesting_target_balance previous ≡ ok p
      → registry.attesting_target_balance current ≡ ok c
      → registry.total_active_balance ≡ ok t
      → 3 * p < u64_mod
      → 3 * c < u64_mod
      → 2 * t < u64_mod
      → epoch j.current_justified_checkpoint + 1 ≡ epoch current
      → epoch current < u64_mod
      → 2 * t ≤ 3 * c
      → (b0 ≡ true) ⊎ (2 * t ≤ 3 * p)
      → (j' : Justifier A) × (process epoch j previous current registry ≡ ok j')
        × (j'.finalized_checkpoint ≡ j.current_justified_checkpoint)
        × (j'.current_justified_checkpoint ≡ current)
        × (j'.previous_justified_checkpoint ≡ j.current_justified_checkpoint)
  unfolding outcome justify finalize all_set
  process_finalizes_previous j previous current registry p c t b0 b1 b2 b3 e e_p e_c e_t small_p
        small_c small_t next small now before =
      let answers : Answers registry previous current p c t = record {
        for_previous = e_p;
        for_current = e_c;
        for_total = e_t;
      } in
      let reached : reaches epoch c t ≡ true = ground arith in
      let second : (reaches epoch p t || b0) ≡ true = elim (Bool-cases (reaches epoch p t)) [
        | inl r ↦ rw r refl
        | inr r ↦ rw r (elim before [ inl q ↦ q | inr q ↦ absurd (ground arith) ])
      ] in
      let result = outcome epoch j previous current (reaches epoch p t) (reaches epoch c t) in
      let bits =
        outcome-bits j previous current (reaches epoch p t) (reaches epoch c t) b0 b1 b2 b3 e in
      let set_0 : get_or result.justification_bits 0 false ≡ true =
        ap (λ (bs : List Bool). get_or bs 0 false) bits ∙ reached in
      let set_1 : get_or result.justification_bits 1 false ≡ true =
        ap (λ (bs : List Bool). get_or bs 1 false) bits ∙ second in
      let due : (add64 (epoch j.current_justified_checkpoint) 1 == epoch current) ≡ true =
        ground arith in
      (
        result,
        process-Answers j previous current registry p c t answers,
        rw (set_0, set_1, due) refl,
        rw reached refl,
        refl,
      )
