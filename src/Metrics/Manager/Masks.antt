-- ===== src/Metrics/Manager/Masks.antt =====
-- The laws of the mask of steps, read off a table of all masks and steps.
use Prim.Native.Nat.{bit_or}
use wazuh_dashboard_security.Base.{
  ℕ, zero, suc, ◌<◌, Bool, true, false, not, ◌&&◌, ◌||◌, ◌≡◌, refl, ap, ◌∙◌, nat_eq, nat_eq_iff,
  ltb, arith, Bool-cases, inl, inr,
}
use wazuh_dashboard_security.Metrics.Manager.{
  Step, not_started, started, source_selected, log_type_configured, rules_configured,
  field_mappings_configured, threat_intel_configured, step_two_initiated, trigger_configured,
  create_clicked, step_value, metric_emitted_for_step,
}

abbrev all_steps : (Step → Bool) → Bool
all_steps p =
    p not_started
    && p started
    && p source_selected
    && p log_type_configured
    && p rules_configured
    && p field_mappings_configured
    && p threat_intel_configured
    && p step_two_initiated
    && p trigger_configured
    && p create_clicked

all_steps-at : (p : Step → Bool) (step : Step) → all_steps p ≡ true → p step ≡ true
all_steps-at p not_started h = ground arith
all_steps-at p started h = ground arith
all_steps-at p source_selected h = ground arith
all_steps-at p log_type_configured h = ground arith
all_steps-at p rules_configured h = ground arith
all_steps-at p field_mappings_configured h = ground arith
all_steps-at p threat_intel_configured h = ground arith
all_steps-at p step_two_initiated h = ground arith
all_steps-at p trigger_configured h = ground arith
all_steps-at p create_clicked h = ground arith

abbrev all_below : ℕ → (ℕ → Bool) → Bool
all_below zero p = true
all_below (suc n) p = p n && all_below n p

all_below-at : (n : ℕ) (p : ℕ → Bool) (a : ℕ) → all_below n p ≡ true → a < n → p a ≡ true
all_below-at zero p a h low = absurd (omega arith)
all_below-at (suc n) p a h low = elim (Bool-cases (nat_eq a n)) [
  | inl same ↦ ap p ((nat_eq_iff a n).0 same) ∙ ground arith
  | inr other ↦ all_below-at n p a (ground arith) (ground arith)
]

abbrev pub has : ℕ → Step → Bool
has mask step = metric_emitted_for_step mask (step_value step)

abbrev pub with_step : ℕ → Step → ℕ
with_step mask step = bit_or mask (step_value step)

-- The mask of a further step has that step, the steps that it had, and no other.
unfoldable adds : ℕ → Step → Bool
adds mask step =
    ltb (with_step mask step) 512
    && has (with_step mask step) step
    && all_steps (λ other. not (has mask other) || has (with_step mask step) other)
    && all_steps (λ other.
      not (has (with_step mask step) other)
      || has mask other
      || nat_eq (step_value step) (step_value other))

adds_table : all_below 512 (λ mask. all_steps (adds mask)) ≡ true
unfolding adds metric_emitted_for_step
adds_table = refl

adds-true : (mask : ℕ) (step : Step) → mask < 512 → adds mask step ≡ true
adds-true mask step low =
    all_steps-at (adds mask) step (all_below-at 512 (λ m. all_steps (adds m)) mask adds_table low)

and4 :
    (a b c d : Bool) → (a && b && c && d) ≡ true → (a ≡ true) × (b ≡ true) × (c ≡ true) × (d ≡ true)
and4 true true true true h = (refl, refl, refl, refl)
and4 true true true false h = (refl, refl, refl, h)
and4 true true false d h = absurd (ground arith)
and4 true false c d h = absurd (ground arith)
and4 false b c d h = absurd (ground arith)

implied : (a b : Bool) → not a || b ≡ true → a ≡ true → b ≡ true
implied a b h e = ground arith

excluded : (a b c : Bool) → not a || b || c ≡ true → b ≡ false → c ≡ false → a ≡ false
excluded a b c h e f = ground arith

below : (m n : ℕ) → ltb m n ≡ true → m < n
below m n h = ground arith

pub with_step_lem :
    (mask : ℕ) (step other : Step)
    → mask < 512
    → (with_step mask step < 512)
      × (has (with_step mask step) step ≡ true)
      × (has mask other ≡ true → has (with_step mask step) other ≡ true)
      × (has mask other ≡ false
          → nat_eq (step_value step) (step_value other) ≡ false
          → has (with_step mask step) other ≡ false)
unfolding adds
with_step_lem mask step other low =
    let (small, now, kept, new) = and4 _ _ _ _ (adds-true mask step low) in
    (
      below _ 512 small,
      now,
      implied _ _ (all_steps-at (λ o. not (has mask o) || has (with_step mask step) o) other kept),
      excluded _ _ _ (
          all_steps-at
            (λ o.
              not (has (with_step mask step) o)
              || has mask o
              || nat_eq (step_value step) (step_value o))
            other new),
    )
