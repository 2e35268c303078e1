-- ===== src/Usage/Once.antt =====
-- A request is counted under one outcome only.
use kiro_trust.Prelude.{
  if_both, if_true, ℕ, zero, suc, ◌-◌, ◌≡◌, refl, ap, ◌∙◌, min, true, Option, none, some, List, [],
  ◌∷◌, u64_max,
}
use kiro_trust.Usage.{
  RequestUsageGuard, World, Outcome, terminal, at_guard, guard_at, at_model, close, settle,
  transition,
}

some-inj : {A : Type 0} {x y : A} → some x ≡ some y → x ≡ y
some-inj e = cc

guard_at-close :
    (i : ℕ) (gs : List RequestUsageGuard) (g : RequestUsageGuard)
    → guard_at i gs ≡ some g
    → guard_at i (at_guard i close gs) ≡ some (close g)
unfolding guard_at at_guard
guard_at-close i [] g e = cc
guard_at-close zero (h ∷ gs) g e = ap some (ap close (some-inj e))
guard_at-close (suc i) (h ∷ gs) g e = guard_at-close i gs g e

-- No guard at `i` is open.
abbrev Settled : ℕ → World → Option RequestUsageGuard → Type 0
Settled i w none = guard_at i w.guards ≡ none
Settled i w (some g) = (guard_at i w.guards ≡ some g) × (g.terminal ≡ true)

transition-Settled :
    (outcome : Outcome) (millis attempts i : ℕ) (w : World) (o : Option RequestUsageGuard)
    → Settled i w o
    → transition outcome millis attempts i w ≡ w
unfolding transition settle
transition-Settled outcome millis attempts i w none e =
    ap (λ o. settle outcome (min millis u64_max) (attempts - 1) i w o) e
transition-Settled outcome millis attempts i w (some g) (e, t) =
    ap (λ o. settle outcome (min millis u64_max) (attempts - 1) i w o) e ∙ if_true g.terminal w _ t

settle-stays :
    (outcome other : Outcome) (duration_ms retries millis attempts i : ℕ) (w : World)
    (o : Option RequestUsageGuard)
    → guard_at i w.guards ≡ o
    → transition other millis attempts i (settle outcome duration_ms retries i w o)
      ≡ settle outcome duration_ms retries i w o
unfolding settle
settle-stays outcome other duration_ms retries millis attempts i w none e =
    transition-Settled other millis attempts i w none e
settle-stays outcome other duration_ms retries millis attempts i w (some g) e =
    if_both (λ (x : World). transition other millis attempts i x ≡ x) g.terminal w _
      (λ t. transition-Settled other millis attempts i w (some g) (e, t))
      λ _.
        transition-Settled other millis attempts i
          (record {
            total = terminal outcome g.usage duration_ms retries w.total;
            models = at_model g.model_index (terminal outcome g.usage duration_ms retries) w.models;
            guards = at_guard i close w.guards;
          })
          (some (close g)) (guard_at-close i w.guards g e, refl)

-- Once guard `i` is settled by an outcome, settling it again, as a drop behind `complete` or `fail`
-- does, changes nothing; and where there is no guard `i`, nothing changes at all.
pub settled_once :
    (outcome other : Outcome) (millis attempts later_millis later_attempts i : ℕ) (w : World)
    → transition other later_millis later_attempts i (transition outcome millis attempts i w)
      ≡ transition outcome millis attempts i w
unfolding transition
settled_once outcome other millis attempts later_millis later_attempts i w =
    settle-stays outcome other (min millis u64_max) (attempts - 1) later_millis later_attempts i w
      (guard_at i w.guards) refl
