-- ===== src/Usage/Tests.antt =====
-- Three requests on two models, and the theorems about the counters at them.
use kiro_trust.Prelude.{◌≡◌, refl, List, [], ◌∷◌, arith}
use kiro_trust.Usage.{
  Action, begins, updates, completes, fails, drops, completed, cancelled, transport, no_snapshot,
  run, new, act, begin, transition, settle, terminal, add_snapshot, at_model, at_guard, guard_at,
  begin_counts, bump, count_outcome,
}
use kiro_trust.Usage.Sums.{AddsUp, counters_add_up}
use kiro_trust.Usage.Once.{settled_once}

-- The first request completes and is dropped, the second fails, the third is in flight.
abbrev requests : List Action
requests =
    begins 0
    ∷ updates 0 no_snapshot 12
    ∷ completes 0 250 1
    ∷ drops 0 250 1
    ∷ begins 1
    ∷ fails 0 transport 90 3
    ∷ begins 1
    ∷ []

requests_counted : (run requests (new 2)).total.requests.in_flight ≡ 1
unfolding run act begin transition settle terminal add_snapshot at_model at_guard guard_at
    begin_counts bump count_outcome
requests_counted = refl

counters_add_up_example : AddsUp 7 (run requests (new 2))
counters_add_up_example = counters_add_up 2 requests (omega arith)

settled_once_example :
    transition cancelled 9 1 0 (transition completed 8 1 0 (run requests (new 2)))
    ≡ transition completed 8 1 0 (run requests (new 2))
settled_once_example = settled_once completed cancelled 8 1 9 1 0 (run requests (new 2))
