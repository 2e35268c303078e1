-- ===== src/Usage/Sums.antt =====
-- The counters of all requests add up.
use kiro_trust.Prelude.{
  ℕ, zero, suc, ◌+◌, ◌-◌, ◌≤◌, ◌<◌, ◌≡◌, refl, ap, ◌∙◌, sym, subst, Bool, true, false, Option, none,
  some, List, [], ◌∷◌, length, if◌then◌else◌, u64_max, arith, min,
}
use kiro_trust.Response.State.{UsageSnapshot}
use kiro_trust.Usage.{
  UsageErrorKind, index, Counters, RequestUsageGuard, World, Outcome, completed, failed, cancelled,
  begin_counts, bump, count_outcome, terminal, at_guard, guard_at, close, begin, settle, transition,
  Action, begins, updates, completes, fails, drops, act, run, new,
}

abbrev pub sum : List ℕ → ℕ
sum [] = 0
sum (n ∷ ns) = n + sum ns

abbrev pub open_count : List RequestUsageGuard → ℕ
open_count [] = 0
open_count (g ∷ gs) = if g.terminal then open_count gs else suc (open_count gs)

bump-sum : (i : ℕ) (ns : List ℕ) → i < length ns → sum ns < u64_max → sum (bump i ns) ≡ suc (sum ns)
unfolding bump
bump-sum i [] h l = absurd (omega arith)
bump-sum zero (n ∷ ns) h l = omega arith
bump-sum (suc i) (n ∷ ns) h l = omega (arith, bump-sum i ns (omega arith) (omega arith))

bump-length : (i : ℕ) (ns : List ℕ) → length (bump i ns) ≡ length ns
unfolding bump
bump-length i [] = refl
bump-length zero (n ∷ ns) = refl
bump-length (suc i) (n ∷ ns) = ap suc (bump-length i ns)

index_small : (k : UsageErrorKind) → index k < 11
index_small k = ground arith

-- The counters of the requests with these many in flight, of which `n` have begun at most.
pub record Adds (n in_flight : ℕ) (c : Counters) : Type 0 where
  pub begun : c.requests.started ≤ n
  pub split :
      c.requests.started
      ≡ c.requests.completed + c.requests.failed + c.requests.cancelled + c.requests.in_flight
  pub open_ : c.requests.in_flight ≡ in_flight
  pub errors : sum c.errors ≡ c.requests.failed + c.requests.cancelled
  pub places : length c.errors ≡ 11

Adds-begin :
    {n k : ℕ} (c : Counters) → n < u64_max → Adds n k c → Adds (suc n) (suc k) (begin_counts c)
unfolding begin_counts
Adds-begin c l a = record {
  begun = omega (arith, a.begun);
  split = omega (arith, a.begun, a.split);
  open_ = omega (arith, a.begun, a.split, a.open_);
  errors = a.errors;
  places = a.places;
}

Adds-terminal :
    {n k : ℕ} (outcome : Outcome) (usage : UsageSnapshot) (millis retries : ℕ) (c : Counters)
    → n ≤ u64_max
    → Adds n (suc k) c
    → Adds n k (terminal outcome usage millis retries c)
unfolding terminal count_outcome
Adds-terminal completed usage millis retries c l a = record {
  begun = a.begun;
  split = omega (arith, a.begun, a.split, a.open_);
  open_ = omega (arith, a.open_);
  errors = a.errors;
  places = a.places;
}
Adds-terminal (failed kind) usage millis retries c l a =
    let s =
      bump-sum (index kind) c.errors (omega (arith, index_small kind, a.places))
        (omega (arith, a.begun, a.split, a.open_, a.errors)) in
    record {
      begun = a.begun;
      split = omega (arith, a.begun, a.split, a.open_);
      open_ = omega (arith, a.open_);
      errors = omega (arith, s, a.begun, a.split, a.open_, a.errors);
      places = bump-length (index kind) c.errors ∙ a.places;
    }
Adds-terminal cancelled usage millis retries c l a =
    let s =
      bump-sum 9 c.errors (omega (arith, a.places))
        (omega (arith, a.begun, a.split, a.open_, a.errors)) in
    record {
      begun = a.begun;
      split = omega (arith, a.begun, a.split, a.open_);
      open_ = omega (arith, a.open_);
      errors = omega (arith, s, a.begun, a.split, a.open_, a.errors);
      places = bump-length 9 c.errors ∙ a.places;
    }

open_count-close :
    (i : ℕ) (gs : List RequestUsageGuard) (g : RequestUsageGuard)
    → guard_at i gs ≡ some g
    → g.terminal ≡ false
    → open_count gs ≡ suc (open_count (at_guard i close gs))
unfolding guard_at at_guard
open_count-close i [] g e t = cc
open_count-close zero (h ∷ gs) g e t = ground arith
open_count-close (suc i) (h ∷ gs) g e t = let r = open_count-close i gs g e t in ground arith

open_count-at :
    (i : ℕ) (f : RequestUsageGuard → RequestUsageGuard) (gs : List RequestUsageGuard)
    → ((g : RequestUsageGuard) → (f g).terminal ≡ g.terminal)
    → open_count (at_guard i f gs) ≡ open_count gs
unfolding at_guard
open_count-at i f [] h = refl
open_count-at zero f (g ∷ gs) h = ap (λ b. if b then open_count gs else suc (open_count gs)) (h g)
open_count-at (suc i) f (g ∷ gs) h =
    ap (λ n. if g.terminal then n else suc n) (open_count-at i f gs h)

-- The counters of a world add up to its open guards.
abbrev pub AddsUp : ℕ → World → Type 0
AddsUp n w = Adds n (open_count w.guards) w.total

AddsUp-if :
    {n : ℕ} (b : Bool) (v w : World)
    → (b ≡ true → AddsUp n v)
    → (b ≡ false → AddsUp n w)
    → AddsUp n (if b then v else w)
AddsUp-if true v w f g = f refl
AddsUp-if false v w f g = g refl

AddsUp-settle :
    {n : ℕ} (outcome : Outcome) (duration_ms retries i : ℕ) (w : World)
    (o : Option RequestUsageGuard)
    → guard_at i w.guards ≡ o
    → n ≤ u64_max
    → AddsUp n w
    → AddsUp n (settle outcome duration_ms retries i w o)
unfolding settle
AddsUp-settle outcome duration_ms retries i w none e l a = a
AddsUp-settle {n} outcome duration_ms retries i w (some g) e l a =
    AddsUp-if g.terminal w _ (λ _. a)
      λ t.
        Adds-terminal outcome g.usage duration_ms retries w.total l
          (subst (λ k. Adds n k w.total) (open_count-close i w.guards g e t) a)

AddsUp-transition :
    {n : ℕ} (outcome : Outcome) (millis attempts i : ℕ) (w : World)
    → n ≤ u64_max
    → AddsUp n w
    → AddsUp n (transition outcome millis attempts i w)
unfolding transition
AddsUp-transition outcome millis attempts i w l a =
    AddsUp-settle outcome (min millis u64_max) (attempts - 1) i w (guard_at i w.guards) refl l a

more : {n k : ℕ} {c : Counters} → Adds n k c → Adds (suc n) k c
more a = record {
  begun = omega (arith, a.begun);
  split = a.split;
  open_ = a.open_;
  errors = a.errors;
  places = a.places;
}

AddsUp-act : {n : ℕ} (a : Action) (w : World) → n < u64_max → AddsUp n w → AddsUp (suc n) (act a w)
unfolding act begin
AddsUp-act (begins model) w l h = Adds-begin w.total l h
AddsUp-act {n} (updates i usage output_bytes) w l h =
    let f = λ (g : RequestUsageGuard). record g { usage = usage; output_bytes = output_bytes } in
    let e = open_count-at i f w.guards (λ g. refl) in
    record {
      begun = omega (arith, h.begun);
      split = h.split;
      open_ = h.open_ ∙ sym e;
      errors = h.errors;
      places = h.places;
    }
AddsUp-act (completes i millis attempts) w l h =
    more (AddsUp-transition completed millis attempts i w (omega arith) h)
AddsUp-act (fails i kind millis attempts) w l h =
    more (AddsUp-transition (failed kind) millis attempts i w (omega arith) h)
AddsUp-act (drops i millis attempts) w l h =
    more (AddsUp-transition cancelled millis attempts i w (omega arith) h)

AddsUp-run :
    {n : ℕ} (todo : List Action) (w : World)
    → n + length todo ≤ u64_max
    → AddsUp n w
    → AddsUp (n + length todo) (run todo w)
unfolding run
AddsUp-run {n} [] w l h = let e : n + 0 ≡ n = omega arith in rw e h
AddsUp-run {n} (a ∷ todo) w l h =
    let e : n + suc (length todo) ≡ suc n + length todo = omega arith in
    rw e (AddsUp-run todo (act a w) (omega arith) (AddsUp-act a w (omega arith) h))

-- From a new summary, after any actions on any guards, fewer than 2^64 of them, the requests that
-- began are those that completed, failed, were cancelled and are in flight; in flight are as many
-- as have an open guard; and the counts by kind of error add up to the failed and the cancelled.
pub counters_add_up :
    (models : ℕ) (todo : List Action)
    → length todo ≤ u64_max
    → AddsUp (length todo) (run todo (new models))
counters_add_up models todo l =
    let e : 0 + length todo ≡ length todo = omega arith in
    subst (λ n. AddsUp n (run todo (new models))) e
      (AddsUp-run {n = 0} todo (new models) (omega (arith, l)) (record {
        begun = omega arith;
        split = omega arith;
        open_ = refl;
        errors = refl;
        places = refl;
      }))
