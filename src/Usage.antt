-- ===== src/Usage.antt =====
-- The counters of all requests, and the guard that each request holds
-- (crates/kiro-trust/src/server/usage.rs). A world is the shared summary with the guards that were
-- handed out; time and the number of attempts are arguments of the actions that read them.
pub mod Sums
pub mod Once
mod Tests
use kiro_trust.Prelude.{
  ℕ, zero, suc, ◌+◌, ◌-◌, min, max, Bool, true, false, Option, none, some, List, [], ◌∷◌, ◌++◌,
  if◌then◌else◌, ltb, saturating_add, u64_max,
}
use kiro_trust.Response.State.{ReportedTokens, EstimatedTokens, UsageSnapshot}

pub data UsageErrorKind : Type 0 where
  local_concurrency authentication model_capacity transient_throttle : UsageErrorKind
  upstream_server transport protocol invalid_state invalid_request : UsageErrorKind
  cancelled allowance_exhausted : UsageErrorKind

abbrev pub index : UsageErrorKind → ℕ
index local_concurrency = 0
index authentication = 1
index model_capacity = 2
index transient_throttle = 3
index upstream_server = 4
index transport = 5
index protocol = 6
index invalid_state = 7
index invalid_request = 8
index cancelled = 9
index allowance_exhausted = 10

abbrev pub all_kinds : List UsageErrorKind
all_kinds =
    local_concurrency ∷ authentication ∷ model_capacity ∷ transient_throttle ∷ upstream_server
    ∷ transport ∷ protocol ∷ invalid_state ∷ invalid_request ∷ cancelled ∷ allowance_exhausted ∷ []

pub record RequestCounts : Type 0 where
  pub started : ℕ
  pub completed : ℕ
  pub failed : ℕ
  pub cancelled : ℕ
  pub in_flight : ℕ

pub record DurationCounts : Type 0 where
  pub total : ℕ
  pub max : ℕ

-- `errors` has a place for each kind.
pub record Counters : Type 0 where
  pub requests : RequestCounts
  pub tokens : UsageSnapshot
  pub duration_ms : DurationCounts
  pub retries : ℕ
  pub errors : List ℕ

abbrev pub no_snapshot : UsageSnapshot
no_snapshot = record {
  reported = record { input = 0; output = 0; cache_read = 0; cache_write = 0 };
  estimated = record { input = 0; output = 0 };
}

abbrev pub no_counts : Counters
no_counts = record {
  requests = record { started = 0; completed = 0; failed = 0; cancelled = 0; in_flight = 0 };
  tokens = no_snapshot;
  duration_ms = record { total = 0; max = 0 };
  retries = 0;
  errors = 0 ∷ 0 ∷ 0 ∷ 0 ∷ 0 ∷ 0 ∷ 0 ∷ 0 ∷ 0 ∷ 0 ∷ 0 ∷ [];
}

pub data Outcome : Type 0 where
  completed : Outcome
  failed : UsageErrorKind → Outcome
  cancelled : Outcome

unfoldable pub begin_counts : Counters → Counters
begin_counts c = record c {
  requests = record c.requests {
    started = saturating_add c.requests.started 1;
    in_flight = saturating_add c.requests.in_flight 1;
  };
}

unfoldable pub add_snapshot : UsageSnapshot → UsageSnapshot → UsageSnapshot
add_snapshot total value = record {
  reported = record {
    input = saturating_add total.reported.input value.reported.input;
    output = saturating_add total.reported.output value.reported.output;
    cache_read = saturating_add total.reported.cache_read value.reported.cache_read;
    cache_write = saturating_add total.reported.cache_write value.reported.cache_write;
  };
  estimated = record {
    input = saturating_add total.estimated.input value.estimated.input;
    output = saturating_add total.estimated.output value.estimated.output;
  };
}

-- `errors[i] = errors[i].saturating_add(1)`
unfoldable pub bump : ℕ → List ℕ → List ℕ
bump i [] = []
bump zero (n ∷ ns) = saturating_add n 1 ∷ ns
bump (suc i) (n ∷ ns) = n ∷ bump i ns

unfoldable pub count_outcome : Outcome → Counters → Counters
count_outcome completed c = record c {
  requests = record c.requests { completed = saturating_add c.requests.completed 1 };
}
count_outcome (failed kind) c = record c {
  requests = record c.requests { failed = saturating_add c.requests.failed 1 };
  errors = bump (index kind) c.errors;
}
count_outcome cancelled c = record c {
  requests = record c.requests { cancelled = saturating_add c.requests.cancelled 1 };
  errors = bump (index UsageErrorKind.cancelled) c.errors;
}

unfoldable pub terminal : Outcome → UsageSnapshot → ℕ → ℕ → Counters → Counters
unfolding count_outcome
terminal outcome usage duration_ms retries c =
    let landed = record c {
      requests = record c.requests { in_flight = c.requests.in_flight - 1 };
    } in
    let counted = count_outcome outcome landed in
    record counted {
      tokens = add_snapshot c.tokens usage;
      duration_ms = record {
        total = saturating_add c.duration_ms.total duration_ms;
        max = max c.duration_ms.max duration_ms;
      };
      retries = saturating_add c.retries retries;
    }

pub record RequestUsageGuard : Type 0 where
  pub model_index : ℕ
  pub usage : UsageSnapshot
  pub output_bytes : ℕ
  pub terminal : Bool

pub record World : Type 0 where
  pub total : Counters
  pub models : List Counters
  pub guards : List RequestUsageGuard

unfoldable pub at_model : ℕ → (Counters → Counters) → List Counters → List Counters
at_model i f [] = []
at_model zero f (c ∷ cs) = f c ∷ cs
at_model (suc i) f (c ∷ cs) = c ∷ at_model i f cs

unfoldable pub guard_at : ℕ → List RequestUsageGuard → Option RequestUsageGuard
guard_at i [] = none
guard_at zero (g ∷ gs) = some g
guard_at (suc i) (g ∷ gs) = guard_at i gs

unfoldable pub at_guard :
    ℕ → (RequestUsageGuard → RequestUsageGuard) → List RequestUsageGuard → List RequestUsageGuard
at_guard i f [] = []
at_guard zero f (g ∷ gs) = f g ∷ gs
at_guard (suc i) f (g ∷ gs) = g ∷ at_guard i f gs

abbrev pub close : RequestUsageGuard → RequestUsageGuard
close g = record g { terminal = true }

-- `UsageSummary::begin`: the new guard is the first of the list.
unfoldable pub begin : ℕ → World → World
unfolding begin_counts at_model
begin model w = record {
  total = begin_counts w.total;
  models = at_model model begin_counts w.models;
  guards =
      record { model_index = model; usage = no_snapshot; output_bytes = 0; terminal = false }
      ∷ w.guards;
}

-- `transition` on guard `i`, if there is one.
unfoldable pub settle : Outcome → ℕ → ℕ → ℕ → World → Option RequestUsageGuard → World
unfolding terminal at_model at_guard
settle outcome duration_ms retries i w none = w
settle outcome duration_ms retries i w (some g) = if g.terminal then w else record {
  total = terminal outcome g.usage duration_ms retries w.total;
  models = at_model g.model_index (terminal outcome g.usage duration_ms retries) w.models;
  guards = at_guard i close w.guards;
}

unfoldable pub transition : Outcome → ℕ → ℕ → ℕ → World → World
unfolding settle guard_at
transition outcome millis attempts i w =
    settle outcome (min millis u64_max) (attempts - 1) i w (guard_at i w.guards)

-- What the holders of guards do: guard `i` is updated, completes, fails or is dropped.
pub data Action : Type 0 where
  begins : (model : ℕ) → Action
  updates : (i : ℕ) (usage : UsageSnapshot) (output_bytes : ℕ) → Action
  completes : (i millis attempts : ℕ) → Action
  fails : (i : ℕ) (kind : UsageErrorKind) (millis attempts : ℕ) → Action
  drops : (i millis attempts : ℕ) → Action

unfoldable pub act : Action → World → World
act (begins model) w = begin model w
act (updates i usage output_bytes) w = record w {
  guards = at_guard i (λ g. record g { usage = usage; output_bytes = output_bytes }) w.guards;
}
act (completes i millis attempts) w = transition completed millis attempts i w
act (fails i kind millis attempts) w = transition (failed kind) millis attempts i w
act (drops i millis attempts) w = transition cancelled millis attempts i w

unfoldable pub run : List Action → World → World
unfolding act
run [] w = w
run (a ∷ rest) w = run rest (act a w)

-- `UsageSummary::new`, with a counter for each model of the catalog.
abbrev no_models : ℕ → List Counters
no_models zero = []
no_models (suc n) = no_counts ∷ no_models n

abbrev pub new : ℕ → World
new n = record { total = no_counts; models = no_models n; guards = [] }
