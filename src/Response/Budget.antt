-- ===== src/Response/Budget.antt =====
-- The token budget of a response: what `apply_max_tokens` lets through.
pub mod Within
pub mod Finish
pub mod Response
use kiro_trust.Prelude.{
  ℕ, ◌+◌, ◌-◌, ◌*◌, ◌/◌, ◌≤◌, ◌<◌, min, ◌≡◌, refl, ap, Bool, true, false, Option, none, some, List,
  [], ◌∷◌, ◌++◌, length, take, drop, if◌then◌else◌, ltb, leb, ◌==◌, arith, length-take,
  length-append,
}
use kiro_trust.Text.{Text}
use kiro_trust.Response.Limits.{Limits, effective_max_tokens, apply_max_tokens, latch}

-- What `apply_max_tokens` lets through is counted.
pub apply_max_tokens-output_chars :
    (delta : Text) (l : Limits)
    → (apply_max_tokens delta l).1.output_chars
      ≡ l.output_chars + length (apply_max_tokens delta l).0
unfolding apply_max_tokens latch
apply_max_tokens-output_chars delta l =
    ground (arith, length-take (effective_max_tokens l * 4 - l.output_chars) delta)

-- A count that is within the budget stays so.
pub apply_max_tokens-within :
    (delta : Text) (l : Limits) (n : ℕ)
    → n ≤ l.output_chars
    → n ≤ effective_max_tokens l * 4
    → n + length (apply_max_tokens delta l).0 ≤ effective_max_tokens l * 4
unfolding apply_max_tokens latch
apply_max_tokens-within delta l n c b =
    ground (arith, length-take (effective_max_tokens l * 4 - l.output_chars) delta)

pub apply_max_tokens-max_tokens :
    (delta : Text) (l : Limits) → (apply_max_tokens delta l).1.max_tokens ≡ l.max_tokens
unfolding apply_max_tokens latch
apply_max_tokens-max_tokens delta l = ground arith

pub apply_max_tokens-filter :
    (delta : Text) (l : Limits) → (apply_max_tokens delta l).1.stop_sequences ≡ l.stop_sequences
unfolding apply_max_tokens latch
apply_max_tokens-filter delta l = ground arith
