-- ===== src/Sanitize.antt =====
-- Scrubbing and capping of messages (crates/kiro-trust-protocol/src/sanitize.rs).
pub mod Arns
pub mod Cap
pub mod Scrub
mod Tests
use kiro_trust.Prelude.{
  ℕ, zero, suc, ◌+◌, ◌-◌, Bool, true, false, ◌&&◌, ◌||◌, Option, none, some, List, [], ◌∷◌, ◌++◌,
  length, leb, ◌==◌, if◌then◌else◌,
}
use kiro_trust.Text.{Text, codes}
use kiro_trust.Text.Utf8.{len}
use kiro_trust.Text.Search.{strip_prefix}
use kiro_trust.Text.Slices.{prefix, back_off}

abbrev pub max_message_bytes : ℕ
max_message_bytes = 1024

unfoldable pub cap : Text → ℕ → Text
cap s limit = if leb (len s) limit then s else prefix (back_off limit s) s

abbrev pub is_ascii_digit : ℕ → Bool
is_ascii_digit c = leb 0x30 c && leb c 0x39

-- `is_ascii_whitespace`, and the two quotes
abbrev pub ends_arn : ℕ → Bool
ends_arn c = c == 0x20 || c == 0x09 || c == 0x0A || c == 0x0C || c == 0x0D || c == 0x22 || c == 0x27

-- What is left behind an ARN.
unfoldable pub skip_arn : Text → Text
skip_arn [] = []
skip_arn (c ∷ s) = let rest = skip_arn s in if ends_arn c then c ∷ s else rest

-- A run of digits, and what is left behind it.
unfoldable pub digit_run : Text → Text × Text
digit_run [] = ([], [])
digit_run (c ∷ s) =
    let (run, rest) = digit_run s in if is_ascii_digit c then (c ∷ run, rest) else ([], c ∷ s)

abbrev pub masked : Text → Text
masked run = if length run == 12 then codes "***" else run

-- Each round takes a character at least, so the length of the string is fuel enough. The tests are
-- on ASCII bytes, which no other character contains, so the characters are scanned here.
unfoldable pub scrub_loop : ℕ → Text → Text
unfolding skip_arn digit_run
scrub_loop zero s = []
scrub_loop (suc fuel) [] = []
scrub_loop (suc fuel) (c ∷ s) = elim (strip_prefix (codes "arn:") (c ∷ s)) [
  | some rest ↦ codes "arn:***" ++ scrub_loop fuel (skip_arn rest)
  | none ↦ elim (is_ascii_digit c) [
    | true ↦ masked (digit_run (c ∷ s)).0 ++ scrub_loop fuel (digit_run (c ∷ s)).1
    | false ↦ c ∷ scrub_loop fuel s
  ]
]

unfoldable pub scrub_identifiers : Text → Text
unfolding scrub_loop
scrub_identifiers s = scrub_loop (length s) s
