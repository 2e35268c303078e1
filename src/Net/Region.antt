-- ===== src/Net/Region.antt =====
-- Region names, which become host names (crates/kiro-trust-net/src/region.rs).
pub mod Pattern
use kiro_trust.Prelude.{
  ℕ, ◌+◌, Bool, true, false, not, ◌&&◌, ◌||◌, List, [], ◌∷◌, ◌++◌, length, take, ltb, leb, ◌==◌,
  if◌then◌else◌, Result, ok, err, ◌>>=◌, Option, none, some,
}
use kiro_trust.Text.{Text, codes, text_eq}
use kiro_trust.Text.Utf8.{len}
use kiro_trust.Text.Search.{is_empty}

abbrev pub runtime_allowlist : List Text
runtime_allowlist =
    codes "us-east-1" ∷ codes "eu-central-1" ∷ codes "us-gov-east-1" ∷ codes "us-gov-west-1" ∷ []

abbrev pub max_len : ℕ
max_len = 32

pub data RegionError : Type 0 where
  pattern_ : Text → RegionError
  not_served : Text → RegionError

-- The checked string.
pub record Region : Type 0 where
  pub name : Text

abbrev pub dash : ℕ
dash = 0x2D

-- A part of a name in front of the parts of the rest.
abbrev pub cons_part : ℕ → List Text → List Text
cons_part c [] = (c ∷ []) ∷ []
cons_part c (part ∷ parts) = (c ∷ part) ∷ parts

-- `split('-')`
unfoldable pub split : Text → List Text
split [] = [] ∷ []
split (c ∷ s) = let rest = split s in if c == dash then [] ∷ rest else cons_part c rest

abbrev pub is_lower : ℕ → Bool
is_lower c = leb 0x61 c && leb c 0x7A

abbrev pub is_digit : ℕ → Bool
is_digit c = leb 0x30 c && leb c 0x39

abbrev pub all_ : (ℕ → Bool) → Text → Bool
all_ f [] = true
all_ f (c ∷ s) = f c && all_ f s

abbrev pub lower_alpha : Text → Bool
lower_alpha s = not (is_empty s) && all_ is_lower s

-- The match on the parts: prefix, direction and number.
unfoldable pub name_parts : List Text → Option (Text × Text × Text)
name_parts (p ∷ d ∷ n ∷ []) = some (p, d, n)
name_parts (p ∷ g ∷ d ∷ n ∷ []) = if text_eq g (codes "gov") then some (p, d, n) else none
name_parts _ = none

-- The tests on the three parts; the length of a part is that of its UTF-8.
unfoldable pub parts_match : Text → Text → Text → Bool
parts_match p d n =
    (len p == 2) && lower_alpha p && lower_alpha d && (len n == 1) && all_ is_digit n

unfoldable pub parse : Text → Result Region RegionError
unfolding split name_parts parts_match
parse s =
    let bad = err (pattern_ (take 40 s)) in
    if is_empty s || ltb max_len (len s) then bad else (elim (name_parts (split s)) [
      | none ↦ bad
      | some (p, d, n) ↦ if parts_match p d n then ok (record { name = s }) else bad
    ])

abbrev contains : Text → List Text → Bool
contains s [] = false
contains s (t ∷ ts) = text_eq t s || contains s ts

-- `RuntimeRegion::parse`
unfoldable pub parse_runtime : Text → Result Region RegionError
unfolding parse
parse_runtime s = do
  r ← parse s
  if contains r.name runtime_allowlist then ok r else err (not_served r.name)
