-- ===== src/Net/Region/Pattern.antt =====
-- `Region::parse` against the pattern in its comment: ^[a-z]{2}(-gov)?-[a-z]+-[0-9]$, at most 32
-- bytes (crates/kiro-trust-net/src/region.rs).
pub mod Exact
use kiro_trust.Prelude.{
  ℕ, ◌+◌, ◌≤◌, ◌≡◌, refl, sym, subst, ap, ◌∙◌, Bool, Bool-cases, true, false, not, ◌&&◌, ◌||◌,
  Option, Option-cases, none, some, ◌⊎◌, inl, inr, List, [], ◌∷◌, ◌++◌, append_assoc, length, take,
  length-append, ltb, ◌==◌, if◌then◌else◌, Result, ok, err, arith,
}
use kiro_trust.Text.{Text, codes, text_eq, text_eq_iff}
use kiro_trust.Text.Utf8.{len, as_bytes, encode_char}
use kiro_trust.Text.Search.{is_empty}
use kiro_trust.Net.Region.{
  Region, RegionError, max_len, dash, cons_part, split, is_lower, is_digit, all_, lower_alpha,
  name_parts, parts_match, parse, pattern_,
}

-- Two small letters; `-gov` or nothing; a dash and small letters, one at least; a dash and a digit.
pub data Matches (s : Text) : Type 0 where
  plain :
      (a b : ℕ) (d : Text) (c : ℕ)
      → (is_lower a && is_lower b && lower_alpha d && is_digit c) ≡ true
      → s ≡ a ∷ b ∷ dash ∷ (d ++ dash ∷ c ∷ [])
      → Matches s
  gov :
      (a b : ℕ) (d : Text) (c : ℕ)
      → (is_lower a && is_lower b && lower_alpha d && is_digit c) ≡ true
      → s ≡ a ∷ b ∷ (codes "-gov-" ++ (d ++ dash ∷ c ∷ []))
      → Matches s

pub both : (a b : Bool) → (a && b) ≡ true → (a ≡ true) × (b ≡ true)
both a b h = ground arith

abbrev pub join : List Text → Text
join [] = []
join (p ∷ []) = p
join (p ∷ q ∷ parts) = p ++ dash ∷ join (q ∷ parts)

join-cons_part : (c : ℕ) (parts : List Text) → join (cons_part c parts) ≡ c ∷ join parts
join-cons_part c [] = refl
join-cons_part c (p ∷ []) = refl
join-cons_part c (p ∷ q ∷ parts) = refl

join-dash : (parts : List Text) → is_empty parts ≡ false → join ([] ∷ parts) ≡ dash ∷ join parts
join-dash [] h = cc
join-dash (p ∷ parts) h = refl

cons_part-nonempty : (c : ℕ) (parts : List Text) → is_empty (cons_part c parts) ≡ false
cons_part-nonempty c [] = refl
cons_part-nonempty c (p ∷ parts) = refl

split-nonempty : (s : Text) → is_empty (split s) ≡ false
unfolding split
split-nonempty [] = refl
split-nonempty (c ∷ s) = elim (Bool-cases (c == dash)) [
  | inl is_dash ↦ rw is_dash refl
  | inr other ↦ rw other (cons_part-nonempty c (split s))
]

pub join-split : (s : Text) → join (split s) ≡ s
unfolding split
join-split [] = refl
join-split (c ∷ s) = elim (Bool-cases (c == dash)) [
  | inl is_dash ↦
      let same : c ≡ dash = ground arith in
      rw (is_dash, join-dash (split s) (split-nonempty s), join-split s)
        (ap (λ d. d ∷ s) (sym same))
  | inr other ↦ rw (other, join-cons_part c (split s), join-split s) refl
]

-- Without a dash in it, a part is split off whole.
pub split-part :
    (p s : Text) → all_ (λ c. not (c == dash)) p ≡ true → split (p ++ dash ∷ s) ≡ p ∷ split s
unfolding split
split-part [] s h = refl
split-part (c ∷ p) s h =
    let (other, rest) = both (not (c == dash)) (all_ (λ c. not (c == dash)) p) h in
    let other' : (c == dash) ≡ false = ground arith in rw (other', split-part p s rest) refl

-- A part without a dash at the end.
pub split-last : (p : Text) → all_ (λ c. not (c == dash)) p ≡ true → split p ≡ p ∷ []
unfolding split
split-last [] h = refl
split-last (c ∷ p) h =
    let (other, rest) = both (not (c == dash)) (all_ (λ c. not (c == dash)) p) h in
    let other' : (c == dash) ≡ false = ground arith in rw (other', split-last p rest) refl

pub lower-dashless : (p : Text) → all_ is_lower p ≡ true → all_ (λ c. not (c == dash)) p ≡ true
lower-dashless [] h = refl
lower-dashless (c ∷ p) h =
    let r = lower-dashless p (both (is_lower c) (all_ is_lower p) h).1 in ground arith

-- Small letters and digits are one byte each.
lower-len : (p : Text) → all_ is_lower p ≡ true → len p ≡ length p
unfolding as_bytes encode_char
lower-len [] h = refl
lower-len (c ∷ p) h = let r = lower-len p (both (is_lower c) (all_ is_lower p) h).1 in ground arith

digit-len : (p : Text) → all_ is_digit p ≡ true → len p ≡ length p
unfolding as_bytes encode_char
digit-len [] h = refl
digit-len (c ∷ p) h = let r = digit-len p (both (is_digit c) (all_ is_digit p) h).1 in ground arith

pub name_parts_sound :
    (ps : List Text) (p d n : Text)
    → name_parts ps ≡ some (p, d, n)
    → (ps ≡ p ∷ d ∷ n ∷ []) ⊎ (ps ≡ p ∷ codes "gov" ∷ d ∷ n ∷ [])
unfolding name_parts
name_parts_sound [] p d n e = cc
name_parts_sound (a ∷ []) p d n e = cc
name_parts_sound (a ∷ b ∷ []) p d n e = cc
name_parts_sound (a ∷ b ∷ c ∷ []) p d n e = inl cc
name_parts_sound (a ∷ g ∷ b ∷ c ∷ []) p d n e = ground (arith, text_eq_iff g (codes "gov"))
name_parts_sound (a ∷ g ∷ b ∷ c ∷ f ∷ fs) p d n e = cc

==-eq : {m n : ℕ} → (m == n) ≡ true → m ≡ n
==-eq e = ground arith

five :
    (a b c d e : Bool)
    → (a && b && c && d && e) ≡ true
    → (a ≡ true) × (b ≡ true) × (c ≡ true) × (d ≡ true) × (e ≡ true)
five a b c d e h = ground arith

two_of :
    (p : Text)
    → all_ is_lower p ≡ true
    → length p ≡ 2
    → (a : ℕ) × (b : ℕ) × (p ≡ a ∷ b ∷ []) × (is_lower a ≡ true) × (is_lower b ≡ true)
two_of [] h l = absurd (omega arith)
two_of (a ∷ []) h l = absurd (omega arith)
two_of (a ∷ b ∷ []) h l = (a, b, refl, ground arith, ground arith)
two_of (a ∷ b ∷ c ∷ p) h l = absurd (omega arith)

one_of :
    (n : Text)
    → all_ is_digit n ≡ true
    → length n ≡ 1
    → (c : ℕ) × (n ≡ c ∷ []) × (is_digit c ≡ true)
one_of [] h l = absurd (omega arith)
one_of (c ∷ []) h l = (c, refl, ground arith)
one_of (a ∷ b ∷ n) h l = absurd (omega arith)

-- What the tests on the parts say of the characters.
pub record Shape (p d n : Text) : Type 0 where
  pub a : ℕ
  pub b : ℕ
  pub c : ℕ
  pub prefix : p ≡ a ∷ b ∷ []
  pub number : n ≡ c ∷ []
  pub chars : (is_lower a && is_lower b && lower_alpha d && is_digit c) ≡ true

pub parts_match-Shape : (p d n : Text) → parts_match p d n ≡ true → Shape p d n
unfolding parts_match
parts_match-Shape p d n h =
    let (two, lower, down, one, digit) =
      five (len p == 2) (lower_alpha p) (lower_alpha d) (len n == 1) (all_ is_digit n) h in
    let (_, lower') = both (not (is_empty p)) (all_ is_lower p) lower in
    let (a, b, pe, la, lb) = two_of p lower' (omega (arith, lower-len p lower', ==-eq two)) in
    let (c, ne, dc) = one_of n digit (omega (arith, digit-len n digit, ==-eq one)) in
    record { a = a; b = b; c = c; prefix = pe; number = ne; chars = ground arith }

pub Shape-parts_match : (p d n : Text) → Shape p d n → parts_match p d n ≡ true
unfolding parts_match as_bytes encode_char
Shape-parts_match p d n h = rw (h.prefix, h.number) (ground (arith, h.chars))

-- The cases of `parse` that accept.
pub record Accepted (s : Text) (r : Region) : Type 0 where
  pub p : Text
  pub d : Text
  pub n : Text
  pub same : r.name ≡ s
  pub short : len s ≤ max_len
  pub parts : name_parts (split s) ≡ some (p, d, n)
  pub fit : parts_match p d n ≡ true

if-accepts :
    {s : Text} {r : Region} (e : RegionError) (b : Bool)
    → (if b then ok (record { name = s }) else err e) ≡ ok r
    → (b ≡ true) × (r.name ≡ s)
if-accepts e true h = (refl, cc)
if-accepts e false h = cc

judged :
    (s : Text) (r : Region) (e : RegionError) (b : Bool) (o : Option (Text × Text × Text))
    → b ≡ (is_empty s || ltb max_len (len s))
    → o ≡ name_parts (split s)
    → (if b then err e else elim o [
      | none ↦ err e
      | some (p, d, n) ↦ if parts_match p d n then ok (record { name = s }) else err e
    ])
      ≡ ok r
    → Accepted s r
judged s r e true o q f h = cc
judged s r e false none q f h = cc
judged s r e false (some (p, d, n)) q f h =
    let (fits, name) = if-accepts e (parts_match p d n) h in
    record { p = p; d = d; n = n; same = name; short = ground arith; parts = sym f; fit = fits }

pub parse-Accepted : (s : Text) (r : Region) → parse s ≡ ok r → Accepted s r
unfolding parse
parse-Accepted s r h =
    judged s r (pattern_ (take 40 s)) (is_empty s || ltb max_len (len s)) (name_parts (split s))
      refl refl h
