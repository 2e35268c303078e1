-- ===== src/Net/Region/Pattern/Exact.antt =====
-- `Region::parse` accepts the pattern and nothing else (crates/kiro-trust-net/src/region.rs).
use kiro_trust.Prelude.{
  ℕ, ◌≤◌, ◌≡◌, refl, sym, ap, ◌∙◌, Bool, true, false, not, ◌&&◌, ◌||◌, some, inl, inr, [], ◌∷◌,
  ◌++◌, ltb, ◌==◌, ok, arith,
}
use kiro_trust.Text.{Text, codes, text_eq}
use kiro_trust.Text.Utf8.{len}
use kiro_trust.Text.Search.{is_empty}
use kiro_trust.Net.Region.{
  Region, max_len, dash, split, is_lower, is_digit, all_, lower_alpha, name_parts, parts_match,
  parse,
}
use kiro_trust.Net.Region.Pattern.{
  Matches, plain, gov, join, join-split, split-part, split-last, lower-dashless, name_parts_sound,
  Shape, parts_match-Shape, Shape-parts_match, Accepted, parse-Accepted, both,
}

Accepted-Matches : (s : Text) (r : Region) → Accepted s r → Matches s
Accepted-Matches s r x =
    let h = parts_match-Shape x.p x.d x.n x.fit in
    elim (name_parts_sound (split s) x.p x.d x.n x.parts) [
      | inl three ↦ plain h.a h.b x.d h.c h.chars (
          sym (join-split s)
          ∙ ap join three
          ∙ ap (λ (p : Text). p ++ dash ∷ (x.d ++ dash ∷ x.n)) h.prefix
          ∙ ap (λ (n : Text). h.a ∷ h.b ∷ dash ∷ (x.d ++ dash ∷ n)) h.number)
      | inr four ↦ gov h.a h.b x.d h.c h.chars (
          sym (join-split s)
          ∙ ap join four
          ∙ ap (λ (p : Text). p ++ (codes "-gov-" ++ (x.d ++ dash ∷ x.n))) h.prefix
          ∙ ap (λ (n : Text). h.a ∷ h.b ∷ (codes "-gov-" ++ (x.d ++ dash ∷ n))) h.number)
    ]

-- A string that `parse` accepts is kept as it is, is of the pattern, and has at most 32 bytes.
pub parse-Matches :
    (s : Text) (r : Region) → parse s ≡ ok r → (r.name ≡ s) × Matches s × (len s ≤ max_len)
parse-Matches s r h = let x = parse-Accepted s r h in (x.same, Accepted-Matches s r x, x.short)

parse-accepts :
    (s p d n : Text)
    → (is_empty s || ltb max_len (len s)) ≡ false
    → name_parts (split s) ≡ some (p, d, n)
    → parts_match p d n ≡ true
    → parse s ≡ ok (record { name = s })
unfolding parse
parse-accepts s p d n e f g = rw (e, f, g) refl

digit-dashless : (c : ℕ) → is_digit c ≡ true → all_ (λ c. not (c == dash)) (c ∷ []) ≡ true
digit-dashless c h = ground arith

pair-dashless :
    (a b : ℕ)
    → is_lower a ≡ true
    → is_lower b ≡ true
    → all_ (λ c. not (c == dash)) (a ∷ b ∷ []) ≡ true
pair-dashless a b h k = ground arith

four_of :
    (a b c d : Bool) → (a && b && c && d) ≡ true → (a ≡ true) × (b ≡ true) × (c ≡ true) × (d ≡ true)
four_of a b c d h = ground arith

-- The parts behind the prefix.
split-tail :
    (d : Text) (c : ℕ)
    → lower_alpha d ≡ true
    → is_digit c ≡ true
    → split (d ++ dash ∷ c ∷ []) ≡ d ∷ (c ∷ []) ∷ []
split-tail d c h k =
    let (_, lower) = both (not (is_empty d)) (all_ is_lower d) h in
    split-part d (c ∷ []) (lower-dashless d lower)
    ∙ ap (λ ps. d ∷ ps) (split-last (c ∷ []) (digit-dashless c k))

Shape-of :
    (a b : ℕ) (d : Text) (c : ℕ)
    → (is_lower a && is_lower b && lower_alpha d && is_digit c) ≡ true
    → Shape (a ∷ b ∷ []) d (c ∷ [])
Shape-of a b d c h = record { a = a; b = b; c = c; prefix = refl; number = refl; chars = h }

in_length :
    (s : Text) {c : ℕ} {t : Text}
    → s ≡ c ∷ t
    → len s ≤ max_len
    → (is_empty s || ltb max_len (len s)) ≡ false
in_length s e l = let full : is_empty s ≡ false = ap is_empty e in ground arith

-- A string of the pattern of at most 32 bytes is accepted.
pub Matches-parse : (s : Text) → Matches s → len s ≤ max_len → parse s ≡ ok (record { name = s })
unfolding name_parts text_eq
Matches-parse s (plain a b d c h e) l =
    let (la, lb, ld, dc) = four_of (is_lower a) (is_lower b) (lower_alpha d) (is_digit c) h in
    let parts =
      ap split e
      ∙ split-part (a ∷ b ∷ []) (d ++ dash ∷ c ∷ []) (pair-dashless a b la lb)
      ∙ ap (λ ps. (a ∷ b ∷ []) ∷ ps) (split-tail d c ld dc) in
    parse-accepts s (a ∷ b ∷ []) d (c ∷ []) (in_length s e l) (ap name_parts parts)
      (Shape-parts_match (a ∷ b ∷ []) d (c ∷ []) (Shape-of a b d c h))
Matches-parse s (gov a b d c h e) l =
    let (la, lb, ld, dc) = four_of (is_lower a) (is_lower b) (lower_alpha d) (is_digit c) h in
    let parts =
      ap split e
      ∙ split-part (a ∷ b ∷ []) (codes "gov-" ++ (d ++ dash ∷ c ∷ [])) (pair-dashless a b la lb)
      ∙ ap (λ ps. (a ∷ b ∷ []) ∷ ps) (split-part (codes "gov") (d ++ dash ∷ c ∷ []) refl)
      ∙ ap (λ ps. (a ∷ b ∷ []) ∷ codes "gov" ∷ ps) (split-tail d c ld dc) in
    parse-accepts s (a ∷ b ∷ []) d (c ∷ []) (in_length s e l) (ap name_parts parts)
      (Shape-parts_match (a ∷ b ∷ []) d (c ∷ []) (Shape-of a b d c h))
