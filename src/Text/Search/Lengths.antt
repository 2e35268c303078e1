-- ===== src/Text/Search/Lengths.antt =====
-- What is behind a match is shorter.
use kiro_trust.Prelude.{
  ℕ, ◌+◌, ◌<◌, ◌≡◌, ap, Bool-cases, inl, inr, Option-cases, some, [], ◌∷◌, length, arith, ◌==◌,
}
use kiro_trust.Text.{Text}
use kiro_trust.Text.Search.{strip_prefix, find_split}

pub strip_prefix-shorter :
    (p s rest : Text) → strip_prefix p s ≡ some rest → length p + length rest ≡ length s
unfolding strip_prefix
strip_prefix-shorter [] s rest e = ground arith
strip_prefix-shorter (c ∷ p) [] rest e = cc
strip_prefix-shorter (c ∷ p) (d ∷ s) rest e = elim (Bool-cases (c == d)) [
  | inl same ↦ let r = strip_prefix-shorter p s rest (ground arith) in omega (arith, r)
  | inr other ↦ absurd (ground arith)
]

pub find_split-shorter :
    (c : ℕ) (p s before behind : Text)
    → find_split (c ∷ p) s ≡ some (before, behind)
    → length behind < length s
unfolding find_split strip_prefix
find_split-shorter c p [] before behind e = cc
find_split-shorter c p (d ∷ s) before behind e =
    elim (Option-cases (strip_prefix (c ∷ p) (d ∷ s))) [
      | inr (rest, q) ↦
          let r = strip_prefix-shorter (c ∷ p) (d ∷ s) rest q in
          let same : rest ≡ behind = ground arith in omega (arith, r, ap length same)
      | inl none_ ↦ elim (Option-cases (find_split (c ∷ p) s)) [
        | inl missing ↦ absurd (ground arith)
        | inr ((head, tail), q) ↦
            let r = find_split-shorter c p s head tail q in
            let same : tail ≡ behind = ground arith in omega (arith, r, ap length same)
      ]
    ]
