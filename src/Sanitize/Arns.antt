-- ===== src/Sanitize/Arns.antt =====
-- What `scrub_identifiers` leaves of ARNs (crates/kiro-trust-protocol/src/sanitize.rs).
use kiro_trust.Prelude.{
  ℕ, zero, suc, ◌≡◌, refl, Bool, Bool-cases, true, false, not, ◌&&◌, inl, inr, Option, Option-cases,
  none, some, [], ◌∷◌, ◌++◌, length, ◌==◌, if_both, if_false, arith, and_both,
}
use kiro_trust.Text.{Text, codes}
use kiro_trust.Text.Search.{strip_prefix}
use kiro_trust.Sanitize.{ends_arn, is_ascii_digit, skip_arn, digit_run, masked, scrub_loop}

-- An ARN ends here: at the end of the string, at white space or at a quote.
abbrev pub at_end : Text → Bool
at_end [] = true
at_end (c ∷ s) = ends_arn c

-- What stands behind `arn:` is the mask, and then the ARN ends.
abbrev is_masked : Option Text → Bool
is_masked none = false
is_masked (some rest) = at_end rest

abbrev arn_masked : Option Text → Bool
unfolding strip_prefix
arn_masked none = true
arn_masked (some rest) = is_masked (strip_prefix (codes "***") rest)

-- Wherever `arn:` stands in a string, `***` is behind it and then the ARN ends.
unfoldable pub arns_masked : Text → Bool
unfolding strip_prefix
arns_masked [] = true
arns_masked (c ∷ s) = arn_masked (strip_prefix (codes "arn:") (c ∷ s)) && arns_masked s

at_end-skip_arn : (s : Text) → at_end (skip_arn s) ≡ true
unfolding skip_arn
at_end-skip_arn [] = refl
at_end-skip_arn (c ∷ s) =
    if_both (λ x. at_end x ≡ true) (ends_arn c) (c ∷ s) (skip_arn s) (λ e. e)
      (λ e. at_end-skip_arn s)

-- No text that begins with another character begins with this one.
other_first : (p c : ℕ) (ps s : Text) → (p == c) ≡ false → strip_prefix (p ∷ ps) (c ∷ s) ≡ none
unfolding strip_prefix
other_first p c ps s h = if_false (p == c) _ _ h

-- The end of an ARN is copied.
at_end-scrub_loop : (fuel : ℕ) (s : Text) → at_end s ≡ true → at_end (scrub_loop fuel s) ≡ true
unfolding scrub_loop
at_end-scrub_loop zero s h = refl
at_end-scrub_loop (suc fuel) [] h = refl
at_end-scrub_loop (suc fuel) (c ∷ s) h =
    let a = other_first 0x61 c (codes "rn:") s (ground arith) in
    let d : is_ascii_digit c ≡ false = ground arith in rw (a, d, scrub_loop) h

-- A character that is copied wherever it stands: no digit, no beginning of an ARN or of a mask.
abbrev copied : ℕ → Bool
copied c = not (is_ascii_digit c) && not (c == 0x61) && not (c == 0x2A)

abbrev all_copied : Text → Bool
all_copied [] = true
all_copied (c ∷ s) = copied c && all_copied s

digit_first :
    (c : ℕ) (s : Text) → is_ascii_digit c ≡ true → (digit_run (c ∷ s)).0 ≡ c ∷ (digit_run s).0
unfolding digit_run
digit_first c s h = rw h refl

not_masked :
    (p c : ℕ) (ps run out : Text)
    → copied p ≡ true
    → is_ascii_digit c ≡ true
    → strip_prefix (p ∷ ps) (masked (c ∷ run) ++ out) ≡ none
not_masked p c ps run out h d =
    if_both (λ (x : Text). strip_prefix (p ∷ ps) (x ++ out) ≡ none) (length (c ∷ run) == 12)
      (codes "***") (c ∷ run) (λ _. other_first p 0x2A ps (codes "**" ++ out) (ground arith))
      (λ _. other_first p c ps (run ++ out) (ground arith))

-- A prefix of copied characters is in the output only if it is in the input.
strip_prefix-scrub_loop :
    (ps : Text) (fuel : ℕ) (s : Text)
    → all_copied ps ≡ true
    → strip_prefix ps s ≡ none
    → strip_prefix ps (scrub_loop fuel s) ≡ none
unfolding strip_prefix scrub_loop
strip_prefix-scrub_loop [] fuel s h e = cc
strip_prefix-scrub_loop (p ∷ ps) zero s h e = refl
strip_prefix-scrub_loop (p ∷ ps) (suc fuel) [] h e = refl
strip_prefix-scrub_loop (p ∷ ps) (suc fuel) (c ∷ s) h e =
    let (hp, hs) = and_both (copied p) (all_copied ps) h in
    elim (Option-cases (strip_prefix (codes "arn:") (c ∷ s))) [
      | inr (rest, a) ↦ rw (a, scrub_loop) (other_first p 0x61 ps _ (ground arith))
      | inl a ↦ elim (Bool-cases (is_ascii_digit c)) [
        | inl d ↦
            rw (a, d, scrub_loop)
              (rw (digit_first c s d) (not_masked p c ps (digit_run s).0 _ hp d))
        | inr d ↦ rw (a, d, scrub_loop) (ground (arith, strip_prefix-scrub_loop ps fuel s hs))
      ]
    ]

no_a : Text → Bool
no_a [] = true
no_a (c ∷ s) = not (c == 0x61) && no_a s

passed :
    (pre out : Text) → no_a pre ≡ true → arns_masked out ≡ true → arns_masked (pre ++ out) ≡ true
unfolding arns_masked no_a
passed [] out h m = m
passed (c ∷ pre) out h m =
    let (hc, hp) = and_both (not (c == 0x61)) (no_a pre) h in
    rw (other_first 0x61 c (codes "rn:") (pre ++ out) (ground arith)) (passed pre out hp m)

no_a-digit_run : (s : Text) → no_a (digit_run s).0 ≡ true
unfolding no_a digit_run
no_a-digit_run [] = refl
no_a-digit_run (c ∷ s) = ground (arith, no_a-digit_run s)

no_a-masked : (run : Text) → no_a run ≡ true → no_a (masked run) ≡ true
unfolding no_a
no_a-masked run h =
    if_both (λ x. no_a x ≡ true) (length run == 12) (codes "***") run (λ _. refl) (λ _. h)

copied_char :
    (fuel c : ℕ) (s : Text)
    → strip_prefix (codes "arn:") (c ∷ s) ≡ none
    → strip_prefix (codes "arn:") (c ∷ scrub_loop fuel s) ≡ none
unfolding strip_prefix
copied_char fuel c s e = elim (Bool-cases (0x61 == c)) [
  | inl q ↦ ground (arith, strip_prefix-scrub_loop (codes "rn:") fuel s refl)
  | inr q ↦ if_false (0x61 == c) _ _ q
]

pub arns_masked-scrub_loop : (fuel : ℕ) (s : Text) → arns_masked (scrub_loop fuel s) ≡ true
unfolding scrub_loop arns_masked
arns_masked-scrub_loop zero s = refl
arns_masked-scrub_loop (suc fuel) [] = refl
arns_masked-scrub_loop (suc fuel) (c ∷ s) =
    elim (Option-cases (strip_prefix (codes "arn:") (c ∷ s))) [
      | inr (rest, e) ↦
          let h = at_end-scrub_loop fuel (skip_arn rest) (at_end-skip_arn rest) in
          rw (e, scrub_loop) (rw h (arns_masked-scrub_loop fuel (skip_arn rest)))
      | inl e ↦ elim (Bool-cases (is_ascii_digit c)) [
        | inl d ↦
            rw (e, d, scrub_loop)
              (passed (masked (digit_run (c ∷ s)).0) (scrub_loop fuel (digit_run (c ∷ s)).1)
                (no_a-masked (digit_run (c ∷ s)).0 (no_a-digit_run (c ∷ s)))
                (arns_masked-scrub_loop fuel (digit_run (c ∷ s)).1))
        | inr d ↦
            rw (e, d, scrub_loop) (rw (copied_char fuel c s e) (arns_masked-scrub_loop fuel s))
      ]
    ]
