-- ===== src/Sanitize/Scrub.antt =====
-- What `scrub_identifiers` leaves.
use kiro_trust.Prelude.{
  ℕ, zero, suc, ◌+◌, ◌≤◌, ◌≡◌, refl, ap, ◌∙◌, Bool, Bool-cases, true, false, not, ◌&&◌, inl, inr,
  Option-cases, sym, some, none, [], ◌∷◌, ◌++◌, length, ◌==◌, if◌then◌else◌, if_both, if_false,
  arith, and_both,
}
use kiro_trust.Text.{Text, codes}
use kiro_trust.Text.Search.{strip_prefix}
use kiro_trust.Text.Search.Lengths.{strip_prefix-shorter}
use kiro_trust.Sanitize.Arns.{arns_masked, arns_masked-scrub_loop}
use kiro_trust.Sanitize.{is_ascii_digit, skip_arn, digit_run, masked, scrub_loop, scrub_identifiers}

-- No run of digits has length 12, if `n` digits stand in front.
abbrev pub clean : ℕ → Text → Bool
clean n [] = not (n == 12)
clean n (c ∷ s) =
    let on = clean (suc n) s in
    let off = clean 0 s in if is_ascii_digit c then on else not (n == 12) && off

abbrev head_digit : Text → Bool
head_digit [] = false
head_digit (c ∷ s) = is_ascii_digit c

abbrev all_digits : Text → Bool
all_digits [] = true
all_digits (c ∷ s) = is_ascii_digit c && all_digits s

clean_start :
    (n : ℕ) (out : Text) → head_digit out ≡ false → clean n out ≡ (not (n == 12) && clean 0 out)
clean_start n [] h = ground arith
clean_start n (c ∷ out) h = ground arith

clean_run :
    (n : ℕ) (run out : Text)
    → all_digits run ≡ true
    → head_digit out ≡ false
    → clean n (run ++ out) ≡ (not (n + length run == 12) && clean 0 out)
clean_run n [] out d h = let e : n + 0 ≡ n = omega arith in rw e (clean_start n out h)
clean_run n (c ∷ run) out d h =
    let (dc, dr) = and_both (is_ascii_digit c) (all_digits run) d in
    let e : n + suc (length run) ≡ suc n + length run = omega arith in
    rw (e, dc) (clean_run (suc n) run out dr h)

digit_run_facts :
    (s : Text)
    → (all_digits (digit_run s).0 ≡ true)
      × (head_digit (digit_run s).1 ≡ false)
      × (length (digit_run s).1 ≤ length s)
unfolding digit_run
digit_run_facts [] = (refl, refl, omega arith)
digit_run_facts (c ∷ s) = let (a, b, d) = digit_run_facts s in ground arith

skip_arn_shorter : (s : Text) → length (skip_arn s) ≤ length s
unfolding skip_arn
skip_arn_shorter [] = omega arith
skip_arn_shorter (c ∷ s) = let r = skip_arn_shorter s in ground arith

-- The output begins with a digit only where the input does.
scrub_head : (fuel : ℕ) (s : Text) → head_digit s ≡ false → head_digit (scrub_loop fuel s) ≡ false
unfolding scrub_loop
scrub_head zero s h = refl
scrub_head (suc fuel) [] h = refl
scrub_head (suc fuel) (c ∷ s) h = elim (Option-cases (strip_prefix (codes "arn:") (c ∷ s))) [
  | inr (rest, e) ↦ rw (e, scrub_loop) refl
  | inl e ↦ rw (e, h, scrub_loop) h
]

clean-masked :
    (run out : Text)
    → all_digits run ≡ true
    → head_digit out ≡ false
    → clean 0 out ≡ true
    → clean 0 (masked run ++ out) ≡ true
clean-masked run out d h c =
    if_both (λ (x : Text). clean 0 (x ++ out) ≡ true) (length run == 12) (codes "***") run (λ e. c)
      (λ e. clean_run 0 run out d h ∙ ground (arith, c, e))

clean-scrub_loop : (fuel : ℕ) (s : Text) → clean 0 (scrub_loop fuel s) ≡ true
unfolding scrub_loop
clean-scrub_loop zero s = refl
clean-scrub_loop (suc fuel) [] = refl
clean-scrub_loop (suc fuel) (c ∷ s) = elim (Option-cases (strip_prefix (codes "arn:") (c ∷ s))) [
  | inr (rest, e) ↦ rw (e, scrub_loop) (clean-scrub_loop fuel (skip_arn rest))
  | inl e ↦ elim (Bool-cases (is_ascii_digit c)) [
    | inl d ↦
        let (a, b, l) = digit_run_facts (c ∷ s) in
        rw (e, d, scrub_loop)
          (clean-masked (digit_run (c ∷ s)).0 (scrub_loop fuel (digit_run (c ∷ s)).1) a
            (scrub_head fuel (digit_run (c ∷ s)).1 b) (clean-scrub_loop fuel (digit_run (c ∷ s)).1))
    | inr d ↦ rw (e, d, scrub_loop) (if_false (is_ascii_digit c) _ _ d ∙ clean-scrub_loop fuel s)
  ]
]

digit_run_shorter :
    (c : ℕ) (s : Text) → is_ascii_digit c ≡ true → length (digit_run (c ∷ s)).1 ≤ length s
unfolding digit_run
digit_run_shorter c s d = let (a, b, l) = digit_run_facts s in ground arith

scrub_loop_any :
    (f g : ℕ) (s : Text) → length s ≤ f → length s ≤ g → scrub_loop f s ≡ scrub_loop g s
unfolding scrub_loop
scrub_loop_any zero zero s l k = refl
scrub_loop_any zero (suc g) [] l k = refl
scrub_loop_any (suc f) zero [] l k = refl
scrub_loop_any (suc f) (suc g) [] l k = refl
scrub_loop_any zero (suc g) (c ∷ s) l k = absurd (omega arith)
scrub_loop_any (suc f) zero (c ∷ s) l k = absurd (omega arith)
scrub_loop_any (suc f) (suc g) (c ∷ s) l k =
    elim (Option-cases (strip_prefix (codes "arn:") (c ∷ s))) [
      | inr (rest, e) ↦
          let n = strip_prefix-shorter (codes "arn:") (c ∷ s) rest e in
          let m = skip_arn_shorter rest in
          rw (e, scrub_loop)
            (ap (λ (x : Text). codes "arn:***" ++ x)
              (scrub_loop_any f g (skip_arn rest) (omega (arith, n, m)) (omega (arith, n, m))))
      | inl e ↦ elim (Bool-cases (is_ascii_digit c)) [
        | inl d ↦
            let n = digit_run_shorter c s d in
            rw (e, d, scrub_loop)
              (ap (λ (x : Text). masked (digit_run (c ∷ s)).0 ++ x)
                (scrub_loop_any f g (digit_run (c ∷ s)).1 (omega (arith, n)) (omega (arith, n))))
        | inr d ↦
            rw (e, d, scrub_loop)
              (ap (λ (x : Text). c ∷ x) (scrub_loop_any f g s (omega arith) (omega arith)))
      ]
    ]

-- No `arn:` stands in a string.
unfoldable pub arn_free : Text → Bool
arn_free [] = true
arn_free (c ∷ s) =
    elim (strip_prefix (codes "arn:") (c ∷ s)) [ none ↦ true | some _ ↦ false ] && arn_free s

digit_run_join : (s : Text) → (digit_run s).0 ++ (digit_run s).1 ≡ s
unfolding digit_run
digit_run_join [] = refl
digit_run_join (c ∷ s) = elim (Bool-cases (is_ascii_digit c)) [
  | inl d ↦ rw (d, digit_run) (ap (λ x. c ∷ x) (digit_run_join s))
  | inr d ↦ rw (d, digit_run) refl
]

arn_free-behind : (pre s : Text) → arn_free (pre ++ s) ≡ true → arn_free s ≡ true
unfolding arn_free
arn_free-behind [] s h = h
arn_free-behind (c ∷ pre) s h = arn_free-behind pre s (and_both _ (arn_free (pre ++ s)) h).1

masked-other : (run : Text) → (length run == 12) ≡ false → masked run ≡ run
masked-other run h = if_false (length run == 12) _ _ h

negated : (b : Bool) → not b ≡ true → b ≡ false
negated b h = ground arith

kept :
    (fuel : ℕ) (s : Text)
    → length s ≤ fuel
    → clean 0 s ≡ true
    → arn_free s ≡ true
    → scrub_loop fuel s ≡ s
unfolding scrub_loop arn_free
kept zero [] l h f = refl
kept zero (c ∷ s) l h f = absurd (omega arith)
kept (suc fuel) [] l h f = refl
kept (suc fuel) (c ∷ s) l h f = elim (Option-cases (strip_prefix (codes "arn:") (c ∷ s))) [
  | inr (rest, e) ↦ ground arith
  | inl e ↦ elim (Bool-cases (is_ascii_digit c)) [
    | inl d ↦
        let (run, rest) = digit_run (c ∷ s) in
        let (a, b, n) = digit_run_facts (c ∷ s) in
        let j = digit_run_join (c ∷ s) in
        let cl : clean 0 (run ++ rest) ≡ true = ap (clean 0) j ∙ h in
        let fr : arn_free (run ++ rest) ≡ true = ap arn_free j ∙ f in
        let (k, m) =
          and_both (not (0 + length run == 12)) (clean 0 rest)
            (sym (clean_run 0 run rest a b) ∙ cl) in
        let z : length run ≡ 0 + length run = omega arith in
        rw (e, d, scrub_loop)
          (ap (λ x. x ++ scrub_loop fuel rest)
              (masked-other run (negated (length run == 12) (ap (λ n. not (n == 12)) z ∙ k)))
            ∙ ap (λ x. run ++ x)
                (kept fuel rest (omega (arith, digit_run_shorter c s d)) m
                  (arn_free-behind run rest fr))
            ∙ j)
    | inr d ↦
        rw (e, d, scrub_loop)
          (ap (λ x. c ∷ x)
            (kept fuel s (omega arith) (ground arith) (arn_free-behind (c ∷ []) s f)))
  ]
]

-- For every string, `scrub_identifiers` leaves no run of exactly 12 digits, which an account id is,
-- and wherever `arn:` stands in what it gives, `***` is behind it and then the string ends or white
-- space or a quote follows; a string that has neither such a run nor `arn:` is kept as it is; and
-- the loop comes to the end of the string: any fuel from its length on gives the same result.
pub scrub_identifiers-clean :
    (s : Text) (fuel : ℕ)
    → length s ≤ fuel
    → (clean 0 (scrub_identifiers s) ≡ true)
      × (arns_masked (scrub_identifiers s) ≡ true)
      × ((if clean 0 s && arn_free s then scrub_identifiers s else s) ≡ s)
      × (scrub_loop fuel s ≡ scrub_identifiers s)
unfolding scrub_identifiers
scrub_identifiers-clean s fuel l = (
  clean-scrub_loop (length s) s,
  arns_masked-scrub_loop (length s) s,
  if_both (λ x. x ≡ s) (clean 0 s && arn_free s) (scrub_loop (length s) s) s
      (λ h. let (c, f) = and_both (clean 0 s) (arn_free s) h in kept (length s) s (omega arith) c f)
      (λ _. refl),
  scrub_loop_any fuel (length s) s l (omega arith),
)
