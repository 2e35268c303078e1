-- ===== src/Text/Slices.antt =====
-- Slicing a `String` at byte offsets: `is_char_boundary`, and the loop that backs off to one.
use kiro_trust.Prelude.{
  ℕ, zero, suc, ◌+◌, ◌-◌, ◌≤◌, ◌<◌, ◌≡◌, refl, ap, Bool, Bool-cases, true, false, inl, inr, [], ◌∷◌,
  ◌++◌, length, length-append, ltb, ◌==◌, if◌then◌else◌, if_both, arith,
}
use kiro_trust.Text.{Text}
use kiro_trust.Text.Utf8.{as_bytes, encode_char, len}

abbrev pub len_utf8 : ℕ → ℕ
len_utf8 c = length (encode_char c)

-- `is_char_boundary(i)`
unfoldable pub is_char_boundary : ℕ → Text → Bool
is_char_boundary i [] = i == 0
is_char_boundary i (c ∷ s) =
    let rest = is_char_boundary (i - len_utf8 c) s in
    if i == 0 then true else if ltb i (len_utf8 c) then false else rest

-- `&s[..i]` and `&s[i..]`, for a boundary `i`
unfoldable pub prefix : ℕ → Text → Text
prefix i [] = []
prefix i (c ∷ s) = let rest = prefix (i - len_utf8 c) s in if i == 0 then [] else c ∷ rest

unfoldable pub suffix : ℕ → Text → Text
suffix i [] = []
suffix i (c ∷ s) = let rest = suffix (i - len_utf8 c) s in if i == 0 then c ∷ s else rest

-- `while !s.is_char_boundary(end) { end -= 1 }`
unfoldable pub back_off : ℕ → Text → ℕ
back_off zero s = 0
back_off (suc e) s = let rest = back_off e s in if is_char_boundary (suc e) s then suc e else rest

pub len_utf8_pos : (c : ℕ) → 0 < len_utf8 c
unfolding encode_char
len_utf8_pos c = ground arith

pub len-cons : (c : ℕ) (s : Text) → len (c ∷ s) ≡ len_utf8 c + len s
unfolding as_bytes
len-cons c s = length-append (encode_char c) (as_bytes s)

pub len-nil : len [] ≡ 0
unfolding as_bytes
len-nil = refl

pub prefix-suffix : (i : ℕ) (s : Text) → prefix i s ++ suffix i s ≡ s
unfolding prefix suffix
prefix-suffix i [] = refl
prefix-suffix i (c ∷ s) = elim (Bool-cases (i == 0)) [
  | inl e ↦ rw e refl
  | inr e ↦ rw e (ap (λ (x : Text). c ∷ x) (prefix-suffix (i - len_utf8 c) s))
]

pub len-prefix : (i : ℕ) (s : Text) → is_char_boundary i s ≡ true → len (prefix i s) ≡ i
unfolding prefix is_char_boundary
len-prefix i [] h = ground (arith, len-nil)
len-prefix i (c ∷ s) h = elim (Bool-cases (i == 0)) [
  | inl e ↦ rw e (ground (arith, len-nil))
  | inr e ↦
      let long : ltb i (len_utf8 c) ≡ false = ground arith in
      let r = len-prefix (i - len_utf8 c) s (ground arith) in
      rw e (ground (arith, len-cons c (prefix (i - len_utf8 c) s), r, long))
]

pub back_off_boundary : (n : ℕ) (s : Text) → is_char_boundary (back_off n s) s ≡ true
unfolding back_off
back_off_boundary zero [] = unfold is_char_boundary in refl
back_off_boundary zero (c ∷ s) = unfold is_char_boundary in refl
back_off_boundary (suc n) s = elim (Bool-cases (is_char_boundary (suc n) s)) [
  | inl e ↦ rw (e, back_off) e
  | inr e ↦ rw (e, back_off) (back_off_boundary n s)
]

pub back_off_le : (n : ℕ) (s : Text) → back_off n s ≤ n
unfolding back_off
back_off_le zero s = omega arith
back_off_le (suc n) s =
    let r = back_off_le n s in
    if_both (λ (m : ℕ). m ≤ suc n) (is_char_boundary (suc n) s) (suc n) (back_off n s)
      (λ _. omega arith) (λ _. omega (arith, r))

-- No boundary lies between.
pub back_off_last :
    (n : ℕ) (s : Text) (j : ℕ) → j ≤ n → is_char_boundary j s ≡ true → j ≤ back_off n s
unfolding back_off
back_off_last zero s j l h = l
back_off_last (suc n) s j l h = elim (Bool-cases (is_char_boundary (suc n) s)) [
  | inl e ↦ rw (e, back_off) l
  | inr e ↦ elim (Bool-cases (j == suc n)) [
    | inl q ↦
        let same : j ≡ suc n = ground arith in
        absurd (ground (arith, ap (λ (k : ℕ). is_char_boundary k s) same))
    | inr q ↦ rw (e, back_off) (back_off_last n s j (ground arith) h)
  ]
]

boundary_zero : (s : Text) → is_char_boundary 0 s ≡ true
unfolding is_char_boundary
boundary_zero [] = refl
boundary_zero (c ∷ s) = refl

-- The boundary behind one more character.
pub boundary_next :
    (i : ℕ) (s : Text) (c : ℕ) (rest : Text)
    → is_char_boundary i s ≡ true
    → suffix i s ≡ c ∷ rest
    → is_char_boundary (i + len_utf8 c) s ≡ true
unfolding suffix is_char_boundary
boundary_next i [] c rest h e = cc
boundary_next i (d ∷ s) c rest h e = elim (Bool-cases (i == 0)) [
  | inl z ↦
      let same : d ≡ c = ground arith in
      let zero_ : i + len_utf8 c - len_utf8 d ≡ 0 = ground (arith, ap len_utf8 same) in
      ground (arith, boundary_zero s, ap (λ (k : ℕ). is_char_boundary k s) zero_, ap len_utf8 same)
  | inr z ↦
      let r = boundary_next (i - len_utf8 d) s c rest (ground arith) (ground arith) in
      let long : len_utf8 d ≤ i = ground arith in
      let shift : i + len_utf8 c - len_utf8 d ≡ i - len_utf8 d + len_utf8 c = omega (arith, long) in
      ground (arith, r, ap (λ (k : ℕ). is_char_boundary k s) shift, long)
]
