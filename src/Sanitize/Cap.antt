-- ===== src/Sanitize/Cap.antt =====
-- `cap` keeps the longest beginning that fits.
use kiro_trust.Prelude.{
  ◌⊎◌, inl, inr, ℕ, ◌+◌, ◌≤◌, ◌<◌, ◌≡◌, refl, if_both, [], ◌∷◌, ◌++◌, append-nil, leb, arith,
}
use kiro_trust.Text.{Text}
use kiro_trust.Text.Utf8.{len}
use kiro_trust.Text.Slices.{
  len_utf8, prefix, suffix, back_off, len_utf8_pos, prefix-suffix, len-prefix, back_off_boundary,
  back_off_le, back_off_last, boundary_next,
}
use kiro_trust.Sanitize.{cap}

-- The next character, if there is one, does not fit behind `used` bytes.
abbrev pub NoRoom : ℕ → ℕ → Text → Type 0
NoRoom limit used [] = Unit
NoRoom limit used (c ∷ rest) = limit < used + len_utf8 c

-- `out` is the longest beginning of `s` of whole characters with at most `limit` bytes.
pub record Longest (s : Text) (limit : ℕ) (out : Text) : Type 0 where
  pub rest : Text
  pub splits : out ++ rest ≡ s
  pub fits : len out ≤ limit
  pub full : NoRoom limit (len out) rest

le-or-lt : (m n : ℕ) → (m ≤ n) ⊎ (n < m)
le-or-lt m n = ground arith

beyond :
    (s : Text) (limit c : ℕ) (more : Text)
    → suffix (back_off limit s) s ≡ c ∷ more
    → limit < len (prefix (back_off limit s) s) + len_utf8 c
beyond s limit c more e =
    let b = back_off_boundary limit s in
    let next = boundary_next (back_off limit s) s c more b e in
    let l = len-prefix (back_off limit s) s b in
    elim (le-or-lt (back_off limit s + len_utf8 c) limit) [
      | inl within ↦ absurd (
          omega (
            arith,
            back_off_last limit s (back_off limit s + len_utf8 c) within next,
            len_utf8_pos c,
          ))
      | inr over ↦ omega (arith, l, over)
    ]

NoRoom-beyond :
    (limit used : ℕ) (rest : Text)
    → ((c : ℕ) (more : Text) → rest ≡ c ∷ more → limit < used + len_utf8 c)
    → NoRoom limit used rest
NoRoom-beyond limit used [] h = tt
NoRoom-beyond limit used (c ∷ rest) h = h c rest refl

-- For every string and limit, `cap` keeps the longest beginning of whole characters that has at
-- most so many bytes.
pub cap-Longest : (s : Text) (limit : ℕ) → Longest s limit (cap s limit)
unfolding cap
cap-Longest s limit =
    if_both (Longest s limit) (leb (len s) limit) s (prefix (back_off limit s) s)
      (λ h. record { rest = []; splits = append-nil s; fits = ground arith; full = tt })
      (λ h.
        let b = back_off_boundary limit s in
        let l = len-prefix (back_off limit s) s b in
        record {
          rest = suffix (back_off limit s) s;
          splits = prefix-suffix (back_off limit s) s;
          fits = omega (arith, l, back_off_le limit s);
          full =
              NoRoom-beyond limit (len (prefix (back_off limit s) s)) (suffix (back_off limit s) s)
                (beyond s limit);
        })
