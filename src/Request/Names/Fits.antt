-- ===== src/Request/Names/Fits.antt =====
-- What is sent has 64 bytes at most.
use kiro_trust.Prelude.{
  ℕ, zero, suc, ◌/◌, ◌%◌, ◌≤◌, ◌<◌, ◌≡◌, refl, Option, none, some, List, [], ◌∷◌, take, leb,
  if_both, arith,
}
use kiro_trust.Text.{Text, Bytes}
use kiro_trust.Text.Utf8.{len, encode_char, as_bytes}
use kiro_trust.Text.Utf8.RoundTrip.{len-append}
use kiro_trust.Text.Slices.{
  len_utf8, prefix, back_off, len-nil, len-cons, len-prefix, back_off_boundary, back_off_le,
}
use kiro_trust.Request.Names.{ToolNameMap, get, hex_digit, to_hex, short_name, remember, shorten}

hex_digit-ascii : (d : ℕ) → d < 16 → len_utf8 (hex_digit d) ≡ 1
unfolding encode_char
hex_digit-ascii d h = ground arith

mod_16 : (n : ℕ) → n % 16 < 16
mod_16 n = omega arith

-- Each character is ASCII.
abbrev Ascii : Text → Type 0
Ascii [] = Unit
Ascii (c ∷ s) = (len_utf8 c ≡ 1) × Ascii s

to_hex-Ascii : (bytes : Bytes) → Ascii (to_hex bytes)
unfolding to_hex
to_hex-Ascii [] = tt
to_hex-Ascii (b ∷ bs) = (
  hex_digit-ascii (b / 16 % 16) (mod_16 (b / 16)),
  (hex_digit-ascii (b % 16) (mod_16 b), to_hex-Ascii bs),
)

len-take : (n : ℕ) (s : Text) → Ascii s → len (take n s) ≤ n
len-take zero s a = omega (arith, len-nil)
len-take (suc n) [] a = omega (arith, len-nil)
len-take (suc n) (c ∷ s) (a, as_) = omega (arith, len-cons c (take n s), len-take n s as_, a)

-- Every short name that is stored fits.
abbrev pub AllFit : List (Text × Text) → Type 0
AllFit [] = Unit
AllFit ((name, short) ∷ es) = (len short ≤ 64) × AllFit es

get-fits :
    (es : List (Text × Text)) (name short : Text)
    → AllFit es
    → get es name ≡ some short
    → len short ≤ 64
unfolding get
get-fits [] name short a h = cc
get-fits ((k, v) ∷ es) name short (a, as_) h = ground (arith, get-fits es name short as_)

module _ (sha256 : Bytes → Bytes) where
  mark : len_utf8 0x5F ≡ 1
  unfolding encode_char
  mark = refl

  short_name-fits : (name : Text) → len (short_name sha256 name) ≤ 64
  short_name-fits name =
      let front = prefix (back_off 50 name) name in
      let digits = take 13 (to_hex (sha256 (as_bytes name))) in
      unfold short_name in
      omega (
        arith,
        len-append front (0x5F ∷ digits),
        len-cons 0x5F digits,
        mark,
        len-take 13 (to_hex (sha256 (as_bytes name))) (to_hex-Ascii (sha256 (as_bytes name))),
        len-prefix (back_off 50 name) name (back_off_boundary 50 name),
        back_off_le 50 name,
      )

  abbrev Sent : Text × ToolNameMap → Type 0
  Sent (s, m) = (len s ≤ 64) × AllFit m.to_short

  Sent-remember :
      (o : Option Text) (name : Text) (m : ToolNameMap)
      → get m.to_short name ≡ o
      → AllFit m.to_short
      → Sent (remember sha256 o name m)
  Sent-remember none name m e a = (short_name-fits name, (short_name-fits name, a))
  Sent-remember (some s) name m e a = (get-fits m.to_short name s a e, a)

  -- Whatever a tool is called, the name that `shorten` sends has 64 bytes at most, if those that
  -- are stored do, and then those stored afterwards do.
  pub shorten-fits :
      (name : Text) (m : ToolNameMap)
      → AllFit m.to_short
      → let (s, m') = shorten sha256 name m in (len s ≤ 64) × AllFit m'.to_short
  unfolding shorten
  shorten-fits name m a =
      if_both Sent (leb (len name) 64) (name, m) (remember sha256 (get m.to_short name) name m)
        (λ h. (ground arith, a)) (λ h. Sent-remember (get m.to_short name) name m refl a)
