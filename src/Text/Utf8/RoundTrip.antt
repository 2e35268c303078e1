-- ===== src/Text/Utf8/RoundTrip.antt =====
-- UTF-8 decoding undoes encoding.
use kiro_trust.Prelude.{
  ℕ, ◌+◌, ◌*◌, ◌≤◌, ◌≡◌, refl, some, [], ◌∷◌, ◌++◌, length, length-append, append_assoc, arith, ◌∙◌,
  ap, sym,
}
use mathlib.Core.Option
use kiro_trust.Text.{Text, Bytes}
use kiro_trust.Text.Utf8.{len, encode_char, as_bytes, from_utf8, IsChar, decode, start, prepend}

abbrev pub IsText : Text → Type 0
IsText [] = Unit
IsText (c ∷ s) = IsChar c × IsText s

decode-encode_char :
    (c : ℕ) (rest : Bytes)
    → IsChar c
    → decode start (encode_char c ++ rest) ≡ Option.map (prepend (some c)) (decode start rest)
unfolding decode encode_char
decode-encode_char c rest h = ground arith

-- Decoding the bytes of a string gives the string.
pub from_utf8-as_bytes : (s : Text) → IsText s → from_utf8 (as_bytes s) ≡ some s
unfolding from_utf8 as_bytes
from_utf8-as_bytes [] h = refl
from_utf8-as_bytes (c ∷ s) h =
    decode-encode_char c (as_bytes s) h.0
    ∙ ap (Option.map (prepend (some c))) (from_utf8-as_bytes s h.1)

pub as_bytes-append : (s t : Text) → as_bytes (s ++ t) ≡ as_bytes s ++ as_bytes t
unfolding as_bytes
as_bytes-append [] t = refl
as_bytes-append (c ∷ s) t =
    rw (as_bytes-append s t) (sym (append_assoc (encode_char c) (as_bytes s) (as_bytes t)))

pub len-append : (s t : Text) → len (s ++ t) ≡ len s + len t
len-append s t = ap length (as_bytes-append s t) ∙ length-append (as_bytes s) (as_bytes t)

-- Every string is at most four bytes to a character, and at least one.
pub len_bounds :
    (s : Text) → (length s ≤ length (as_bytes s)) × (length (as_bytes s) ≤ 4 * length s)
unfolding as_bytes encode_char
len_bounds [] = (omega arith, omega arith)
len_bounds (c ∷ s) = ground (arith, len_bounds s, length-append (encode_char c) (as_bytes s))
