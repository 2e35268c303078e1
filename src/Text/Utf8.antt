-- ===== src/Text/Utf8.antt =====
-- UTF-8, as `str::as_bytes`, `String::from_utf8` and `str::from_utf8` of the standard library.
pub mod RoundTrip
use kiro_trust.Prelude.{
  ℕ, zero, suc, ◌+◌, ◌*◌, ◌/◌, ◌%◌, ◌-◌, ◌<◌, ◌≤◌, ◌≡◌, refl, Bool, true, false, ◌&&◌, ◌||◌, Option,
  none, some, List, [], ◌∷◌, ◌++◌, length, length-append, append_assoc, ltb, leb, ◌==◌,
  if◌then◌else◌, arith, ◌∙◌, ap,
}
use mathlib.Core.Option
use kiro_trust.Text.{Text, Bytes}

-- The bytes of one scalar value.
unfoldable pub encode_char : ℕ → Bytes
encode_char c =
    if ltb c 0x80
    then c ∷ []
    else if ltb c 0x800
    then (0xC0 + c / 64) ∷ (0x80 + c % 64) ∷ []
    else if ltb c 0x10000
    then (0xE0 + c / 4096) ∷ (0x80 + c / 64 % 64) ∷ (0x80 + c % 64) ∷ []
    else (0xF0 + c / 262144) ∷ (0x80 + c / 4096 % 64) ∷ (0x80 + c / 64 % 64) ∷ (0x80 + c % 64) ∷ []

-- `as_bytes`
unfoldable pub as_bytes : Text → Bytes
as_bytes [] = []
as_bytes (c ∷ s) = encode_char c ++ as_bytes s

-- `str::len`, in bytes
abbrev pub len : Text → ℕ
len s = length (as_bytes s)

-- `need` continuation bytes are missing, the next one within `lo` and `hi`.
record Pending : Type 0 where
  need : ℕ
  acc : ℕ
  lo : ℕ
  hi : ℕ

abbrev start : Pending
start = record { need = 0; acc = 0; lo = 0; hi = 0 }

abbrev wait : ℕ → ℕ → ℕ → ℕ → Option (Option ℕ × Pending)
wait n a l h = some (none, record { need = n; acc = a; lo = l; hi = h })

within : ℕ → ℕ → ℕ → Bool
within lo hi b = leb lo b && leb b hi

lead : ℕ → Option (Option ℕ × Pending)
unfolding within
lead b =
    if ltb b 0x80
    then some (some b, start)
    else if within 0xC2 0xDF b
    then wait 1 (b - 0xC0) 0x80 0xBF
    else if b == 0xE0
    then wait 2 0 0xA0 0xBF
    else if b == 0xED
    then wait 2 0xD 0x80 0x9F
    else if within 0xE1 0xEF b
    then wait 2 (b - 0xE0) 0x80 0xBF
    else if b == 0xF0
    then wait 3 0 0x90 0xBF
    else if within 0xF1 0xF3 b
    then wait 3 (b - 0xF0) 0x80 0xBF
    else if b == 0xF4
    then wait 3 4 0x80 0x8F
    else none

continued : ℕ → ℕ → Option (Option ℕ × Pending)
continued zero a = some (some a, start)
continued (suc n) a = wait (suc n) a 0x80 0xBF

read_byte : ℕ → Pending → ℕ → Option (Option ℕ × Pending)
unfolding lead continued within
read_byte zero p b = lead b
read_byte (suc n) p b = if within p.lo p.hi b then continued n (p.acc * 64 + (b - 0x80)) else none

prepend : Option ℕ → Text → Text
prepend none s = s
prepend (some c) s = c ∷ s

decode : Pending → Bytes → Option Text
unfolding read_byte prepend
decode p [] = if p.need == 0 then some [] else none
decode p (b ∷ bs) = elim (read_byte p.need p b) [
  | none ↦ none
  | some (c, q) ↦ Option.map (prepend c) (decode q bs)
]

-- `from_utf8`, `none` for bytes that are not UTF-8
unfoldable pub from_utf8 : Bytes → Option Text
unfolding decode
from_utf8 = decode start

-- What a Rust `char` can be.
abbrev pub IsChar : ℕ → Type 0
IsChar c = (c < 0x110000) × ((ltb c 0xD800 || leb 0xE000 c) ≡ true)

latin : from_utf8 (0x61 ∷ 0xC3 ∷ 0xA9 ∷ []) ≡ some (0x61 ∷ 0xE9 ∷ [])
unfolding from_utf8
latin = refl
