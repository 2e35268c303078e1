-- ===== src/Eventstream/Header.antt =====
-- Header values, the header block of a frame, and its encoding
-- (crates/kiro-trust-protocol/src/eventstream.rs).
pub mod Fuel
pub mod RoundTrip
use kiro_trust.Prelude.{
  ℕ, zero, suc, ◌+◌, ◌*◌, ◌/◌, ◌%◌, ◌-◌, ◌<◌, ◌≤◌, ◌≡◌, refl, Bool, true, false, Option, none, some,
  List, [], ◌∷◌, ◌++◌, ◌^◌, length, take, drop, ltb, ◌==◌, ◌||◌, if◌then◌else◌, Result, ok, err,
  ◌>>=◌,
}
use kiro_trust.Text.{Text, Bytes, text_eq}
use kiro_trust.Text.Utf8.{as_bytes, from_utf8, len}
use kiro_trust.Wire.{
  from_be_bytes, u16_to_be_bytes, u32_to_be_bytes, u64_to_be_bytes, ℤ, of_bits, to_bits,
}

-- `i8`, `i16`, `i32` and `i64` are integers; `Vec<u8>` and `[u8; 16]` are lists of bytes.
pub data HeaderValue : Type 0 where
  bool : Bool → HeaderValue
  byte short int long : ℤ → HeaderValue
  bytes : Bytes → HeaderValue
  string : Text → HeaderValue
  timestamp : ℤ → HeaderValue
  uuid : Bytes → HeaderValue

abbrev pub Headers : Type 0
Headers = List (Text × HeaderValue)

pub data FrameError : Type 0 where
  prelude_crc : (computed expected : ℕ) → FrameError
  message_crc : (computed expected : ℕ) → FrameError
  too_large : (total max : ℕ) → FrameError
  too_small : (total : ℕ) → FrameError
  headers_overrun : (headers : ℕ) → FrameError
  bad_header : (offset : ℕ) → FrameError
  truncated : (pending : ℕ) → FrameError

-- The closure `take`: the next `n` bytes and what is left.
unfoldable pub take_bytes : ℕ → ℕ → Bytes → Result (Bytes × Bytes) FrameError
take_bytes offset n rest =
    if ltb (length rest) n then err (bad_header offset) else ok (take n rest, drop n rest)

abbrev from_text : ℕ → Option Text → Result Text FrameError
from_text offset none = err (bad_header offset)
from_text offset (some s) = ok s

-- `uN::from_be_bytes(take(&mut rest, n)?) as iN`
unfoldable pub signed : ℕ → ℕ → (ℤ → HeaderValue) → Bytes → Result (HeaderValue × Bytes) FrameError
signed offset n make rest = do
  (head, tail) ← take_bytes offset n rest
  ok (make (of_bits (8 * n) (from_be_bytes head)), tail)

-- A two-byte length and as many bytes.
unfoldable pub sized : ℕ → Bytes → Result (Bytes × Bytes) FrameError
sized offset rest = do
  (head, tail) ← take_bytes offset 2 rest
  take_bytes offset (from_be_bytes head) tail

-- The value of a header of this kind at the front of `rest`.
unfoldable pub parse_value : ℕ → ℕ → Bytes → Result (HeaderValue × Bytes) FrameError
parse_value offset kind rest =
    if kind == 0
    then ok (bool true, rest)
    else if kind == 1
    then ok (bool false, rest)
    else if kind == 2
    then signed offset 1 byte rest
    else if kind == 3
    then signed offset 2 short rest
    else if kind == 4
    then signed offset 4 int rest
    else if kind == 5
    then signed offset 8 long rest
    else if kind == 6
    then (do (b, tail) ← sized offset rest; ok (bytes b, tail))
    else if kind == 7
    then (do (b, tail) ← sized offset rest; s ← from_text offset (from_utf8 b); ok (string s, tail))
    else if kind == 8
    then signed offset 8 timestamp rest
    else if kind == 9
    then (do (b, tail) ← take_bytes offset 16 rest; ok (uuid b, tail))
    else err (bad_header offset)

-- The byte at `i`; `parse_header` has tested that it is there.
abbrev byte_at : ℕ → Bytes → ℕ
byte_at i data_ = from_be_bytes (take 1 (drop i data_))

-- The body of the loop for one header: name, value and what is left.
unfoldable pub parse_header : ℕ → Bytes → Result ((Text × HeaderValue) × Bytes) FrameError
unfolding from_be_bytes
parse_header offset block =
    let name_len = byte_at 0 block in
    if ltb (length block) (1 + name_len + 1) then err (bad_header offset) else do
      name ← from_text offset (from_utf8 (take name_len (drop 1 block)))
      let kind = byte_at (1 + name_len) block
      (value, rest) ← parse_value offset kind (drop (2 + name_len) block)
      ok ((name, value), rest)

-- `while !data.is_empty()`. Each round takes at least two bytes, so the length of the block is
-- fuel enough (`parse_headers_fuel`); `out` is the vector so far.
unfoldable pub parse_loop : ℕ → ℕ → Headers → Bytes → Result Headers FrameError
parse_loop _ offset out [] = ok out
parse_loop zero offset out (b ∷ block) = err (bad_header offset)
parse_loop (suc fuel) offset out (b ∷ block) = elim (parse_header offset (b ∷ block)) [
  | err e ↦ err e
  | ok (header, rest) ↦
      parse_loop fuel (offset + (length (b ∷ block) - length rest)) (out ++ header ∷ []) rest
]

unfoldable pub parse_headers : Bytes → Result Headers FrameError
unfolding parse_loop parse_header parse_value signed sized take_bytes
parse_headers block = parse_loop (length block) 0 [] block

unfoldable pub encode_value : HeaderValue → Bytes
encode_value (bool true) = 0 ∷ []
encode_value (bool false) = 1 ∷ []
encode_value (byte b) = 2 ∷ to_bits 8 b ∷ []
encode_value (short v) = 3 ∷ u16_to_be_bytes (to_bits 16 v)
encode_value (int v) = 4 ∷ u32_to_be_bytes (to_bits 32 v)
encode_value (long v) = 5 ∷ u64_to_be_bytes (to_bits 64 v)
encode_value (bytes b) = 6 ∷ (u16_to_be_bytes (length b % 2 ^ 16) ++ b)
encode_value (string s) = 7 ∷ (u16_to_be_bytes (len s % 2 ^ 16) ++ as_bytes s)
encode_value (timestamp v) = 8 ∷ u64_to_be_bytes (to_bits 64 v)
encode_value (uuid u) = 9 ∷ u

unfoldable pub push_header : Bytes → Text → HeaderValue → Bytes
unfolding encode_value
push_header buf name value = buf ++ ((len name % 256) ∷ (as_bytes name ++ encode_value value))
