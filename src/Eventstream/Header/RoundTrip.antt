-- ===== src/Eventstream/Header/RoundTrip.antt =====
-- `parse_headers` reads back what `push_header` writes.
use kiro_trust.Prelude.{
  ℕ, zero, suc, ◌+◌, ◌*◌, ◌%◌, ◌-◌, ◌<◌, ◌≤◌, ◌≡◌, refl, true, false, [], ◌∷◌, ◌++◌, ◌^◌, length,
  length-append, drop, take_all, drop_all, append_assoc, append-nil, le→ltb, ok, arith, ◌∙◌,
}
use kiro_trust.Text.{Text, Bytes}
use kiro_trust.Text.Utf8.{as_bytes, len}
use kiro_trust.Text.Utf8.RoundTrip.{IsText, from_utf8-as_bytes}
use kiro_trust.Wire.{
  from_be_bytes, u16_to_be_bytes, u32_to_be_bytes, u64_to_be_bytes, ℤ, to_bits, FitsBits,
  from_be_u16, from_be_u32, from_be_u64, of_bits-to_bits,
}
use kiro_trust.Eventstream.Header.{
  HeaderValue, bool, byte, short, int, long, bytes, string, timestamp, uuid, Headers, take_bytes,
  signed, sized, parse_value, parse_header, parse_loop, parse_headers, encode_value, push_header,
}

-- What a header value of the source's types can hold, with a payload that its length field fits.
abbrev pub FitsValue : HeaderValue → Type 0
FitsValue (bool b) = Unit
FitsValue (byte z) = FitsBits 8 z
FitsValue (short z) = FitsBits 16 z
FitsValue (int z) = FitsBits 32 z
FitsValue (long z) = FitsBits 64 z
FitsValue (bytes b) = length b < 2 ^ 16
FitsValue (string s) = IsText s × (len s < 2 ^ 16)
FitsValue (timestamp z) = FitsBits 64 z
FitsValue (uuid u) = length u ≡ 16

abbrev kind_of : HeaderValue → ℕ
kind_of (bool true) = 0
kind_of (bool false) = 1
kind_of (byte _) = 2
kind_of (short _) = 3
kind_of (int _) = 4
kind_of (long _) = 5
kind_of (bytes _) = 6
kind_of (string _) = 7
kind_of (timestamp _) = 8
kind_of (uuid _) = 9

take_bytes-append :
    (offset n : ℕ) (xs ys : Bytes) → length xs ≡ n → take_bytes offset n (xs ++ ys) ≡ ok (xs, ys)
unfolding take_bytes
take_bytes-append offset n xs ys h = rw (← h) (
    rw (
      le→ltb (length (xs ++ ys)) (length xs) (omega (arith, length-append xs ys)),
      take_all,
      drop_all,
    ))

to_bits-lt : (w : ℕ) (z : ℤ) → 0 < 2 ^ w → FitsBits w z → to_bits w z < 2 ^ w
unfolding to_bits
to_bits-lt w (ℤ.pos n) p h = omega arith
to_bits-lt w (ℤ.negsuc n) p h = omega arith

-- A signed value whose bytes are the encoding of its bits.
signed_lem :
    (offset n : ℕ) (make : ℤ → HeaderValue) (z : ℤ) (enc rest : Bytes)
    → length enc ≡ n
    → from_be_bytes enc ≡ to_bits (8 * n) z
    → FitsBits (8 * n) z
    → signed offset n make (enc ++ rest) ≡ ok (make z, rest)
unfolding signed
signed_lem offset n make z enc rest l e f =
    rw (take_bytes-append offset n enc rest l, e, of_bits-to_bits (8 * n) z f)

sized_lem :
    (offset : ℕ) (b rest : Bytes)
    → length b < 2 ^ 16
    → sized offset (u16_to_be_bytes (length b % 2 ^ 16) ++ (b ++ rest)) ≡ ok (b, rest)
unfolding sized
sized_lem offset b rest h =
    let small : length b % 2 ^ 16 ≡ length b = omega arith in
    rw
      (
        small,
        take_bytes-append offset 2 (u16_to_be_bytes (length b)) (b ++ rest)
            (unfold u16_to_be_bytes in refl),
        from_be_u16 (length b) h,
      )
      (take_bytes-append offset (length b) b rest refl)

parse_value-encode_value :
    (offset : ℕ) (v : HeaderValue) (rest : Bytes)
    → FitsValue v
    → parse_value offset (kind_of v) (drop 1 (encode_value v) ++ rest) ≡ ok (v, rest)
unfolding parse_value encode_value
parse_value-encode_value offset (bool true) rest h = refl
parse_value-encode_value offset (bool false) rest h = refl
parse_value-encode_value offset (byte z) rest h =
    signed_lem offset 1 byte z (to_bits 8 z ∷ []) rest refl (unfold from_be_bytes in omega arith) h
parse_value-encode_value offset (short z) rest h =
    signed_lem offset 2 short z _ rest (unfold u16_to_be_bytes in refl)
      (from_be_u16 _ (to_bits-lt 16 z (omega arith) h)) h
parse_value-encode_value offset (int z) rest h =
    signed_lem offset 4 int z _ rest (unfold u32_to_be_bytes in refl)
      (from_be_u32 _ (to_bits-lt 32 z (omega arith) h)) h
parse_value-encode_value offset (long z) rest h =
    signed_lem offset 8 long z _ rest (unfold u64_to_be_bytes u32_to_be_bytes in refl)
      (from_be_u64 _ (to_bits-lt 64 z (omega arith) h)) h
parse_value-encode_value offset (timestamp z) rest h =
    signed_lem offset 8 timestamp z _ rest (unfold u64_to_be_bytes u32_to_be_bytes in refl)
      (from_be_u64 _ (to_bits-lt 64 z (omega arith) h)) h
parse_value-encode_value offset (bytes b) rest h = rw (append_assoc, sized_lem offset b rest h)
parse_value-encode_value offset (string s) rest h =
    rw (append_assoc, sized_lem offset (as_bytes s) rest h.1, from_utf8-as_bytes s h.0)
parse_value-encode_value offset (uuid u) rest h = rw (take_bytes-append offset 16 u rest h)

drop_cons : (n : ℕ) (b : ℕ) (xs : Bytes) → drop (1 + n) (b ∷ xs) ≡ drop n xs
drop_cons n b xs = let e : 1 + n ≡ suc n = omega arith in rw e refl

drop_past : (xs : Bytes) (b : ℕ) (ys : Bytes) → drop (1 + length xs) (xs ++ (b ∷ ys)) ≡ ys
drop_past [] b ys = drop_cons 0 b ys
drop_past (x ∷ xs) b ys =
    drop_cons (suc (length xs)) x (xs ++ (b ∷ ys))
    ∙ let e : 1 + length xs ≡ suc (length xs) = omega arith in rw (← e) (drop_past xs b ys)

-- The name, the kind and the value are read where the encoding puts them.
parse_header-split :
    (offset k : ℕ) (s : Text) (tail rest : Bytes) (value : HeaderValue)
    → IsText s
    → parse_value offset k tail ≡ ok (value, rest)
    → parse_header offset (len s ∷ (as_bytes s ++ (k ∷ tail))) ≡ ok ((s, value), rest)
unfolding parse_header
parse_header-split offset k s tail rest value h p =
    let nm = as_bytes s in
    let first : 0 * 256 + len s ≡ len s = omega arith in
    let two : 2 + len s ≡ 1 + (1 + len s) = omega arith in
    let kind : 0 * 256 + k ≡ k = omega arith in
    rw (
      first,
      le→ltb (suc (length (nm ++ (k ∷ tail)))) (1 + len s + 1)
          (omega (arith, length-append nm (k ∷ tail))),
      take_all,
      from_utf8-as_bytes s h,
      two,
      drop_cons (len s) (len s),
      drop_all,
      kind,
      drop_cons (1 + len s) (len s),
      drop_past,
      p,
    )

encode_value_split : (v : HeaderValue) → encode_value v ≡ kind_of v ∷ drop 1 (encode_value v)
unfolding encode_value
encode_value_split (bool true) = refl
encode_value_split (bool false) = refl
encode_value_split (byte z) = refl
encode_value_split _ = refl

-- One header, whatever follows it.
parse_header-push_header :
    (offset : ℕ) (s : Text) (v : HeaderValue) (rest : Bytes)
    → IsText s
    → len s < 256
    → FitsValue v
    → parse_header offset (push_header [] s v ++ rest) ≡ ok ((s, v), rest)
unfolding push_header
parse_header-push_header offset s v rest h l f =
    let small : len s % 256 ≡ len s = omega arith in
    rw (small, append_assoc, encode_value_split v)
      (parse_header-split offset (kind_of v) s (drop 1 (encode_value v) ++ rest) rest v h
        (parse_value-encode_value offset v rest f))

-- `push_header` over a list of headers, from an empty buffer.
unfoldable pub encode_headers : Headers → Bytes
encode_headers [] = []
encode_headers ((s, v) ∷ hs) = push_header [] s v ++ encode_headers hs

abbrev pub FitsHeaders : Headers → Type 0
FitsHeaders [] = Unit
FitsHeaders ((s, v) ∷ hs) = (IsText s × (len s < 256) × FitsValue v) × FitsHeaders hs

parse_loop_step :
    (fuel offset : ℕ) (out : Headers) (b : ℕ) (block : Bytes) {header : Text × HeaderValue}
    {rest : Bytes}
    → parse_header offset (b ∷ block) ≡ ok (header, rest)
    → parse_loop (suc fuel) offset out (b ∷ block)
      ≡ parse_loop fuel (offset + (length (b ∷ block) - length rest)) (out ++ header ∷ []) rest
unfolding parse_loop
parse_loop_step fuel offset out b block e = rw (e, parse_loop)

parse_loop-encode_headers :
    (hs : Headers) (fuel offset : ℕ) (out : Headers)
    → length (encode_headers hs) ≤ fuel
    → FitsHeaders hs
    → parse_loop fuel offset out (encode_headers hs) ≡ ok (out ++ hs)
unfolding encode_headers push_header
parse_loop-encode_headers [] zero offset out l f = unfold parse_loop in rw append-nil
parse_loop-encode_headers [] (suc fuel) offset out l f = unfold parse_loop in rw append-nil
parse_loop-encode_headers ((s, v) ∷ hs) zero offset out l f = absurd (omega arith)
parse_loop-encode_headers ((s, v) ∷ hs) (suc fuel) offset out l ((h, n, fv), f) =
    parse_loop_step fuel offset out _ _
      (parse_header-push_header offset s v (encode_headers hs) h n fv)
    ∙ parse_loop-encode_headers hs fuel _ (out ++ (s, v) ∷ [])
        (omega (arith, length-append (as_bytes s ++ encode_value v) (encode_headers hs))) f
    ∙ rw append_assoc

-- A block of headers that the source's types can hold, written by `push_header`, is read back as
-- the same headers in the same order.
pub parse_headers-encode_headers :
    (hs : Headers) → FitsHeaders hs → parse_headers (encode_headers hs) ≡ ok hs
unfolding parse_headers
parse_headers-encode_headers hs f =
    parse_loop-encode_headers hs (length (encode_headers hs)) 0 [] (omega arith) f
