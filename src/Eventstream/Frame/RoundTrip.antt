-- ===== src/Eventstream/Frame/RoundTrip.antt =====
-- `next_frame` reads back what `encode_frame` writes.
use kiro_trust.Prelude.{
  ℕ, ◌+◌, ◌-◌, ◌%◌, ◌^◌, ◌≤◌, ◌<◌, ◌≡◌, refl, sym, ap, some, [], ◌++◌, append_assoc, append-nil,
  length, length-append, take, take_all, drop_all, slice, ok, arith, ◌∙◌, ==_refl,
}
use kiro_trust.Text.{Bytes}
use kiro_trust.Wire.{from_be_bytes, u32_to_be_bytes, from_be_u32}
use kiro_trust.Eventstream.Header.{Headers, parse_headers}
use kiro_trust.Eventstream.Frame.Cases.{whole, FrameAt-eq}
use kiro_trust.Eventstream.Frame.{
  check_prelude, read_frame, frame_at, encode_frame, prelude_len, max_frame_bytes,
  max_headers_bytes,
}

slice_mid :
    (xs ys zs : Bytes) (i n : ℕ) → length xs ≡ i → length ys ≡ n → slice i n (xs ++ (ys ++ zs)) ≡ ys
slice_mid xs ys zs i n p q = rw (← p, ← q, drop_all) (take_all ys zs)

slice_end : (xs ys : Bytes) (i n : ℕ) → length xs ≡ i → length ys ≡ n → slice i n (xs ++ ys) ≡ ys
slice_end xs ys i n p q =
    ap (λ (zs : Bytes). slice i n (xs ++ zs)) (sym (append-nil ys)) ∙ slice_mid xs ys [] i n p q

take_of_length : (xs ys : Bytes) (n : ℕ) → length xs ≡ n → take n (xs ++ ys) ≡ xs
take_of_length xs ys n p = rw (← p) (take_all xs ys)

regrouped : (a b c d e : Bytes) → (a ++ (b ++ (c ++ d))) ++ e ≡ (a ++ b) ++ (c ++ (d ++ e))
regrouped a b c d e = simp append_assoc

length-u32 : (n : ℕ) → length (u32_to_be_bytes n) ≡ 4
unfolding u32_to_be_bytes
length-u32 n = refl

module _ (hash : Bytes → ℕ) (hash-u32 : (bytes : Bytes) → hash bytes < 2 ^ 32) where
  check_prelude_ok :
      (buffered : Bytes) (total headers_len : ℕ)
      → from_be_bytes (slice 0 4 buffered) ≡ total
      → from_be_bytes (slice 4 4 buffered) ≡ headers_len
      → from_be_bytes (slice 8 4 buffered) ≡ hash (slice 0 8 buffered)
      → 16 + headers_len ≤ total
      → total ≤ max_frame_bytes
      → headers_len ≤ max_headers_bytes
      → check_prelude hash buffered ≡ ok (total, headers_len)
  unfolding check_prelude
  check_prelude_ok buffered total headers_len p q r a b c = ground arith

  read_frame_ok :
      (total headers_len : ℕ) (bytes : Bytes) (headers : Headers) (payload : Bytes)
      → from_be_bytes (slice (total - 4) 4 bytes) ≡ hash (slice 0 (total - 4) bytes)
      → parse_headers (slice prelude_len headers_len bytes) ≡ ok headers
      → slice (prelude_len + headers_len) (total - 4 - (prelude_len + headers_len)) bytes ≡ payload
      → read_frame hash total headers_len bytes
        ≡ ok (record { headers = headers; payload = payload })
  unfolding read_frame
  read_frame_ok total headers_len bytes headers payload p q r = rw (p, ==_refl, q, r) refl

  module _ (block payload : Bytes) (block_fits : length block ≤ max_headers_bytes)
      (fits : 16 + length block + length payload ≤ max_frame_bytes) where
    abbrev total : ℕ
    total = prelude_len + length block + length payload + 4

    abbrev lengths : Bytes
    lengths = u32_to_be_bytes total ++ u32_to_be_bytes (length block)

    abbrev framed : Bytes
    framed = lengths ++ (u32_to_be_bytes (hash lengths) ++ (block ++ payload))

    encode_frame-framed : encode_frame hash block payload ≡ framed ++ u32_to_be_bytes (hash framed)
    unfolding encode_frame
    encode_frame-framed =
        let t : total % 2 ^ 32 ≡ total = omega arith in
        let b : length block % 2 ^ 32 ≡ length block = omega arith in rw (t, b) refl

    length-framed : length framed ≡ total - 4
    unfolding u32_to_be_bytes
    length-framed = omega (arith, length-append block payload)

    check_prelude-framed :
        (rest : Bytes) → check_prelude hash (framed ++ rest) ≡ ok (total, length block)
    unfolding u32_to_be_bytes
    check_prelude-framed rest =
        check_prelude_ok (framed ++ rest) total (length block) (from_be_u32 total (omega arith))
          (from_be_u32 (length block) (omega arith)) (from_be_u32 (hash lengths) (hash-u32 lengths))
          (omega arith) (omega (arith, fits)) block_fits

    -- The parts of the frame lie where `read_frame` looks for them.
    read_frame-framed :
        (headers : Headers)
        → parse_headers block ≡ ok headers
        → read_frame hash total (length block) (framed ++ u32_to_be_bytes (hash framed))
          ≡ ok (record { headers = headers; payload = payload })
    read_frame-framed headers p =
        let crc = u32_to_be_bytes (hash framed) in
        let front = lengths ++ u32_to_be_bytes (hash lengths) in
        let l12 : length front ≡ 12 = unfold u32_to_be_bytes in refl in
        let regroup : framed ++ crc ≡ front ++ (block ++ (payload ++ crc)) =
          regrouped lengths (u32_to_be_bytes (hash lengths)) block payload crc in
        let regroup2 : framed ++ crc ≡ (front ++ block) ++ (payload ++ crc) =
          regroup ∙ sym (append_assoc front block (payload ++ crc)) in
        read_frame_ok total (length block) (framed ++ crc) headers payload
          (ap from_be_bytes
              (slice_end framed crc (total - 4) 4 length-framed (length-u32 (hash framed)))
            ∙ from_be_u32 (hash framed) (hash-u32 framed)
            ∙ ap hash (sym (slice_mid [] framed crc 0 (total - 4) refl length-framed)))
          (rw (regroup, slice_mid front block (payload ++ crc) 12 (length block) l12 refl) p)
          (rw regroup2 (
            slice_mid (front ++ block) payload crc (prelude_len + length block) _
              (omega (arith, length-append front block, l12)) (omega arith)))

    -- With a checksum of 32 bits, a frame of any payload and of a header block that parses, within
    -- the limits, comes back with its headers and its payload, and the decoder consumes its bytes
    -- and no more.
    pub frame_at-encode_frame :
        (headers : Headers) (rest : Bytes)
        → parse_headers block ≡ ok headers
        → frame_at hash (encode_frame hash block payload ++ rest)
          ≡ ok (
              some (
                record { headers = headers; payload = payload },
                length (encode_frame hash block payload),
              ))
    frame_at-encode_frame headers rest p =
        let crc = u32_to_be_bytes (hash framed) in
        let n : length (framed ++ crc) ≡ total =
          omega (arith, length-append framed crc, length-framed, length-u32 (hash framed)) in
        rw (encode_frame-framed, n)
          (FrameAt-eq hash (
            whole {total = total} {headers_len = length block}
              (omega (arith, length-append (framed ++ crc) rest, n))
              (rw append_assoc (check_prelude-framed (crc ++ rest)))
              (omega (arith, length-append (framed ++ crc) rest, n))
              (rw (take_of_length (framed ++ crc) rest total n) (read_frame-framed headers p))))
