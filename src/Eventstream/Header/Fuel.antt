-- ===== src/Eventstream/Header/Fuel.antt =====
-- The loop of `parse_headers` takes at most a round for two bytes, so its fuel is never used up.
use kiro_trust.Prelude.{
  ℕ, zero, suc, ◌+◌, ◌≤◌, ◌≡◌, refl, Bool, true, false, Option, none, some, [], ◌∷◌, ◌++◌, length,
  length-drop, drop, ltb, ◌==◌, if◌then◌else◌, Result, ok, err, ◌>>=◌, Result-cases, Bool-cases,
  arith, inl, inr,
}
use kiro_trust.Text.{Text, Bytes}
use kiro_trust.Text.Utf8.{from_utf8}
use kiro_trust.Wire.{from_be_bytes, ℤ}
use kiro_trust.Eventstream.Header.{
  HeaderValue, Headers, FrameError, take_bytes, signed, sized, from_text, parse_value, parse_header,
  parse_loop, parse_headers, byte_at,
}

-- What is left after a successful read is no longer than the input.
abbrev Shrinks {ℓ} : {A : Type ℓ} → Bytes → Result (A × Bytes) FrameError → Type 0
Shrinks r (ok (a, rest)) = length rest ≤ length r
Shrinks r (err e) = Unit

Shrinks-take_bytes : (offset n : ℕ) (r : Bytes) → Shrinks r (take_bytes offset n r)
unfolding take_bytes
Shrinks-take_bytes offset n r = ground (arith, length-drop n r)

Shrinks-bind :
    {A B : Type 0} (r : Bytes) (m : Result (A × Bytes) FrameError)
    (f : A × Bytes → Result (B × Bytes) FrameError)
    → Shrinks r m
    → ((a : A) (t : Bytes) → Shrinks t (f (a, t)))
    → Shrinks r (m >>= f)
Shrinks-bind r (ok (a, t)) f h k = elim (Result-cases (f (a, t))) [
  | inl ((b, u), e) ↦ rw e (omega (arith, rw e at (k a t)))
  | inr (e, q) ↦ rw q tt
]
Shrinks-bind r (err e) f h k = tt

Shrinks-from_text :
    {B : Type 0} (t : Bytes) (offset : ℕ) (o : Option Text)
    (f : Text → Result (B × Bytes) FrameError)
    → ((s : Text) → Shrinks t (f s))
    → Shrinks t (from_text offset o >>= f)
Shrinks-from_text t offset none f k = tt
Shrinks-from_text t offset (some s) f k = k s

Shrinks-sized : (offset : ℕ) (r : Bytes) → Shrinks r (sized offset r)
unfolding sized
Shrinks-sized offset r =
    Shrinks-bind r _ _ (Shrinks-take_bytes offset 2 r)
      (λ a t. Shrinks-take_bytes offset (from_be_bytes a) t)

Shrinks-signed :
    (offset n : ℕ) (make : ℤ → HeaderValue) (r : Bytes) → Shrinks r (signed offset n make r)
unfolding signed
Shrinks-signed offset n make r =
    Shrinks-bind r _ _ (Shrinks-take_bytes offset n r) (λ a t. omega arith)

Shrinks-string : (offset : ℕ) (r : Bytes) → Shrinks r (parse_value offset 7 r)
unfolding parse_value
Shrinks-string offset r =
    Shrinks-bind r _ _ (Shrinks-sized offset r)
      (λ a t. Shrinks-from_text t offset (from_utf8 a) _ (λ s. omega arith))

Shrinks-if :
    {A : Type 0} (b : Bool) (r : Bytes) (m n : Result (A × Bytes) FrameError)
    → Shrinks r m
    → Shrinks r n
    → Shrinks r (if b then m else n)
Shrinks-if true r m n p q = p
Shrinks-if false r m n p q = q

Shrinks-parse_value : (offset kind : ℕ) (r : Bytes) → Shrinks r (parse_value offset kind r)
unfolding parse_value
Shrinks-parse_value offset kind r =
    let le : length r ≤ length r = omega arith in
    let go = λ (b : Bool) (m n : Result (HeaderValue × Bytes) FrameError). Shrinks-if b r m n in
    go (kind == 0) _ _ le (
      go (kind == 1) _ _ le (
        go (kind == 2) _ _ (Shrinks-signed offset 1 _ r) (
          go (kind == 3) _ _ (Shrinks-signed offset 2 _ r) (
            go (kind == 4) _ _ (Shrinks-signed offset 4 _ r) (
              go (kind == 5) _ _ (Shrinks-signed offset 8 _ r) (
                go (kind == 6) _ _
                  (Shrinks-bind r _ _ (Shrinks-sized offset r) (λ a t. omega arith))
                  (go (kind == 7) _ _ (Shrinks-string offset r) (
                    go (kind == 8) _ _ (Shrinks-signed offset 8 _ r) (
                      go (kind == 9) _ _
                        (Shrinks-bind r _ _ (Shrinks-take_bytes offset 16 r) (λ a t. omega arith))
                        tt)))))))))

Shrinks-drop :
    {A : Type 0} (block : Bytes) (n : ℕ) (m : Result (A × Bytes) FrameError)
    → Shrinks (drop (2 + n) block) m
    → Shrinks (drop 2 block) m
Shrinks-drop block n (ok (a, t)) h = omega (arith, length-drop (2 + n) block, length-drop 2 block)
Shrinks-drop block n (err e) h = tt

-- A header takes at least its two length bytes.
Shrinks-parse_header :
    (offset : ℕ) (block : Bytes) → Shrinks (drop 2 block) (parse_header offset block)
unfolding parse_header
Shrinks-parse_header offset block =
    elim (Bool-cases (ltb (length block) (1 + byte_at 0 block + 1))) [
      | inl short ↦ rw short tt
      | inr fits ↦ rw fits (
          Shrinks-from_text (drop 2 block) offset _ _ λ s.
            Shrinks-bind (drop 2 block) _ _
              (Shrinks-drop block (byte_at 0 block) _ (
                Shrinks-parse_value offset (byte_at (1 + byte_at 0 block) block)
                  (drop (2 + byte_at 0 block) block)))
              (λ a t. omega arith))
    ]

parse_loop_fuel :
    (f g offset : ℕ) (out : Headers) (block : Bytes)
    → length block ≤ f
    → length block ≤ g
    → parse_loop f offset out block ≡ parse_loop g offset out block
unfolding parse_loop
parse_loop_fuel zero zero offset out block h k = refl
parse_loop_fuel (suc f) (suc g) offset out [] h k = refl
parse_loop_fuel (suc f) zero offset out [] h k = refl
parse_loop_fuel zero (suc g) offset out [] h k = refl
parse_loop_fuel zero (suc g) offset out (b ∷ block) h k = absurd (omega arith)
parse_loop_fuel (suc f) zero offset out (b ∷ block) h k = absurd (omega arith)
parse_loop_fuel (suc f) (suc g) offset out (b ∷ block) h k =
    elim (Result-cases (parse_header offset (b ∷ block))) [
      | inr (e, q) ↦ rw (q, parse_loop)
      | inl ((x, rest), q) ↦
          rw (q, parse_loop)
            (parse_loop_fuel f g _ (out ++ x ∷ []) rest
              (omega (
                arith,
                rw q at (Shrinks-parse_header offset (b ∷ block)),
                length-drop 2 (b ∷ block),
              ))
              (omega (
                arith,
                rw q at (Shrinks-parse_header offset (b ∷ block)),
                length-drop 2 (b ∷ block),
              )))
    ]

-- Any fuel from the length of the block on gives the result of `parse_headers`.
pub parse_headers_fuel :
    (fuel : ℕ) (block : Bytes)
    → length block ≤ fuel
    → parse_loop fuel 0 [] block ≡ parse_headers block
unfolding parse_headers
parse_headers_fuel fuel block h = parse_loop_fuel fuel (length block) 0 [] block h (omega arith)
