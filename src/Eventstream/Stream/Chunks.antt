-- ===== src/Eventstream/Stream/Chunks.antt =====
-- The split of a stream into chunks does not matter.
use kiro_trust.Prelude.{
  ℕ, zero, suc, ◌≤◌, ◌≡◌, refl, sym, ap, ◌∙◌, Option, Option-cases, none, some, List, [], ◌∷◌, ◌++◌,
  append-nil, append_assoc, length, length-append, length-drop, drop, drop-append, ok, err,
  Result-cases, inl, inr, arith,
}
use kiro_trust.Text.{Bytes}
use kiro_trust.Eventstream.Header.{FrameError}
use kiro_trust.Eventstream.Frame.{Frame, FrameDecoder, new, push, pending, finish, frame_at}
use kiro_trust.Eventstream.Frame.Cases.{short, FrameAt-eq}
use kiro_trust.Eventstream.Frame.Bounds.{frame_at_bounds}
use kiro_trust.Eventstream.Frame.Stable.{frame_at-append}
use kiro_trust.Eventstream.Stream.Views.{
  IsValid, view-push, push-IsValid, pending-view, Agrees, drain-Agrees, drain-waits,
}
use kiro_trust.Eventstream.Stream.{
  view, Drained, add_frame, Outcome, flatten, drain, read_stream, decode, conclude, decode_stream,
}

module _ (hash : Bytes → ℕ) where
  frame_at-nil : frame_at hash [] ≡ ok none
  frame_at-nil = FrameAt-eq hash (short (omega arith))

  decode_fuel :
      (f g : ℕ) (xs : Bytes) → length xs ≤ f → length xs ≤ g → decode hash f xs ≡ decode hash g xs
  unfolding decode
  decode_fuel zero zero xs h k = refl
  decode_fuel zero (suc g) [] h k = rw (frame_at-nil, decode)
  decode_fuel (suc f) zero [] h k = rw (frame_at-nil, decode)
  decode_fuel zero (suc g) (x ∷ xs) h k = absurd (omega arith)
  decode_fuel (suc f) zero (x ∷ xs) h k = absurd (omega arith)
  decode_fuel (suc f) (suc g) xs h k = elim (Result-cases (frame_at hash xs)) [
    | inr (e, q) ↦ rw (q, decode)
    | inl (none, q) ↦ rw (q, decode)
    | inl (some (frame, n), q) ↦
        let b = frame_at_bounds hash xs q in
        rw (q, decode)
          (ap (add_frame frame) (
            decode_fuel f g (drop n xs) (omega (arith, b.at_least, b.received, length-drop n xs))
              (omega (arith, b.at_least, b.received, length-drop n xs))))
  ]

  -- Decoding goes on from what a first part left, unless that part ended in an error.
  abbrev continue : Drained Bytes → (Bytes → Drained Bytes) → Bytes → Drained Bytes
  continue r next ys = elim r.error [
    | some e ↦ record r { left = r.left ++ ys }
    | none ↦ record {
      frames = r.frames ++ (next (r.left ++ ys)).frames;
      error = (next (r.left ++ ys)).error;
      left = (next (r.left ++ ys)).left;
    }
  ]

  continue-add_frame :
      (g h : Bytes → Drained Bytes) (frame : Frame) (r : Drained Bytes) (ys : Bytes)
      → g (r.left ++ ys) ≡ h (r.left ++ ys)
      → add_frame frame (continue r g ys) ≡ continue (add_frame frame r) h ys
  continue-add_frame g h frame r ys e = ground arith

  decode-left : (f : ℕ) (xs : Bytes) → length (decode hash f xs).left ≤ length xs
  unfolding decode
  decode-left zero xs = omega arith
  decode-left (suc f) xs = elim (Result-cases (frame_at hash xs)) [
    | inr (e, q) ↦ rw (q, decode) (omega arith)
    | inl (none, q) ↦ rw (q, decode) (omega arith)
    | inl (some (frame, n), q) ↦
        rw (q, decode) (omega (arith, decode-left f (drop n xs), length-drop n xs))
  ]

  decode-append :
      (f g : ℕ) (xs ys : Bytes)
      → length xs ≤ f
      → length (xs ++ ys) ≤ g
      → decode hash g (xs ++ ys) ≡ continue (decode hash f xs) (decode hash g) ys
  unfolding decode
  decode-append zero g [] ys h k = refl
  decode-append zero g (x ∷ xs) ys h k = absurd (omega arith)
  decode-append (suc f) zero [] [] h k = rw (frame_at-nil, decode)
  decode-append (suc f) zero [] (y ∷ ys) h k = absurd (omega arith)
  decode-append (suc f) zero (x ∷ xs) ys h k = absurd (omega arith)
  decode-append (suc f) (suc g) xs ys h k = elim (Result-cases (frame_at hash xs)) [
    | inr (e, q) ↦ elim (frame_at-append hash xs ys) [
      | inl m ↦ cc
      | inr same ↦ rw (same, q, decode)
    ]
    | inl (none, q) ↦ rw (q, decode)
    | inl (some (frame, n), q) ↦ elim (frame_at-append hash xs ys) [
      | inl m ↦ cc
      | inr same ↦
          let b = frame_at_bounds hash xs q in
          rw (same, q, decode)
            (rw (drop-append n xs ys b.received) (
              ap (add_frame frame) (
                decode-append f g (drop n xs) ys (omega (arith, b.at_least, length-drop n xs)) (
                  omega (
                    arith,
                    b.at_least,
                    b.received,
                    length-drop n xs,
                    length-append (drop n xs) ys,
                    length-append xs ys,
                  )))
              ∙ continue-add_frame (decode hash g) (decode hash (suc g)) frame
                  (decode hash f (drop n xs)) ys
                  (decode_fuel g (suc g) _
                    (omega (
                      arith,
                      b.at_least,
                      b.received,
                      decode-left f (drop n xs),
                      length-drop n xs,
                      length-append (decode hash f (drop n xs)).left ys,
                      length-append xs ys,
                    ))
                    (omega (
                      arith,
                      b.at_least,
                      b.received,
                      decode-left f (drop n xs),
                      length-drop n xs,
                      length-append (decode hash f (drop n xs)).left ys,
                      length-append xs ys,
                    )))))
    ]
  ]

  -- The end of a stream: what waits is no whole frame.
  conclude_left :
      (xs : Bytes)
      → frame_at hash xs ≡ ok none
      → decode_stream hash xs ≡ conclude (record { frames = []; error = none; left = xs })
  unfolding decode_stream decode
  conclude_left xs q =
      rw (decode_fuel (length xs) (suc (length xs)) xs (omega arith) (omega arith)) (rw (q, decode))

  finish-conclude :
      (d : FrameDecoder)
      → ◌≡◌ {A = Outcome}
          ([], finish d)
          (conclude (record { frames = []; error = none; left = view d }))
  unfolding finish
  finish-conclude d = rw (pending-view d)

  -- The outcome of a stream whose first part decodes to `r`.
  abbrev then_stream : Drained Bytes → Bytes → Outcome
  then_stream r ys = elim r.error [
    | some e ↦ (r.frames, err e)
    | none ↦
        (r.frames ++ (decode_stream hash (r.left ++ ys)).0, (decode_stream hash (r.left ++ ys)).1)
  ]

  conclude-continue :
      (g : ℕ) (frames : List Frame) (error : Option FrameError) (left ys : Bytes)
      → decode hash g (left ++ ys) ≡ decode hash (length (left ++ ys)) (left ++ ys)
      → conclude
          (continue (record { frames = frames; error = error; left = left }) (decode hash g) ys)
        ≡ then_stream (record { frames = frames; error = error; left = left }) ys
  unfolding decode_stream
  conclude-continue g frames none left ys e = rw e
  conclude-continue g frames (some x) left ys e = refl

  decode_stream-append :
      (xs ys : Bytes) → decode_stream hash (xs ++ ys) ≡ then_stream (decode hash (length xs) xs) ys
  unfolding decode_stream
  decode_stream-append xs ys =
      let r = decode hash (length xs) xs in
      let g = length (xs ++ ys) in
      rw (decode-append (length xs) g xs ys (omega arith) (omega arith)) (
        conclude-continue g r.frames r.error r.left ys (
          decode_fuel g (length (r.left ++ ys)) (r.left ++ ys)
            (omega
              (arith, decode-left (length xs) xs, length-append r.left ys, length-append xs ys))
            (omega arith)))

  -- What `read_stream` makes of a drained chunk, and the specification of what it decodes to.
  read_step :
      (r : Drained FrameDecoder) (rest : Outcome) (s : Drained Bytes) (ys : Bytes)
      → Agrees hash r s
      → (s.error ≡ none → rest ≡ decode_stream hash (s.left ++ ys))
      → ◌≡◌ {A = Outcome}
          (elim r.error [ some e ↦ (r.frames, err e) | none ↦ (r.frames ++ rest.0, rest.1) ])
          (then_stream s ys)
  read_step r rest s ys a h = elim (Option-cases s.error) [
    | inl q ↦ ground (arith, a.error, a.frames, h q)
    | inr (x, q) ↦ ground (arith, a.error, a.frames)
  ]

  read_stream-decode_stream :
      (chunks : List Bytes) (d : FrameDecoder)
      → IsValid d
      → frame_at hash (view d) ≡ ok none
      → read_stream hash d chunks ≡ decode_stream hash (view d ++ flatten chunks)
  unfolding read_stream
  read_stream-decode_stream [] d v q =
      finish-conclude d ∙ sym (conclude_left (view d) q) ∙ rw append-nil
  read_stream-decode_stream (chunk ∷ chunks) d v q =
      let d' = push d chunk in
      let v' = push-IsValid d chunk v in
      let r = drain hash (pending d') d' in
      let a = drain-Agrees hash (pending d') d' v' in
      let a' : Agrees hash r (decode hash (length (view d ++ chunk)) (view d ++ chunk)) =
        rw (← view-push d chunk v, ← pending-view d') a in
      read_step r _ _ (flatten chunks) a' (λ e. rw (← a'.left) (
        read_stream-decode_stream chunks r.left a'.valid (drain-waits hash d' v' (a'.error ∙ e)).0))
      ∙ sym (decode_stream-append (view d ++ chunk) (flatten chunks))
      ∙ rw append_assoc

  -- However the bytes of a stream are split into chunks, the decoder hands out the frames, and ends
  -- with the error or the verdict, of decoding all the bytes at once.
  pub chunks_irrelevant :
      (chunks : List Bytes) → read_stream hash new chunks ≡ decode_stream hash (flatten chunks)
  chunks_irrelevant chunks = read_stream-decode_stream chunks new (omega arith) frame_at-nil
