-- ===== src/Eventstream/Frame/Stable.antt =====
-- What has been decided does not change when more bytes arrive.
use kiro_trust.Prelude.{
  ℕ, ◌≤◌, ◌≡◌, refl, Option, none, ◌++◌, ◌⊎◌, inl, inr, length, length-append, take-append,
  slice-append, Result, ok, arith, ◌∙◌,
}
use kiro_trust.Text.{Bytes}
use kiro_trust.Eventstream.Header.{FrameError}
use kiro_trust.Eventstream.Frame.Cases.{
  FrameAt, short, bad_prelude, partial, bad_frame, whole, frame_at-FrameAt, FrameAt-eq,
}
use kiro_trust.Eventstream.Frame.{Frame, check_prelude, frame_at, prelude_len}

module _ (hash : Bytes → ℕ) where
  check_prelude-append :
      (xs ys : Bytes)
      → prelude_len ≤ length xs
      → check_prelude hash (xs ++ ys) ≡ check_prelude hash xs
  unfolding check_prelude
  check_prelude-append xs ys h = rw (
    slice-append 0 4 xs ys (omega arith),
    slice-append 4 4 xs ys (omega arith),
    slice-append 8 4 xs ys (omega arith),
    slice-append 0 8 xs ys (omega arith),
  )

  FrameAt-append :
      {xs : Bytes} {r : Result (Option (Frame × ℕ)) FrameError} (ys : Bytes)
      → FrameAt hash xs r
      → (r ≡ ok none) ⊎ FrameAt hash (xs ++ ys) r
  FrameAt-append ys (short _) = inl refl
  FrameAt-append ys (partial _ _ _) = inl refl
  FrameAt-append {xs} ys (bad_prelude enough bad) =
      inr
        (bad_prelude (omega (arith, length-append xs ys)) (check_prelude-append xs ys enough ∙ bad))
  FrameAt-append {xs} ys (bad_frame {total} enough good all bad) = inr (
      bad_frame (omega (arith, length-append xs ys)) (check_prelude-append xs ys enough ∙ good)
        (omega (arith, length-append xs ys)) (rw (take-append total xs ys all) bad))
  FrameAt-append {xs} ys (whole {total} enough good all read) = inr (
      whole (omega (arith, length-append xs ys)) (check_prelude-append xs ys enough ∙ good)
        (omega (arith, length-append xs ys)) (rw (take-append total xs ys all) read))

  -- A frame or an error stays what it is, whatever follows; only "more bytes needed" may change.
  pub frame_at-append :
      (xs ys : Bytes) → (frame_at hash xs ≡ ok none) ⊎ (frame_at hash (xs ++ ys) ≡ frame_at hash xs)
  frame_at-append xs ys = elim (FrameAt-append ys (frame_at-FrameAt hash xs)) [
    | inl more ↦ inl more
    | inr same ↦ inr (FrameAt-eq hash same)
  ]
