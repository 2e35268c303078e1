-- ===== src/Eventstream/Frame/Cases.antt =====
-- The ways in which `next_frame` can go, as a relation.
use kiro_trust.Prelude.{
  ℕ, ◌≤◌, ◌<◌, ◌≡◌, Option, none, some, length, take, ltb, ltb→lt, ltb→le, le→ltb, lt→ltb, Result,
  ok, err, Result-cases, Bool-cases, inl, inr,
}
use kiro_trust.Text.{Bytes}
use kiro_trust.Eventstream.Header.{FrameError}
use kiro_trust.Eventstream.Frame.{Frame, check_prelude, read_frame, frame_at, prelude_len}

module _ (hash : Bytes → ℕ) where
  pub data FrameAt (buffered : Bytes) : Result (Option (Frame × ℕ)) FrameError → Type 0 where
    short : length buffered < prelude_len → FrameAt buffered (ok none)
    bad_prelude :
        {e : FrameError}
        → prelude_len ≤ length buffered
        → check_prelude hash buffered ≡ err e
        → FrameAt buffered (err e)
    partial :
        {total headers_len : ℕ}
        → prelude_len ≤ length buffered
        → check_prelude hash buffered ≡ ok (total, headers_len)
        → length buffered < total
        → FrameAt buffered (ok none)
    bad_frame :
        {total headers_len : ℕ} {e : FrameError}
        → prelude_len ≤ length buffered
        → check_prelude hash buffered ≡ ok (total, headers_len)
        → total ≤ length buffered
        → read_frame hash total headers_len (take total buffered) ≡ err e
        → FrameAt buffered (err e)
    whole :
        {total headers_len : ℕ} {frame : Frame}
        → prelude_len ≤ length buffered
        → check_prelude hash buffered ≡ ok (total, headers_len)
        → total ≤ length buffered
        → read_frame hash total headers_len (take total buffered) ≡ ok frame
        → FrameAt buffered (ok (some (frame, total)))

  pub frame_at-FrameAt : (buffered : Bytes) → FrameAt buffered (frame_at hash buffered)
  unfolding frame_at
  frame_at-FrameAt buffered = elim (Bool-cases (ltb (length buffered) prelude_len)) [
    | inl few ↦ rw few (short (ltb→lt _ _ few))
    | inr enough ↦ rw enough (elim (Result-cases (check_prelude hash buffered)) [
      | inr (e, bad) ↦ rw bad (bad_prelude (ltb→le _ _ enough) bad)
      | inl ((total, headers_len), good) ↦
          rw good (elim (Bool-cases (ltb (length buffered) total)) [
            | inl few ↦ rw few (partial (ltb→le _ _ enough) good (ltb→lt _ _ few))
            | inr all ↦
                rw all
                  (elim (Result-cases (read_frame hash total headers_len (take total buffered))) [
                    | inr (e, bad) ↦
                        rw bad (bad_frame (ltb→le _ _ enough) good (ltb→le _ _ all) bad)
                    | inl (frame, read) ↦
                        rw read (whole (ltb→le _ _ enough) good (ltb→le _ _ all) read)
                  ])
          ])
    ])
  ]

  -- The relation determines the result.
  pub FrameAt-eq :
      {buffered : Bytes} {r : Result (Option (Frame × ℕ)) FrameError}
      → FrameAt buffered r
      → frame_at hash buffered ≡ r
  unfolding frame_at
  FrameAt-eq (short few) = rw (lt→ltb _ _ few)
  FrameAt-eq (bad_prelude enough bad) = rw (le→ltb _ _ enough, bad)
  FrameAt-eq (partial enough good few) = rw (le→ltb _ _ enough, good, lt→ltb _ _ few)
  FrameAt-eq (bad_frame enough good all bad) = rw (le→ltb _ _ enough, good, le→ltb _ _ all, bad)
  FrameAt-eq (whole enough good all read) = rw (le→ltb _ _ enough, good, le→ltb _ _ all, read)
