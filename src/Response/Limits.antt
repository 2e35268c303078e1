-- ===== src/Response/Limits.antt =====
-- Stop sequences and the token budget of a response
-- (crates/kiro-trust-protocol/src/translate/response.rs).
use kiro_trust.Prelude.{
  ℕ, ◌+◌, ◌-◌, ◌*◌, ◌/◌, min, max, Bool, true, false, not, ◌&&◌, Option, none, some, List, [], ◌∷◌,
  ◌++◌, length, take, drop, if◌then◌else◌, ltb, leb, ◌==◌,
}
use kiro_trust.Text.{Text}
use kiro_trust.Text.Search.{is_empty, find_split}
use kiro_trust.Anthropic.{StopReason, max_tokens, stop_sequence}

abbrev pub absolute_max_tokens : ℕ
absolute_max_tokens = 2000000

abbrev pub LocalStop : Type 0
LocalStop = Option (StopReason × Option Text)

-- The fields of the translator that are limits, and the option `max_tokens`.
pub record Limits : Type 0 where
  pub max_tokens : ℕ
  pub local_stop : LocalStop
  pub stop_sequences : List Text
  pub stop_max_keep : ℕ
  pub stop_pending : Text
  pub output_chars : ℕ

unfoldable pub keep_nonempty : List Text → List Text
keep_nonempty [] = []
keep_nonempty (s ∷ ss) = let rest = keep_nonempty ss in if is_empty s then rest else s ∷ rest

-- The largest `chars().count() - 1`, or 0.
unfoldable pub max_keep : List Text → ℕ
max_keep [] = 0
max_keep (s ∷ ss) = max (length s - 1) (max_keep ss)

unfoldable pub new_limits : ℕ → List Text → Limits
unfolding keep_nonempty max_keep
new_limits requested sequences = record {
  max_tokens = requested;
  local_stop = none;
  stop_sequences = keep_nonempty sequences;
  stop_max_keep = max_keep (keep_nonempty sequences);
  stop_pending = [];
  output_chars = 0;
}

abbrev pub is_latched : Limits → Bool
is_latched l = elim l.local_stop [ none ↦ false | some _ ↦ true ]

unfoldable pub latch : StopReason → Option Text → Limits → Limits
latch reason seq l = elim l.local_stop [
  | none ↦ record l { local_stop = some (reason, seq) }
  | some _ ↦ l
]

unfoldable pub effective_max_tokens : Limits → ℕ
effective_max_tokens l =
    if l.max_tokens == 0 then absolute_max_tokens else min l.max_tokens absolute_max_tokens

unfoldable pub apply_max_tokens : Text → Limits → Text × Limits
unfolding latch
apply_max_tokens delta l =
    let budget = effective_max_tokens l in
    let n = length delta in
    let remaining = budget * 4 - l.output_chars in
    let counted = record l { output_chars = l.output_chars + n } in
    if ltb ((l.output_chars + n) / 4) budget
    then (delta, counted)
    else if remaining == 0
    then ([], latch max_tokens none l)
    else if ltb remaining n
    then (
      take remaining delta,
      latch max_tokens none (record l { output_chars = l.output_chars + remaining }),
    )
    else (
      delta,
      if leb budget (counted.output_chars / 4) then latch max_tokens none counted else counted,
    )

unfoldable pub account_opaque : Text → Limits → Limits
unfolding latch
account_opaque content l =
    let counted = record l { output_chars = l.output_chars + length content } in
    if not (is_latched l) && leb (effective_max_tokens l) (counted.output_chars / 4)
    then latch max_tokens none counted
    else counted

-- The first sequence of the list that occurs, with the text before it.
unfoldable pub find_stop : List Text → Text → Option (Text × Text)
find_stop [] pending = none
find_stop (s ∷ ss) pending = elim (find_split s pending) [
  | some (before, _) ↦ some (s, before)
  | none ↦ find_stop ss pending
]

unfoldable pub apply_stop_filter : Text → Limits → Text × Limits
unfolding latch find_stop
apply_stop_filter delta l =
    let pending = l.stop_pending ++ delta in
    elim (find_stop l.stop_sequences pending) [
      | some (s, before) ↦ (before, latch stop_sequence (some s) (record l { stop_pending = [] }))
      | none ↦
          let count = length pending in
          if leb count l.stop_max_keep then ([], record l { stop_pending = pending }) else (
            take (count - l.stop_max_keep) pending,
            record l { stop_pending = drop (count - l.stop_max_keep) pending },
          )
    ]

-- `take_text` without the append to `text`
unfoldable pub limit_text : Text → Limits → Text × Limits
limit_text text_out l =
    let (out, l') =
      if is_empty l.stop_sequences then (text_out, l) else apply_stop_filter text_out l in
    if not (is_empty out) && not (is_latched l') then apply_max_tokens out l' else (out, l')
