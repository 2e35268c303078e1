-- ===== src/Upstream.antt =====
-- The errors of the upstream and their classification (crates/kiro-trust-kiro/src/error.rs).
pub mod Client
mod Tests
use kiro_trust.Prelude.{
  ℕ, ◌+◌, ◌-◌, Bool, true, false, not, ◌&&◌, ◌||◌, Option, none, some, List, [], ◌∷◌, ◌++◌, leb,
  ◌==◌, if◌then◌else◌,
}
use kiro_trust.Text.{Text, Bytes, codes, text_eq}
use kiro_trust.Text.Search.{is_empty, strip_prefix}
use kiro_trust.Json.{SerdeJson}
use kiro_trust.Sanitize.{cap, max_message_bytes, scrub_identifiers}

pub data UpstreamErrorKind : Type 0 where
  auth throttled model_capacity allowance_exhausted : UpstreamErrorKind
  server transport protocol client : UpstreamErrorKind

-- A delay is in nanoseconds.
pub record UpstreamError : Type 0 where
  pub kind : UpstreamErrorKind
  pub status : Option ℕ
  pub exception_type : Option Text
  pub attempts : ℕ
  pub retry_after : Option ℕ
  pub message : Text

-- `UpstreamError::new`
unfoldable pub upstream_error :
    UpstreamErrorKind → Option ℕ → Option Text → ℕ → Option ℕ → Text → UpstreamError
upstream_error kind status exception_type attempts retry_after message = record {
  kind = kind;
  status = status;
  exception_type = exception_type;
  attempts = attempts;
  retry_after = retry_after;
  message = cap message max_message_bytes;
}

abbrev pub capacity_marker : Bytes
capacity_marker = codes "INSUFFICIENT_MODEL_CAPACITY"

abbrev pub allowance_marker : Bytes
allowance_marker = codes "MONTHLY_REQUEST_COUNT"

abbrev starts_with : Bytes → Bytes → Bool
starts_with marker body = elim (strip_prefix marker body) [ none ↦ false | some _ ↦ true ]

-- `windows(marker.len()).any(..)`, for a marker that is not empty
unfoldable pub contains : Bytes → Bytes → Bool
unfolding strip_prefix
contains [] marker = false
contains (b ∷ body) marker = starts_with marker (b ∷ body) || contains body marker

abbrev pub is_allowance_exhausted : Bytes → Bool
is_allowance_exhausted body = contains body allowance_marker

abbrev pub has_capacity_marker : Bytes → Bool
has_capacity_marker body = contains body capacity_marker

unfoldable pub classify_throttle : ℕ → Bytes → UpstreamErrorKind
classify_throttle status body =
    if has_capacity_marker body
    then model_capacity
    else if is_allowance_exhausted body
    then allowance_exhausted
    else if status == 429
    then throttled
    else server

-- `split(c).next()`
unfoldable pub before_first : ℕ → Text → Text
before_first c [] = []
before_first c (d ∷ s) = let rest = before_first c s in if d == c then [] else d ∷ rest

abbrev or_else : Text → Option Text → Text
or_else d none = d
or_else d (some s) = s

-- What stands behind the last `c`, if there is one.
unfoldable pub behind_last : ℕ → Text → Option Text
behind_last c [] = none
behind_last c (d ∷ s) = elim (behind_last c s) [
  | some t ↦ some t
  | none ↦ if d == c then some s else none
]

unfoldable pub normalize_exception_type : Text → Text
unfolding before_first behind_last
normalize_exception_type raw = before_first 0x3A (or_else raw (behind_last 0x23 raw))

abbrev pub is_retryable_exception : Text → Bool
is_retryable_exception t =
    text_eq t (codes "ThrottlingException")
    || text_eq t (codes "TooManyRequestsException")
    || text_eq t (codes "ServiceUnavailableException")
    || text_eq t (codes "InternalServerException")
    || text_eq t (codes "InternalFailureException")
    || text_eq t (codes "InternalServerError")

-- `char::is_whitespace`
abbrev is_whitespace : ℕ → Bool
is_whitespace c =
    leb 0x09 c && leb c 0x0D
    || c == 0x20
    || c == 0x85
    || c == 0xA0
    || c == 0x1680
    || leb 0x2000 c && leb c 0x200A
    || c == 0x2028
    || c == 0x2029
    || c == 0x202F
    || c == 0x205F
    || c == 0x3000

unfoldable pub trim_start : Text → Text
trim_start [] = []
trim_start (c ∷ s) = let rest = trim_start s in if is_whitespace c then rest else c ∷ s

unfoldable pub trim_end : Text → Text
trim_end [] = []
trim_end (c ∷ s) =
    let rest = trim_end s in if is_whitespace c && is_empty rest then [] else c ∷ rest

abbrev to_lower : ℕ → ℕ
to_lower c = if leb 0x41 c && leb c 0x5A then c + 0x20 else c

unfoldable pub eq_ignore_ascii_case : Text → Text → Bool
eq_ignore_ascii_case [] [] = true
eq_ignore_ascii_case (c ∷ s) (d ∷ t) = to_lower c == to_lower d && eq_ignore_ascii_case s t
eq_ignore_ascii_case _ _ = false

unfoldable pub is_event_stream_content_type : Text → Bool
unfolding before_first trim_start trim_end eq_ignore_ascii_case
is_event_stream_content_type ct =
    eq_ignore_ascii_case (trim_end (trim_start (before_first 0x3B ct)))
      (codes "application/vnd.amazon.eventstream")

module _ (json : SerdeJson) where
  open json use {Value, from_slice, get, as_str}

  abbrev nonempty_string : Text → Value → Option Text
  nonempty_string key v = elim (get key v) [
    | none ↦ none
    | some x ↦ elim (as_str x) [ none ↦ none | some s ↦ if is_empty s then none else some s ]
  ]

  abbrev or_ : Option Text → Option Text → Option Text
  or_ (some s) o = some s
  or_ none o = o

  unfoldable pub parse_exception_type : Bytes → Option Text
  unfolding normalize_exception_type
  parse_exception_type body = elim (from_slice body) [
    | none ↦ none
    | some v ↦
        elim (or_ (nonempty_string (codes "__type") v)
          (or_ (nonempty_string (codes "type") v) (nonempty_string (codes "code") v))) [
            | none ↦ none
            | some raw ↦ some (normalize_exception_type raw)
          ]
  ]

  abbrev raw_message : Option Value → Text
  raw_message none = []
  raw_message (some v) = elim (get (codes "message") v) [
    | none ↦ []
    | some x ↦ or_else [] (as_str x)
  ]

  unfoldable pub parse_exception_message : Bytes → Text
  parse_exception_message body = scrub_identifiers (raw_message (from_slice body))
