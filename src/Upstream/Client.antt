-- ===== src/Upstream/Client.antt =====
-- The retries of one request: `KiroClient::generate_inner` (crates/kiro-trust-kiro/src/client.rs).
-- What the credentials and the network answer at each round of the loop is a parameter.
pub mod Ends
use kiro_trust.Prelude.{
  ℕ, zero, suc, ◌+◌, ◌-◌, ◌*◌, Bool, true, false, not, ◌&&◌, ◌||◌, Option, none, some, List, [],
  ◌∷◌, ◌++◌, leb, ◌==◌, if◌then◌else◌, Result, ok, err, u64_max,
}
use kiro_trust.Text.{Text, Bytes, codes, text_eq}
use kiro_trust.Text.Search.{is_empty}
use kiro_trust.Json.{SerdeJson}
use kiro_trust.Upstream.{
  UpstreamErrorKind, auth, throttled, model_capacity, allowance_exhausted, server, transport,
  protocol, client, UpstreamError, upstream_error, has_capacity_marker, is_allowance_exhausted,
  classify_throttle, is_retryable_exception, is_event_stream_content_type, parse_exception_type,
  parse_exception_message,
}

abbrev pub max_attempts : ℕ
max_attempts = 3

-- A delay is in nanoseconds.
pub data RetryDelay : Type 0 where
  fallback : RetryDelay
  wait : (delay : ℕ) → RetryDelay
  stop : (delay : Option ℕ) → RetryDelay

unfoldable pub retry_delay : ℕ → RetryDelay
retry_delay delay = if leb delay (60 * 1000000000) then wait delay else stop (some delay)

abbrev digits_only : Text → Bool
digits_only [] = true
digits_only (c ∷ s) = leb 0x30 c && leb c 0x39 && digits_only s

-- The value of decimal digits.
unfoldable pub decimal : ℕ → Text → ℕ
decimal n [] = n
decimal n (c ∷ s) = decimal (n * 10 + (c - 0x30)) s

-- `retry_after` on the header's value, as far as it is a string; `date` is what
-- `httpdate::parse_http_date` and `duration_since` make of another value.
unfoldable pub retry_after : (Text → Option ℕ) → Option Text → RetryDelay
unfolding retry_delay decimal
retry_after date none = fallback
retry_after date (some value) =
    if not (is_empty value) && digits_only value
    then (if leb (decimal 0 value) u64_max
        then retry_delay (decimal 0 value * 1000000000)
        else stop none)
    else (elim (date value) [ none ↦ fallback | some delay ↦ retry_delay delay ])

-- A response: the body, read up to its limit, or the text of the error that reading it met.
pub record Response : Type 0 where
  pub status : ℕ
  pub content_type : Option Text
  pub retry : Option Text
  pub body : Result Bytes Text

pub data Post : Type 0 where
  responded : Response → Post
  redirected : (status : ℕ) → Post
  failed : (message : Text) → Post

-- The token's header value; `with_token` can fail, and the token can be no header value.
pub data Token : Type 0 where
  valid : Token
  refused : (message : Text) → Token
  unfit : Token

-- The answers that one round of the loop gets, as far as it asks for them; `identity` is the text
-- of an error.
pub record Round : Type 0 where
  pub identity : Option Text
  pub token : Token
  pub post : Post

-- What the code behind a response decides: to answer, to go round after a delay (`none` is the
-- backoff), or to go round with a new credential.
pub data Verdict : Type 0 where
  answers : Result ℕ UpstreamError → Verdict
  retries : Option ℕ → Verdict
  reauthenticates : Verdict

abbrev pub body_or_empty : Result Bytes Text → Bytes
body_or_empty (ok b) = b
body_or_empty (err _) = []

abbrev pub is_server_error : ℕ → Bool
is_server_error status = status == 429 || leb 500 status && leb status 599

abbrev is_throttling : Text → Bool
is_throttling t =
    text_eq t (codes "ThrottlingException") || text_eq t (codes "TooManyRequestsException")

-- The kind of a 200 that is no event stream.
unfoldable pub kind_of_body : Option Text → Bytes → UpstreamErrorKind
kind_of_body none raw = protocol
kind_of_body (some t) raw =
    if has_capacity_marker raw
    then model_capacity
    else if is_allowance_exhausted raw
    then allowance_exhausted
    else if is_throttling t
    then throttled
    else if is_retryable_exception t
    then server
    else client

abbrev is_capacity : UpstreamErrorKind → Bool
is_capacity model_capacity = true
is_capacity _ = false

abbrev pub is_allowance : UpstreamErrorKind → Bool
is_allowance allowance_exhausted = true
is_allowance _ = false

abbrev is_some_retryable : Option Text → Bool
is_some_retryable none = false
is_some_retryable (some t) = is_retryable_exception t

-- What comes before the request: the identity, and the headers with the token.
abbrev pub before_post : ℕ → Option Text → Token → Option UpstreamError
before_post attempts (some message) token =
    some (upstream_error auth none none attempts none message)
before_post attempts none valid = none
before_post attempts none (refused message) =
    some (upstream_error auth none none attempts none message)
before_post attempts none unfit =
    some (upstream_error auth none none attempts none (codes "token is not a valid header value"))

-- What the loop does to the outside, in order.
pub data Action : Type 0 where
  posts : (request_attempt : ℕ) → Action
  sleeps : Option ℕ → Action
  invalidates : Action

abbrev pub Answer : Type 0
Answer = List Action × Option (Result ℕ UpstreamError)

abbrev pub after : List Action → Answer → Answer
after as_ (bs, r) = (as_ ++ bs, r)

-- What follows a verdict: `again` is the loop with the credential invalidated or not.
abbrev pub follow : ℕ → Bool → (Bool → Answer) → Verdict → Answer
follow sent refreshed again (answers r) = (posts sent ∷ [], some r)
follow sent refreshed again (retries delay) =
    after (posts sent ∷ sleeps delay ∷ []) (again refreshed)
follow sent refreshed again reauthenticates = after (posts sent ∷ invalidates ∷ []) (again true)

abbrev pub unless : Option UpstreamError → Answer → Answer
unless (some e) a = ([], some (err e))
unless none a = a

abbrev pub is_retryable : UpstreamErrorKind → Option Text → Bool
is_retryable kind ex = is_capacity kind || not (is_allowance kind) && is_some_retryable ex

module _ (json : SerdeJson) (date : Text → Option ℕ) where
  abbrev pub error_of : UpstreamErrorKind → ℕ → ℕ → Option ℕ → Bytes → Verdict
  error_of kind status attempts delay raw = answers (
      err (
        upstream_error kind (some status) (parse_exception_type json raw) attempts delay
          (parse_exception_message json raw)))

  unfoldable pub on_exception_body : ℕ → Bool → Bytes → Verdict
  unfolding kind_of_body
  on_exception_body attempts last raw =
      let ex = parse_exception_type json raw in
      let kind = kind_of_body ex raw in
      if is_retryable kind ex && not last then retries none else error_of kind 200 attempts none raw

  abbrev pub on_body : ℕ → Bool → Result Bytes Text → Verdict
  on_body attempts last (err message) =
      answers (err (upstream_error transport none none attempts none message))
  on_body attempts last (ok raw) = on_exception_body attempts last raw

  unfoldable pub on_ok : ℕ → Bool → Response → Verdict
  unfolding on_exception_body
  on_ok attempts last r =
      if is_event_stream_content_type (elim r.content_type [ none ↦ [] | some ct ↦ ct ])
      then answers (ok attempts)
      else on_body attempts last r.body

  unfoldable pub on_forbidden : ℕ → Bool → Bool → Verdict
  on_forbidden attempts last refreshed =
      if not refreshed && not last
      then reauthenticates
      else answers (
          err (
            upstream_error auth (some 403) none attempts none
              (codes "runtime rejected the credential")))

  abbrev pub delayed : ℕ → ℕ → Bool → UpstreamErrorKind → Bytes → RetryDelay → Verdict
  delayed status attempts last kind raw (stop delay) = error_of kind status attempts delay raw
  delayed status attempts last kind raw (wait delay) =
      if not last then retries (some delay) else error_of kind status attempts none raw
  delayed status attempts last kind raw fallback =
      if not last then retries none else error_of kind status attempts none raw

  unfoldable pub on_server_error : ℕ → Bool → Response → Verdict
  unfolding classify_throttle retry_after
  on_server_error attempts last r =
      let raw = body_or_empty r.body in
      let kind = classify_throttle r.status raw in
      if is_allowance kind
      then error_of kind r.status attempts none raw
      else delayed r.status attempts last kind raw (retry_after date r.retry)

  unfoldable pub on_other : ℕ → Response → Verdict
  on_other attempts r =
      let raw = body_or_empty r.body in
      let kind = if is_allowance_exhausted raw then allowance_exhausted else client in
      error_of kind r.status attempts none raw

  unfoldable pub on_response : ℕ → Bool → Bool → Response → Verdict
  unfolding on_ok on_forbidden on_server_error on_other
  on_response attempts last refreshed r =
      if r.status == 200
      then on_ok attempts last r
      else if r.status == 403
      then on_forbidden attempts last refreshed
      else if is_server_error r.status
      then on_server_error attempts last r
      else on_other attempts r

  unfoldable pub on_post : ℕ → Bool → Bool → Post → Verdict
  unfolding on_response
  on_post attempts last refreshed (responded r) = on_response attempts last refreshed r
  on_post attempts last refreshed (redirected status) =
      answers (
        err (upstream_error transport (some status) none attempts none (codes "redirect rejected")))
  on_post attempts last refreshed (failed message) =
      if not last
      then retries none
      else answers (err (upstream_error transport none none attempts none message))

  -- The loop: the rounds of the outside, fuel, the attempts so far, and whether the credential has
  -- been invalidated. `none` is for want of fuel; `max_attempts` rounds are enough. A 32-bit number
  -- of attempts does not saturate at 3.
  unfoldable pub generate_loop : (ℕ → Round) → ℕ → ℕ → Bool → Answer
  unfolding on_post
  generate_loop env zero attempts refreshed = ([], none)
  generate_loop env (suc fuel) attempts refreshed =
      let sent = attempts + 1 in
      let again = generate_loop env fuel sent in
      unless (before_post attempts (env attempts).identity (env attempts).token) (
        follow sent refreshed again
          (on_post sent (leb max_attempts sent) refreshed (env attempts).post))

  abbrev serialised : Option Text → Option UpstreamError
  serialised none = none
  serialised (some message) = some (upstream_error protocol none none 0 none message)

  -- `unserialised` is the error of `serde_json::to_vec` on the payload, if there is one.
  unfoldable pub generate : Option Text → (ℕ → Round) → Answer
  unfolding generate_loop
  generate unserialised env =
      unless (serialised unserialised) (generate_loop env max_attempts 0 false)
