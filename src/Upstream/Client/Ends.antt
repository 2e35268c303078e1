-- ===== src/Upstream/Client/Ends.antt =====
-- The loop of retries ends, and what it reports.
use kiro_trust.Prelude.{
  ℕ, zero, suc, ◌+◌, ◌≤◌, ◌≡◌, refl, ap, ◌∙◌, Bool, true, false, not, ◌&&◌, Option, none, some,
  List, [], ◌∷◌, leb, ◌==◌, if◌then◌else◌, if_both, if_true, if_false, Result, ok, err, arith,
}
use kiro_trust.Text.{Text, Bytes}
use kiro_trust.Text.Utf8.{len}
use kiro_trust.Json.{SerdeJson}
use kiro_trust.Sanitize.{max_message_bytes}
use kiro_trust.Sanitize.Cap.{cap-Longest}
use kiro_trust.Upstream.{
  protocol, UpstreamErrorKind, auth, allowance_exhausted, is_allowance_exhausted,
  has_capacity_marker, UpstreamError, upstream_error, is_event_stream_content_type,
  classify_throttle, parse_exception_type,
}
use kiro_trust.Upstream.Client.{
  max_attempts, RetryDelay, fallback, wait, stop, retry_after, Response, Post, responded,
  redirected, failed, Token, valid, refused, unfit, Round, body_or_empty, Verdict, answers, retries,
  reauthenticates, is_server_error, kind_of_body, is_retryable, is_allowance, error_of,
  on_exception_body, on_body, on_ok, on_forbidden, delayed, on_server_error, on_other, on_response,
  on_post, before_post, Action, posts, sleeps, invalidates, Answer, follow, unless, generate_loop,
  generate,
}

abbrev pub posted : List Action → ℕ
posted [] = 0
posted (posts n ∷ as_) = suc (posted as_)
posted (sleeps d ∷ as_) = posted as_
posted (invalidates ∷ as_) = posted as_

abbrev pub invalidated : List Action → ℕ
invalidated [] = 0
invalidated (posts n ∷ as_) = invalidated as_
invalidated (sleeps d ∷ as_) = invalidated as_
invalidated (invalidates ∷ as_) = suc (invalidated as_)

-- A stream, or an error with a message of at most 1 KiB, reports so many attempts.
abbrev pub Reports : ℕ → Result ℕ UpstreamError → Type 0
Reports n (ok attempts) = attempts ≡ n
Reports n (err e) = (e.attempts ≡ n) × (len e.message ≤ max_message_bytes)

Reports-upstream_error :
    (kind : UpstreamErrorKind) (status : Option ℕ) (t : Option Text) (n : ℕ) (d : Option ℕ)
    (m : Text)
    → Reports n (err (upstream_error kind status t n d m))
unfolding upstream_error
Reports-upstream_error kind status t n d m = (refl, (cap-Longest m max_message_bytes).fits)

-- What a verdict may be: the last attempt is answered.
abbrev Allowed : ℕ → Bool → Bool → Verdict → Type 0
Allowed n last refreshed (answers r) = Reports n r
Allowed n last refreshed (retries d) = last ≡ false
Allowed n last refreshed reauthenticates = (last ≡ false) × (refreshed ≡ false)

not_and : (a b : Bool) → (a && not b) ≡ true → b ≡ false
not_and a b h = ground arith

nots : (a b : Bool) → (not a && not b) ≡ true → (b ≡ false) × (a ≡ false)
nots a b h = ground arith

negated : (b : Bool) → not b ≡ true → b ≡ false
negated b h = ground arith

module _ (json : SerdeJson) (date : Text → Option ℕ) where
  module _ (n : ℕ) (last refreshed : Bool) where
    abbrev Fine : Verdict → Type 0
    Fine = Allowed n last refreshed

    Fine-error_of :
        (kind : UpstreamErrorKind) (status : ℕ) (d : Option ℕ) (raw : Bytes)
        → Fine (error_of json date kind status n d raw)
    Fine-error_of kind status d raw = Reports-upstream_error kind (some status) _ n d _

    Fine-on_body : (b : Result Bytes Text) → Fine (on_body json date n last b)
    unfolding on_exception_body
    Fine-on_body (err message) = Reports-upstream_error _ none none n none message
    Fine-on_body (ok raw) =
        let ex = parse_exception_type json raw in
        let kind = kind_of_body ex raw in
        if_both Fine (is_retryable kind ex && not last) (retries none)
          (error_of json date kind 200 n none raw) (λ h. not_and (is_retryable kind ex) last h)
          (λ _. Fine-error_of kind 200 none raw)

    Fine-on_forbidden : Fine (on_forbidden json date n last refreshed)
    unfolding on_forbidden
    Fine-on_forbidden =
        if_both Fine (not refreshed && not last) reauthenticates _ (λ h. nots refreshed last h)
          (λ _. Reports-upstream_error _ (some 403) none n none _)

    Fine-delayed :
        (status : ℕ) (kind : UpstreamErrorKind) (raw : Bytes) (d : RetryDelay)
        → Fine (delayed json date status n last kind raw d)
    Fine-delayed status kind raw (stop d) = Fine-error_of kind status d raw
    Fine-delayed status kind raw (wait d) =
        if_both Fine (not last) (retries (some d)) _ (λ h. negated last h)
          (λ _. Fine-error_of kind status none raw)
    Fine-delayed status kind raw fallback =
        if_both Fine (not last) (retries none) _ (λ h. negated last h)
          (λ _. Fine-error_of kind status none raw)

    Fine-on_server_error : (r : Response) → Fine (on_server_error json date n last r)
    unfolding on_server_error
    Fine-on_server_error r =
        let raw = body_or_empty r.body in
        let kind = classify_throttle r.status raw in
        if_both Fine (is_allowance kind) (error_of json date kind r.status n none raw)
          (delayed json date r.status n last kind raw (retry_after date r.retry))
          (λ _. Fine-error_of kind r.status none raw)
          (λ _. Fine-delayed r.status kind raw (retry_after date r.retry))

    Fine-on_response : (r : Response) → Fine (on_response json date n last refreshed r)
    unfolding on_response on_ok on_other
    Fine-on_response r =
        if_both Fine (r.status == 200) _ _
          (λ _.
            if_both Fine (is_event_stream_content_type _) (answers (ok n)) _ (λ _. refl)
              (λ _. Fine-on_body r.body))
          λ _.
            if_both Fine (r.status == 403) _ _ (λ _. Fine-on_forbidden)
              λ _.
                if_both Fine (is_server_error r.status) _ _ (λ _. Fine-on_server_error r)
                  (λ _. Fine-error_of _ r.status none _)

    Fine-on_post : (p : Post) → Fine (on_post json date n last refreshed p)
    unfolding on_post
    Fine-on_post (responded r) = Fine-on_response r
    Fine-on_post (redirected status) = Reports-upstream_error _ (some status) none n none _
    Fine-on_post (failed message) =
        if_both Fine (not last) (retries none) _ (λ h. negated last h)
          (λ _. Reports-upstream_error _ none none n none message)

  -- The loop from `n` attempts on, with the credential invalidated already or not.
  pub record Ends (n : ℕ) (refreshed : Bool) (a : Answer) : Type 0 where
    pub result : Result ℕ UpstreamError
    pub returns : a.1 ≡ some result
    pub within : n + posted a.0 ≤ max_attempts
    pub reports : Reports (n + posted a.0) result
    pub once : invalidated a.0 ≤ (if refreshed then 0 else 1)

  Ends-follow :
      (n : ℕ) (refreshed : Bool) (again : Bool → Answer) (v : Verdict)
      → suc n ≤ max_attempts
      → Allowed (suc n) (leb max_attempts (suc n)) refreshed v
      → (leb max_attempts (suc n) ≡ false → (b : Bool) → Ends (suc n) b (again b))
      → Ends n refreshed (follow (suc n) refreshed again v)
  Ends-follow n refreshed again (answers r) l a f = record {
    result = r;
    returns = refl;
    within = omega (arith, l);
    reports = let e : n + 1 ≡ suc n = omega arith in rw e a;
    once = omega arith;
  }
  Ends-follow n refreshed again (retries d) l a f =
      let x = f a refreshed in
      let e : n + suc (posted (again refreshed).0) ≡ suc n + posted (again refreshed).0 =
        omega arith in
      record {
        result = x.result;
        returns = x.returns;
        within = omega (arith, x.within);
        reports = rw e x.reports;
        once = x.once;
      }
  Ends-follow n refreshed again reauthenticates l (a, b) f =
      let x = f a true in
      let e : n + suc (posted (again true).0) ≡ suc n + posted (again true).0 = omega arith in
      record {
        result = x.result;
        returns = x.returns;
        within = omega (arith, x.within);
        reports = rw e x.reports;
        once = ground (arith, x.once, b);
      }

  Ends-answer :
      (n : ℕ) (refreshed : Bool) (r : Result ℕ UpstreamError)
      → n ≤ max_attempts
      → Reports n r
      → Ends n refreshed ([], some r)
  Ends-answer n refreshed r l h = record {
    result = r;
    returns = refl;
    within = omega (arith, l);
    reports = let e : n + 0 ≡ n = omega arith in rw e h;
    once = omega arith;
  }

  Ends-unless :
      (n : ℕ) (refreshed : Bool) (o : Option Text) (t : Token) (a : Answer)
      → n ≤ max_attempts
      → Ends n refreshed a
      → Ends n refreshed (unless (before_post n o t) a)
  Ends-unless n refreshed none valid a l x = x
  Ends-unless n refreshed (some m) t a l x =
      Ends-answer n refreshed _ l (Reports-upstream_error auth none none n none m)
  Ends-unless n refreshed none (refused m) a l x =
      Ends-answer n refreshed _ l (Reports-upstream_error auth none none n none m)
  Ends-unless n refreshed none unfit a l x =
      Ends-answer n refreshed _ l (Reports-upstream_error auth none none n none _)

  Ends-generate_loop :
      (env : ℕ → Round) (fuel n : ℕ) (refreshed : Bool)
      → n + suc fuel ≡ max_attempts
      → Ends n refreshed (generate_loop json date env (suc fuel) n refreshed)
  unfolding generate_loop
  Ends-generate_loop env zero n refreshed e =
      let s : n + 1 ≡ suc n = omega arith in
      rw s (
        Ends-unless n refreshed (env n).identity (env n).token _ (omega (arith, e)) (
          Ends-follow n refreshed (generate_loop json date env zero (suc n)) _ (omega (arith, e))
            (Fine-on_post (suc n) (leb max_attempts (suc n)) refreshed (env n).post)
            (λ h b. absurd (ground (arith, e)))))
  Ends-generate_loop env (suc fuel) n refreshed e =
      let s : n + 1 ≡ suc n = omega arith in
      rw s (
        Ends-unless n refreshed (env n).identity (env n).token _ (omega (arith, e)) (
          Ends-follow n refreshed (generate_loop json date env (suc fuel) (suc n)) _
            (omega (arith, e))
            (Fine-on_post (suc n) (leb max_attempts (suc n)) refreshed (env n).post)
            (λ h b. Ends-generate_loop env fuel (suc n) b (omega (arith, e)))))

  -- Whether the payload can be serialised or not, and whatever the credentials and the network
  -- answer: the call returns, after at most three
  -- requests; the stream or the error that it returns reports as many attempts as requests were
  -- sent; an error's message has at most 1 KiB; and the credential is invalidated at most once.
  pub generate-Ends :
      (unserialised : Option Text) (env : ℕ → Round)
      → Ends 0 false (generate json date unserialised env)
  unfolding generate
  generate-Ends none env = Ends-generate_loop env 2 0 false refl
  generate-Ends (some message) env = record {
    result = err (upstream_error protocol none none 0 none message);
    returns = refl;
    within = omega arith;
    reports = Reports-upstream_error protocol none none 0 none message;
    once = omega arith;
  }

  -- A response other than a 200 or a 403 whose body has the allowance marker, and not that of
  -- capacity, is answered with that error at once: it is not retried, on whatever attempt, and
  -- whatever its `retry-after` says.
  pub allowance_not_retried :
      (n : ℕ) (last refreshed : Bool) (r : Response)
      → (r.status == 200) ≡ false
      → (r.status == 403) ≡ false
      → is_allowance_exhausted (body_or_empty r.body) ≡ true
      → has_capacity_marker (body_or_empty r.body) ≡ false
      → on_response json date n last refreshed r
        ≡ error_of json date allowance_exhausted r.status n none (body_or_empty r.body)
  unfolding on_response on_server_error classify_throttle on_other
  allowance_not_retried n last refreshed r a b c d =
      let kind : UpstreamErrorKind → Verdict =
        λ k. error_of json date k r.status n none (body_or_empty r.body) in
      let e : classify_throttle r.status (body_or_empty r.body) ≡ allowance_exhausted =
        if_false (has_capacity_marker (body_or_empty r.body)) _ _ d
        ∙ if_true (is_allowance_exhausted (body_or_empty r.body)) _ _ c in
      if_false (r.status == 200) _ _ a
      ∙ if_false (r.status == 403) _ _ b
      ∙ if_both (λ (v : Verdict). v ≡ kind allowance_exhausted) (is_server_error r.status) _ _
          (λ _.
            ap
              (λ (k : UpstreamErrorKind).
                if is_allowance k
                then kind k
                else delayed json date r.status n last k (body_or_empty r.body)
                    (retry_after date r.retry))
              e)
          (λ _. ap kind (if_true _ _ _ c))
