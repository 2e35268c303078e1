-- ===== src/Pump/Prime.antt =====
-- `Pump::prime`: the reads before the answer's head is sent
-- (crates/kiro-trust/src/server/pump.rs)
use kiro_trust.Prelude.{
  ℕ, ◌≡◌, refl, Bool, true, false, not, ◌&&◌, ◌||◌, Option, none, some, List, [], ◌∷◌, ◌++◌,
  if◌then◌else◌, if_both, arith, Option-cases, inl, inr, subst,
}
use kiro_trust.Text.{Text, Bytes, codes}
use kiro_trust.Text.Search.{is_empty}
use kiro_trust.Json.{SerdeJson}
use kiro_trust.Eventstream.Header.{FrameError}
use kiro_trust.Eventstream.Events.{EventError}
use kiro_trust.Response.Emitter.{Events}
use kiro_trust.Response.Protocol.Upstream.{IsValid-new}
use kiro_trust.Response.State
use kiro_trust.Response.State.{
  ResponseOptions, ResponseTranslator, UsageSnapshot, Failure, usage_snapshot,
}
use kiro_trust.Response.Push.{latched}
use kiro_trust.Response.Protocol.{Phase, before, accepts, accepts-append}
use kiro_trust.Response.Protocol.Stream.{phase}
use kiro_trust.Upstream.{UpstreamError, transport, upstream_error}
use kiro_trust.Pump.{Pump, Chunk, events, failed, broke, done, Read, events_of, new, next}
use kiro_trust.Pump.Sends.{Ledger, Ledger-new, Call-next}

pub data Primed (V : Type 0) : Type 0 where
  ready : Events V → Primed V
  over : Events V → Primed V
  refused : Failure → Primed V
  severed : UpstreamError → Primed V

-- What the next read gives, and whether it comes before the deadline of 120 seconds.
pub data Wait : Type 0 where
  comes : Read → Wait
  late : Read → Wait

abbrev pub priming_timeout : UpstreamError
priming_timeout =
    upstream_error transport none none 0 none (codes "no output within the 120s priming deadline")

abbrev is_none {ℓ} : {A : Type ℓ} → Option A → Bool
is_none none = true
is_none (some x) = false

-- `next` reads from the stream.
abbrev pub reads_on : Pump → Bool
reads_on p =
    is_none p.translator.failure && is_none p.broken && not (p.ended || latched p.translator)

module _ {V : Type 0} where
  -- The `match` on the chunk; `none` goes on with the loop.
  abbrev pub buffer : Bool → Events V → Events V → Events V
  buffer streaming buffered ev = if streaming then buffered ++ ev else buffered

  abbrev pub deferred : Bool → Events V → Primed V → Option (Primed V)
  deferred streaming out stop =
      if not streaming || is_empty out then some stop else some (ready out)

  abbrev pub on_chunk : Bool → Events V → Chunk V → Pump → Option (Primed V)
  on_chunk streaming out (events ev) p =
      if p.ended || latched p.translator
      then some (over out)
      else if streaming && not (is_empty out)
      then some (ready out)
      else none
  on_chunk streaming out (failed ev f) p = deferred streaming out (refused f)
  on_chunk streaming out (broke ev e) p = deferred streaming out (severed e)
  on_chunk streaming out done p = some (over out)

module _ (json : SerdeJson) (hash : Bytes → ℕ) (fresh : ℕ → Text) (show_frame : FrameError → Text)
    (show_event : EventError → Text) where
  abbrev V : Type 0
  V = json.Value

  abbrev pub time_out : Pump → Primed V × Pump
  time_out p = (severed priming_timeout, record p { broken = some priming_timeout })

  -- The read of a wait, unless the deadline ends it first.
  abbrev pub read_of : Bool → Wait → Option Read
  read_of guarded (comes r) = some r
  read_of guarded (late r) = if guarded then none else some r

  abbrev pub settle :
      Option (Primed V)
      → Pump
      → Option (Primed V) × Pump × List UsageSnapshot
      → Option (Primed V) × Pump × List UsageSnapshot
  settle (some r) p rest = (some r, p, usage_snapshot p.translator ∷ [])
  settle none p (r, p', seen) = (r, p', usage_snapshot p.translator ∷ seen)

  -- With the snapshots that `observe` is given; `none` while the waits listed do not decide.
  unfoldable pub prime :
      Bool → Events V → List Wait → Pump → Option (Primed V) × Pump × List UsageSnapshot
  prime streaming out [] p = (none, p, [])
  prime streaming out (wait ∷ waits) p =
      elim (read_of (not p.translator.emitter.started && reads_on p) wait) [
        | none ↦ (some (time_out p).0, (time_out p).1, [])
        | some read ↦
            let (c, p') = next json hash fresh show_frame show_event read p in
            let out' = buffer streaming out (events_of c) in
            settle (on_chunk streaming out' c p') p' (prime streaming out' waits p')
      ]

  -- What has been buffered is a beginning of a message that leads to the phase of the translator,
  -- and nothing is dropped where an error is the answer.
  abbrev pub Buffered : Phase → Option (Primed V) → Pump → Type 0
  Buffered s (some (ready out)) p =
      (accepts s out ≡ some (phase p.translator)) × (is_empty out ≡ false)
  Buffered s (some (over out)) p = accepts s out ≡ some (phase p.translator)
  Buffered s (some (refused f)) p = phase p.translator ≡ s
  Buffered s (some (severed e)) p = phase p.translator ≡ s
  Buffered s none p = Unit

  BufferedOf : Phase → Option (Primed V) × Pump × List UsageSnapshot → Type 0
  BufferedOf s (r, p, seen) = Buffered s r p

  Ledger-append :
      (s : Phase) (out : Events V) (t : ResponseTranslator) (r : Chunk V × Pump)
      → Ledger json hash fresh show_frame show_event s out t
      → Ledger json hash fresh show_frame show_event (phase t) (events_of r.0) r.1.translator
      → Ledger json hash fresh show_frame show_event s (out ++ events_of r.0) r.1.translator
  Ledger-append s out t r l m = record {
    valid = m.valid;
    accepted = accepts-append s out (events_of r.0) l.accepted m.accepted;
  }

  abbrev L : Phase → Events V → ResponseTranslator → Type 0
  L = Ledger json hash fresh show_frame show_event

  same_some : (a b : Phase) → some a ≡ some b → b ≡ a
  same_some a b e = ground arith

  nothing_sent :
      (s : Phase) (out : Events V) (p : Pump)
      → L s out p.translator
      → is_empty out ≡ true
      → phase p.translator ≡ s
  unfolding accepts
  nothing_sent s [] p l e = same_some s (phase p.translator) l.accepted
  nothing_sent s (ev ∷ out) p l e = cc

  Buffered-on_chunk :
      (s : Phase) (out : Events V) (c : Chunk V) (p : Pump)
      → L s out p.translator
      → Buffered s (on_chunk true out c p) p
  Buffered-on_chunk s out (events ev) p l =
      if_both (λ r. Buffered s r p) (p.ended || latched p.translator) (some (over out))
        (if not (is_empty out) then some (ready out) else none) (λ _. l.accepted)
        (λ _.
          if_both (λ r. Buffered s r p) (not (is_empty out)) (some (ready out)) none
            (λ e. (l.accepted, ground arith)) (λ _. tt))
  Buffered-on_chunk s out (failed ev f) p l =
      if_both (λ r. Buffered s r p) (is_empty out) (some (refused f)) (some (ready out))
        (λ e. nothing_sent s out p l e) (λ e. (l.accepted, e))
  Buffered-on_chunk s out (broke ev e) p l =
      if_both (λ r. Buffered s r p) (is_empty out) (some (severed e)) (some (ready out))
        (λ e. nothing_sent s out p l e) (λ e. (l.accepted, e))
  Buffered-on_chunk s out done p l = l.accepted

  Buffered-settle :
      (s : Phase) (r : Option (Primed V)) (p : Pump)
      (rest : Option (Primed V) × Pump × List UsageSnapshot)
      → Buffered s r p
      → BufferedOf s rest
      → BufferedOf s (settle r p rest)
  unfolding BufferedOf
  Buffered-settle s none p rest h k = k
  Buffered-settle s (some r) p rest h k = h

  -- The loop goes on with nothing buffered.
  on_chunk-none :
      (out : Events V) (c : Chunk V) (p : Pump) → on_chunk true out c p ≡ none → is_empty out ≡ true
  on_chunk-none out (events ev) p h = ground arith
  on_chunk-none out (failed ev f) p h = ground arith
  on_chunk-none out (broke ev e) p h = ground arith
  on_chunk-none out done p h = cc

  Buffered-prime :
      (s : Phase) (out : Events V) (waits : List Wait) (p : Pump)
      → L s out p.translator
      → is_empty out ≡ true
      → BufferedOf s (prime true out waits p)
  unfolding prime BufferedOf
  Buffered-prime s out [] p l e = tt
  Buffered-prime s out (wait ∷ waits) p l e =
      elim (Option-cases (read_of (not p.translator.emitter.started && reads_on p) wait)) [
        | inl q ↦ rw (q, prime) (nothing_sent s out p l e)
        | inr (read, q) ↦
            let r = next json hash fresh show_frame show_event read p in
            let out' = out ++ events_of r.0 in
            let l' = Ledger-append s out p.translator r l (
              Call-next json hash fresh show_frame show_event (phase p.translator) read p
                (Ledger-new json hash fresh show_frame show_event p.translator l.valid)) in
            let o = on_chunk true out' r.0 r.1 in
            let b = Buffered-on_chunk s out' r.0 r.1 l' in
            elim (Option-cases o) [
              | inl n ↦
                  rw (q, prime, n)
                    (Buffered-prime s out' waits r.1 l' (on_chunk-none out' r.0 r.1 n))
              | inr (x, n) ↦ rw (q, prime, n) (subst (λ z. Buffered s z r.1) n b)
            ]
      ]

  -- For a response that is streamed: what `prime` hands back as ready, and never nothing, or as
  -- ended is the well-formed beginning of a message that leads to the phase of the translator, and
  -- where it answers with an error instead, no event has been sent.
  pub prime_buffers :
      (opts : ResponseOptions) (waits : List Wait)
      → let (r, p, seen) = prime true [] waits (new opts) in Buffered before r p
  unfolding BufferedOf new State.new
  prime_buffers opts waits =
      Buffered-prime before [] waits (new opts)
        (Ledger-new json hash fresh show_frame show_event (new opts).translator
          (IsValid-new json.F64 V opts))
        refl
