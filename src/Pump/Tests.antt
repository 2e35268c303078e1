-- ===== src/Pump/Tests.antt =====
-- Runs of the pump on one frame that says "hi". The checksum of these runs is always 0.
use kiro_trust.Prelude.{ℕ, ◌≡◌, ltb, ltb→lt, refl, true, some, [], ◌∷◌, ◌++◌}
use kiro_trust.Text.{Text, Bytes, codes}
use kiro_trust.Text.Utf8.{as_bytes, encode_char}
use kiro_trust.Wire.{u32_to_be_bytes, u16_to_be_bytes}
use kiro_trust.Json.Example.{Small, small_json}
use kiro_trust.Eventstream.Header.{FrameError, push_header}
use kiro_trust.Eventstream.Frame
use kiro_trust.Eventstream.Frame.{encode_event_frame, pending}
use kiro_trust.Eventstream.Events.{EventError}
use kiro_trust.Response.Emitter.{Events}
use kiro_trust.Response.State
use kiro_trust.Response.State.{ResponseOptions}
use kiro_trust.Response.Protocol.{before, ended, accepts}
use kiro_trust.Response.Protocol.Stream.{phase}
use kiro_trust.Pump.{
  Pump, Chunk, done, Read, end_, fails, brings, new, protocol_error, next, run, take_frames,
}
use kiro_trust.Pump.Sends.{pump_accepted}
use kiro_trust.Pump.Completes.{ReadsOn, pump_completes}
use kiro_trust.Pump.Settles.{Stays, next_settles}
use kiro_trust.Pump.Fuel.{take_frames_or, take_frames_ends}
use kiro_trust.Pump.Prime.{comes, late, prime, Buffered, prime_buffers}

abbrev zero_hash : Bytes → ℕ
zero_hash bs = 0

abbrev fresh : ℕ → Text
fresh n = codes "u"

abbrev show_frame : FrameError → Text
show_frame e = codes "frame"

abbrev show_event : EventError → Text
show_event e = codes "event"

abbrev opts : ResponseOptions
opts = record {
  model = codes "m";
  message_id = codes "msg_1";
  stop_sequences = [];
  max_tokens = 0;
  tool_names = [];
  estimated_input_tokens = 3;
}

abbrev hello : Bytes
hello = encode_event_frame zero_hash (codes "assistantResponseEvent") (codes "hi")

abbrev lost : Read
lost = fails (protocol_error (codes "reset"))

pump_accepted_example :
    let (out, p) =
      run small_json zero_hash fresh show_frame show_event (brings hello ∷ lost ∷ []) (new opts) in
    accepts before out ≡ some (phase p.translator)
pump_accepted_example =
    pump_accepted small_json zero_hash fresh show_frame show_event opts (brings hello ∷ lost ∷ [])

ReadsOn-first : ReadsOn (run small_json zero_hash fresh show_frame show_event [] (new opts)).1
unfolding run new State.new Frame.new Frame.finish pending
ReadsOn-first = (refl, refl, refl, refl)

pump_completes_example :
    accepts before
      (run small_json zero_hash fresh show_frame show_event ([] ++ end_ ∷ []) (new opts)).0
    ≡ some ended
pump_completes_example =
    pump_completes small_json zero_hash fresh show_frame show_event opts [] ReadsOn-first

next_settles_example :
    let (c, p) = next small_json zero_hash fresh show_frame show_event lost (new opts) in
    Stays c p (next small_json zero_hash fresh show_frame show_event (brings hello) p)
next_settles_example =
    next_settles small_json zero_hash fresh show_frame show_event lost (brings hello) (new opts)

-- A pump with a frame pending.
abbrev one_frame : Pump
one_frame = record (new opts) { decoder = Frame.push Frame.new hello }

one_pending : ltb (pending one_frame.decoder) 200 ≡ true
unfolding Frame.push Frame.new pending Frame.encode_event_frame Frame.encode_frame u32_to_be_bytes
    push_header as_bytes encode_char u16_to_be_bytes
one_pending = refl

abbrev spent : Events Small → Pump → Chunk Small × Pump
spent out p = (done, p)

take_frames_ends_example :
    take_frames_or small_json zero_hash fresh show_frame show_event spent 200 [] one_frame
    ≡ take_frames small_json zero_hash fresh show_frame show_event
        (pending one_frame.decoder)
        []
        one_frame
take_frames_ends_example =
    take_frames_ends small_json zero_hash fresh show_frame show_event spent 200 [] one_frame
      (ltb→lt _ _ one_pending)

prime_buffers_example :
    let (r, p, seen) =
      prime small_json zero_hash fresh show_frame show_event true []
        (comes (brings hello) ∷ late end_ ∷ [])
        (new opts) in
    Buffered small_json zero_hash fresh show_frame show_event before r p
prime_buffers_example =
    prime_buffers small_json zero_hash fresh show_frame show_event opts
      (comes (brings hello) ∷ late end_ ∷ [])
