-- ===== src/Eventstream/Events/Tests.antt =====
-- The theorems about the events of frames, at concrete frames and payloads.
use kiro_trust.Prelude.{◌≡◌, refl, true, false, [], ◌∷◌, ok, err, arith}
use kiro_trust.Text.{Text, codes, text_eq}
use kiro_trust.Text.Utf8.{as_bytes, encode_char}
use kiro_trust.Json.Example.{Small, word, object, small_json}
use kiro_trust.Eventstream.Header.{string}
use kiro_trust.Eventstream.Frame.{Frame, header_str, message_type, event_type}
use kiro_trust.Eventstream.Events.{
  bad_json, ToolUseAccumulator, no_tool, parse, parse_event, tool_fragment, tool_event, stops,
  str_field,
}
use kiro_trust.Eventstream.Events.Sizes.{FitsStep, RejectsClean, parse-Fits, parse-RejectsClean}
use kiro_trust.Eventstream.Events.Fragments.{
  string_input, no_input, Continues, feed, then_, fragments_joined,
}

-- A call in flight.
abbrev in_flight : ToolUseAccumulator
in_flight = record { id = codes "t1"; name = codes "read"; input = codes "{" }

abbrev greeting : Frame
greeting = record {
  headers =
      (codes ":message-type", string (codes "event"))
      ∷ (codes ":event-type", string (codes "assistantResponseEvent"))
      ∷ [];
  payload = codes "hi";
}

abbrev fragment : Text → Text → Small
fragment input stop =
    object ((codes "toolUseId", codes "t1") ∷ (codes "input", input) ∷ (codes "stop", stop) ∷ [])

parse-Fits_example : FitsStep small_json (parse small_json (codes "u") greeting in_flight)
unfolding as_bytes encode_char
parse-Fits_example = parse-Fits small_json (codes "u") greeting in_flight (omega arith)

-- A frame of a strict kind whose payload is not JSON.
abbrev spoiled : Frame
spoiled = record greeting { payload = [] }

spoiled_refused :
    parse small_json (codes "u") spoiled in_flight
    ≡ (err (bad_json (codes "assistantResponseEvent")), in_flight)
unfolding parse parse_event text_eq message_type event_type header_str
spoiled_refused = refl

parse-RejectsClean_example :
    RejectsClean small_json in_flight (parse small_json (codes "u") spoiled in_flight)
parse-RejectsClean_example = parse-RejectsClean small_json (codes "u") spoiled in_flight

continues : (s stop : Text) → Continues small_json (codes "t1") (codes "read") s (fragment s stop)
unfolding str_field text_eq
continues s stop = record {
  same = refl;
  same_name = refl;
  brings = string_input (word s) refl refl;
}

goes_on : stops small_json (fragment (codes "1}") (codes "false")) ≡ false
unfolding stops text_eq
goes_on = refl

-- The last payload of a call has no input.
abbrev stop_frame : Small
stop_frame = object ((codes "toolUseId", codes "t1") ∷ (codes "stop", codes "true") ∷ [])

stop-Continues : Continues small_json (codes "t1") (codes "read") [] stop_frame
unfolding str_field text_eq
stop-Continues = record { same = refl; same_name = refl; brings = no_input refl refl }

ends : stops small_json stop_frame ≡ true
unfolding stops text_eq
ends = refl

fragments_joined_example :
    then_ small_json
      (feed small_json
        ((codes "u", codes "1}", fragment (codes "1}") (codes "false")) ∷ [])
        in_flight)
      (tool_fragment small_json (codes "u") stop_frame)
    ≡ (
      ok (
          tool_event small_json
            (record { id = codes "t1"; name = codes "read"; input = codes "{1}" })
          ∷ []),
      no_tool,
    )
unfolding as_bytes encode_char
fragments_joined_example =
    fragments_joined small_json
      ((codes "u", codes "1}", fragment (codes "1}") (codes "false")) ∷ []) (codes "u") []
      stop_frame in_flight refl ((continues (codes "1}") (codes "false"), goes_on), tt)
      stop-Continues ends (omega arith)
