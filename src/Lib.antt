-- ===== src/Lib.antt =====
-- kiro-trust is a local proxy: clients speak Anthropic's Messages API to it, and it speaks the
-- event-stream protocol of the Kiro service. On the way out, the messages of a request are
-- normalised and become a history, with tool names shortened and images checked
-- (crates/kiro-trust-protocol/src/translate); a client sends the request, and tries again where the
-- answer says so (crates/kiro-trust-kiro/src/client.rs, error.rs), with a token that is refreshed in
-- memory (crates/kiro-trust-auth/src/source.rs). On the way back, bytes arrive in
-- chunks; a decoder cuts them into frames and a parser turns frames into events
-- (crates/kiro-trust-protocol/src/eventstream.rs, kiro.rs); a translator turns events into those of
-- Anthropic's stream (translate/response.rs, with the types of anthropic.rs); the server's pump
-- (crates/kiro-trust/src/server/pump.rs) runs the three, and its counters (server/usage.rs) keep
-- the accounts of all requests.
--
-- Which file models which part:
--   Wire                  the big-endian integers and the two's complement casts of the wire format
--   Text, Text/*          `String` and `&[u8]`: characters, UTF-8, search; part of Rust's library
--   Eventstream/Header    `HeaderValue`, `FrameError`, `parse_headers`, `push_header`
--   Eventstream/Frame     `Frame`, `FrameDecoder` (`push`, `pending`, `finish`, `next_frame`),
--                         `encode_frame` and the two encoders over it
--   Eventstream/Stream    the loop of `Pump::next` over the decoder, against decoding all the bytes
--   Eventstream/Events    `EventParser` and the accumulator of a tool call
--   Kiro, Anthropic       `Event`; the response side of the Messages API
--   Response/Tags         `parse_tags`, `partial_tag_suffix`
--   Response/Limits       `latch`, `apply_max_tokens`, `account_opaque`, `apply_stop_filter`
--   Response/Emitter      `ensure_started`, `close_active`, `switch_block`, `emit_text`,
--                         `emit_thinking`, and the blocks that `push` emits at once
--   Response/State        `ResponseTranslator`, `new`, `stop_reason`, `usage`, `usage_snapshot`
--   Response/Push         `push` and `finish`, handler by handler
--   Response/Protocol     the protocol that a client expects, as an acceptor, and its proofs
--   Response/Budget       what the token budget lets through
--   Response/Streamed     what is sent against what is collected for a folded response
--   Response/Overrun      what is sent although a local stop is latched
--   Response/Accounts     the two reports of tokens
--   Response/Message      `into_message` and `dedupe_tool_calls`
--   Pump, Pump/Prime      `Pump::next` and `Pump::prime`
--   Sanitize              `cap` and `scrub_identifiers`
--                         (crates/kiro-trust-protocol/src/sanitize.rs)
--   Upstream              crates/kiro-trust-kiro/src/error.rs
--   Upstream/Client       `generate_inner`, `retry_after` and what they call
--   Anthropic/Messages    the messages of a request
--   Request/Names         `ToolNameMap` (translate/tool_names.rs)
--   Request/Content, Request/Images   translate/content.rs
--   Request/Normalize     `normalize_messages`, pass by pass (translate/normalize.rs)
--   Request/History       `build_history`, `place_system_prompt` (translate/history.rs)
--   Auth/Refresh          `refresh` (crates/kiro-trust-auth/src/refresh.rs, error.rs)
--   Auth/Source           `TokenSource`, its `current` and `BurnGuard` (source.rs)
--   Json, Json/Example    what the source uses of `serde_json`, and an instance for the tests
--   Net/Region            `Region::parse` and `RuntimeRegion::parse`
--                         (crates/kiro-trust-net/src/region.rs)
--   Net/Destination       `Destination::host` (destination.rs)
--   Usage                 the counters, the guard of a request and the summary
--
-- A struct is a record, and one struct with several concerns (`ResponseTranslator`) is a record of
-- records; a method is a function from the state to the state and its result. A method that
-- appends to `out` is a `Writer`: it returns the state and the events, and `>>` runs one behind
-- another. Machine integers are natural numbers with the wrap-around or the saturation written out;
-- signed ones are integers. A string is the list of its characters, so `chars().count()` is its
-- length and `len()` the length of its UTF-8. The slices of `parse_tags` and `partial_tag_suffix`
-- are by characters here; the tags are ASCII, so the source cuts at the same places.
--
-- Bounds and fuel: a header takes two bytes at least, so the length of a block is fuel enough for
-- `parse_headers`; a frame takes 16 bytes at least, so the bytes pending are fuel enough for the
-- loop of frames; `parse_tags` takes a tag out of its buffer in each round but the last, so the
-- length of the buffer is fuel enough; so it is for the loop of `scrub_identifiers`, which takes a
-- character in each round, and the number of messages for that of `merge_adjacent_same_role`; the
-- loop of `generate_inner` goes round three times at most, its `MAX_ATTEMPTS`. `usize` is taken not
-- to overflow where the source adds the lengths of buffers that are in memory.
--
-- Parameters: `hash` is `crc32fast::hash`, of which only the encoder's round trip needs that it is
-- a 32-bit number; `F` is `f64` and `V` is `serde_json::Value`, which the translator only carries;
-- `json` is `serde_json`; `fresh` and `v5` give UUIDs; `sha256` is `Sha256::digest`; `base64` is the
-- standard engine's `decode`; `date` is the delay until an HTTP date; `show_frame` and `show_event`
-- are the texts that thiserror generates. What the network and the credentials answer is an
-- argument: a list of reads for the pump, one round after another for the client, and a record for
-- each cycle of the credentials' source; `later` is `SystemTime::checked_add`, `show` and `text` are
-- texts of numbers and errors.
--
-- Not modelled: the rest of the request side (payload, tools, schema, environment state, catalog,
-- estimate); the HTTP client and its policy; the database of credentials; the handlers of the
-- server; the command line, processes, sockets and files.

pub mod Anthropic
pub mod Auth
pub mod Eventstream
pub mod Json
pub mod Kiro
pub mod Net
pub mod Prelude
pub mod Pump
pub mod Request
pub mod Response
pub mod Sanitize
pub mod Text
pub mod Upstream
pub mod Usage
pub mod Wire
