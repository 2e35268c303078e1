-- ===== src/Request/History/Turns.antt =====
-- The history takes turns as its messages do.
use kiro_trust.Prelude.{
  ℕ, ◌≡◌, refl, Bool, Option, none, some, List, [], ◌∷◌, if_both, Result, ok, err,
}
use kiro_trust.Text.{Text, Bytes}
use kiro_trust.Text.Search.{is_empty}
use kiro_trust.Json.{SerdeJson}
use kiro_trust.Anthropic.Messages.{Role, Message}
use kiro_trust.Request.Normalize.{normalize_messages}
use kiro_trust.Request.Normalize.Roles.{expected, TurnsFrom, normalize_messages-TurnsFrom}
use kiro_trust.Request.Names.{ToolNameMap}
use kiro_trust.Request.Images.{ImageError, ToolResult, Image, extract_tool_results}
use kiro_trust.Request.History.{
  HistoryEntry, user_input_message, assistant_response_message, Scan, user_entry, entry, push_entry,
  and_then, build_from, build_history, place_system_prompt,
}

abbrev pub entry_role : {V : Type 0} → HistoryEntry V → Role
entry_role (user_input_message _ _) = Role.user
entry_role (assistant_response_message _ _ _) = Role.assistant

abbrev TurnRole : Role → Type 0
TurnRole Role.other = ⊥
TurnRole r = Unit

TurnRole-expected : (r : Role) → TurnRole (expected r)
TurnRole-expected Role.user = tt
TurnRole-expected Role.assistant = tt
TurnRole-expected Role.other = tt

-- The entries are `r` and its opposite, in turn.
unfoldable pub EntriesFrom : {V : Type 0} → Role → List (HistoryEntry V) → Type 0
EntriesFrom r [] = Unit
EntriesFrom r (e ∷ es) = (entry_role e ≡ r) × EntriesFrom (expected r) es

module _ (json : SerdeJson) (sha256 : Bytes → Bytes) (base64 : Text → Option Bytes)
    (decimal : ℕ → Text) (v5 : Text → Text) where
  abbrev V : Type 0
  V = json.Value

  abbrev M : Type 0
  M = Message V

  abbrev E : Type 0
  E = HistoryEntry V

  abbrev Turned : Role → Result (List E) ImageError × Scan → Type 0
  Turned r (err e, s) = Unit
  Turned r (ok es, s) = EntriesFrom r es

  abbrev Plays : Role → Result E ImageError × Scan → Type 0
  Plays r (err e, s) = Unit
  Plays r (ok e, s) = entry_role e ≡ r

  Turned-push_entry :
      (r : Role) (x : E) (rest : Result (List E) ImageError × Scan)
      → entry_role x ≡ r
      → Turned (expected r) rest
      → Turned r (push_entry json sha256 base64 decimal v5 x rest)
  unfolding EntriesFrom
  Turned-push_entry r x (err e, s) p t = tt
  Turned-push_entry r x (ok es, s) p t = (p, t)

  Turned-and_then :
      (r : Role) (a : Result E ImageError × Scan) (more : Scan → Result (List E) ImageError × Scan)
      → Plays r a
      → ((s : Scan) → Turned (expected r) (more s))
      → Turned r (and_then json sha256 base64 decimal v5 a more)
  Turned-and_then r (err e, s) more p t = tt
  Turned-and_then r (ok x, s) more p t = Turned-push_entry r x (more s) p (t s)

  Plays-user_entry :
      (before : Option M) (m : M) (a : Result (List ToolResult × List Image) ImageError × ℕ)
      (names : ToolNameMap)
      → Plays Role.user (user_entry json sha256 base64 decimal v5 before m a names)
  Plays-user_entry before m (err e, n) names = tt
  Plays-user_entry before m (ok (results, images), n) names = refl

  -- Only the two roles of a normalized conversation are at stake.
  Plays-entry :
      (q r : Role) (before : Option M) (m : M) (s : Scan)
      → q ≡ r
      → TurnRole r
      → Plays r (entry json sha256 base64 decimal v5 q before m s)
  Plays-entry Role.user Role.user before m s e k =
      Plays-user_entry before m (extract_tool_results base64 decimal m.content s.counter) s.names
  Plays-entry Role.assistant Role.assistant before m s e k = refl
  Plays-entry Role.user Role.assistant before m s e k = cc
  Plays-entry Role.assistant Role.user before m s e k = cc
  Plays-entry Role.other Role.user before m s e k = cc
  Plays-entry Role.other Role.assistant before m s e k = cc
  Plays-entry q Role.other before m s e k = absurd k

  Turned-build_from :
      (r : Role) (before : Option M) (msgs : List M) (s : Scan)
      → TurnRole r
      → TurnsFrom r msgs
      → Turned r (build_from json sha256 base64 decimal v5 before msgs s)
  unfolding build_from TurnsFrom EntriesFrom
  Turned-build_from r before [] s k t = tt
  Turned-build_from r before (m ∷ msgs) s k (e, t) =
      Turned-and_then r (entry json sha256 base64 decimal v5 m.role before m s)
        (build_from json sha256 base64 decimal v5 (some m) msgs)
        (Plays-entry m.role r before m s e k)
        (λ s. Turned-build_from (expected r) (some m) msgs s (TurnRole-expected r) t)

  EntriesFrom-place_system_prompt :
      (system : Text) (es : List E)
      → EntriesFrom Role.user es
      → EntriesFrom Role.user (place_system_prompt json sha256 base64 decimal v5 system es)
  unfolding place_system_prompt EntriesFrom
  EntriesFrom-place_system_prompt system es t =
      if_both (EntriesFrom Role.user) (is_empty system) es _ (λ _. t) (λ _. (refl, (refl, t)))

  -- What the history is, with the system prompt in front, unless an image is rejected.
  abbrev pub TurnedWith : Text → Result (List E) ImageError × Scan → Type 0
  TurnedWith system (err e, s) = Unit
  TurnedWith system (ok es, s) =
      EntriesFrom Role.user (place_system_prompt json sha256 base64 decimal v5 system es)

  TurnedWith-Turned :
      (system : Text) (r : Result (List E) ImageError × Scan)
      → Turned Role.user r
      → TurnedWith system r
  TurnedWith-Turned system (err e, s) t = tt
  TurnedWith-Turned system (ok es, s) t = EntriesFrom-place_system_prompt system es t

  -- Whatever the messages are, the history of their normal form, with the system prompt in front,
  -- starts with the user, and the user and the assistant take turns, unless an image is rejected.
  pub history_turns :
      (msgs : List M) (has_tools : Bool) (system : Text) (s : Scan)
      → TurnedWith system
          (build_history json sha256 base64 decimal v5 (normalize_messages json msgs has_tools) s)
  history_turns msgs has_tools system s = TurnedWith-Turned system _ (
      Turned-build_from Role.user none (normalize_messages json msgs has_tools) s tt
        (normalize_messages-TurnsFrom json msgs has_tools))
