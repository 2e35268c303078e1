-- ===== src/Response/Message/Calls.antt =====
-- The tool calls that a message keeps.
use kiro_trust.Prelude.{
  ◌≡◌, refl, sym, ap, ◌∙◌, Bool, Bool-cases, inl, inr, true, false, ◌||◌, Option, none, some, List,
  [], ◌∷◌, ◌++◌, ltb, if◌then◌else◌, if_both, arith,
}
use kiro_trust.Text.{Text, text_eq, text_eq_iff, text_eq_refl}
use kiro_trust.Text.Utf8.{len}
use kiro_trust.Json.{SerdeJson}
use kiro_trust.Response.State.{ToolCall}
use kiro_trust.Response.Message.Longest.{
  better, longest_of, All, FirstLongest, FirstLongest-longest_of,
}
use kiro_trust.Response.Message.{
  longer, keep_longest, longest_by_id, Key, seen_key, key_of, drop_repeats, dedupe_tool_calls,
}

-- The call of this id that a list holds.
unfoldable pub call_of : Text → List ToolCall → Option ToolCall
call_of id [] = none
call_of id (c ∷ calls) = let rest = call_of id calls in if text_eq c.id id then some c else rest

-- No two calls of a list have one id.
unfoldable pub has_id : Text → List ToolCall → Bool
has_id id [] = false
has_id id (c ∷ calls) = text_eq c.id id || has_id id calls

abbrev pub DistinctIds : List ToolCall → Type 0
DistinctIds [] = Unit
DistinctIds (c ∷ calls) = (has_id c.id calls ≡ false) × DistinctIds calls

longer-id : (c e : ToolCall) → e.id ≡ c.id → (longer c e).id ≡ e.id
longer-id c e q =
    if_both (λ (x : ToolCall). x.id ≡ e.id) (ltb (len e.input) (len c.input)) c e (λ _. sym q)
      (λ _. refl)

has_id-keep_longest :
    (id : Text) (c : ToolCall) (by_id : List ToolCall)
    → text_eq c.id id ≡ false
    → has_id id (keep_longest c by_id) ≡ has_id id by_id
unfolding keep_longest has_id
has_id-keep_longest id c [] h = rw h refl
has_id-keep_longest id c (e ∷ by_id) h = elim (Bool-cases (text_eq e.id c.id)) [
  | inl q ↦ let w = longer-id c e ((text_eq_iff e.id c.id).0 q) in rw (q, w) refl
  | inr q ↦ rw (q, has_id-keep_longest id c by_id h) refl
]

text_eq_sym : (a b : Text) → text_eq a b ≡ false → text_eq b a ≡ false
text_eq_sym a b h = ground (arith, text_eq_iff a b, text_eq_iff b a)

DistinctIds-keep_longest :
    (c : ToolCall) (by_id : List ToolCall) → DistinctIds by_id → DistinctIds (keep_longest c by_id)
unfolding keep_longest
DistinctIds-keep_longest c [] d = (unfold has_id in refl, tt)
DistinctIds-keep_longest c (e ∷ by_id) (f, d) = elim (Bool-cases (text_eq e.id c.id)) [
  | inl q ↦ let w = longer-id c e ((text_eq_iff e.id c.id).0 q) in rw (q, keep_longest, w) (f, d)
  | inr q ↦
      rw (q, keep_longest)
        (
          rw (has_id-keep_longest e.id c by_id (text_eq_sym e.id c.id q)) f,
          DistinctIds-keep_longest c by_id d,
        )
]

DistinctIds-longest_by_id :
    (by_id calls : List ToolCall) → DistinctIds by_id → DistinctIds (longest_by_id by_id calls)
unfolding longest_by_id
DistinctIds-longest_by_id by_id [] d = d
DistinctIds-longest_by_id by_id (c ∷ calls) d =
    DistinctIds-longest_by_id (keep_longest c by_id) calls (DistinctIds-keep_longest c by_id d)

replaced :
    (b d : Bool) (c e : ToolCall) (o : Option ToolCall)
    → b ≡ d
    → (if b then some (longer c e) else o)
      ≡ (if d then better c (if b then some e else o) else if b then some e else o)
replaced true true c e o h = refl
replaced false false c e o h = refl
replaced true false c e o h = cc
replaced false true c e o h = cc

-- No call has both ids.
abbrev NotBoth : Bool → Bool → Type 0
NotBoth true true = ⊥
NotBoth _ _ = Unit

NotBoth-cases : (b d : Bool) → (b ≡ true → d ≡ true → ⊥) → NotBoth b d
NotBoth-cases true true h = h refl refl
NotBoth-cases true false h = tt
NotBoth-cases false d h = tt

not_both : (id a b : Text) → text_eq a b ≡ false → NotBoth (text_eq a id) (text_eq b id)
not_both id a b h =
    NotBoth-cases (text_eq a id) (text_eq b id)
      (λ p q. ground (arith, text_eq_iff a b, text_eq_iff a id, text_eq_iff b id))

passed :
    (b d : Bool) (c e : ToolCall) (o : Option ToolCall)
    → NotBoth b d
    → (if b then some e else (if d then better c o else o))
      ≡ (if d then better c (if b then some e else o) else if b then some e else o)
passed true true c e o n = absurd n
passed true false c e o n = refl
passed false true c e o n = refl
passed false false c e o n = refl

call_of-keep_longest :
    (id : Text) (c : ToolCall) (by_id : List ToolCall)
    → call_of id (keep_longest c by_id)
      ≡ (if text_eq c.id id then better c (call_of id by_id) else call_of id by_id)
unfolding keep_longest call_of
call_of-keep_longest id c [] = refl
call_of-keep_longest id c (e ∷ by_id) = elim (Bool-cases (text_eq e.id c.id)) [
  | inl q ↦
      let same = (text_eq_iff e.id c.id).0 q in
      let w = longer-id c e same in
      rw (q, w)
        (replaced (text_eq e.id id) (text_eq c.id id) c e (call_of id by_id)
          (ap (λ x. text_eq x id) same))
  | inr q ↦
      rw (q, call_of-keep_longest id c by_id)
        (passed (text_eq e.id id) (text_eq c.id id) c e (call_of id by_id)
          (not_both id e.id c.id q))
]

-- The first loop keeps, for every id, the first of its longest calls.
call_of-longest_by_id :
    (id : Text) (by_id calls : List ToolCall)
    → call_of id (longest_by_id by_id calls) ≡ longest_of id (call_of id by_id) calls
unfolding longest_by_id longest_of
call_of-longest_by_id id by_id [] = refl
call_of-longest_by_id id by_id (c ∷ calls) =
    rw (call_of-longest_by_id id (keep_longest c by_id) calls, call_of-keep_longest id c by_id) refl

All-imp :
    (P Q : ToolCall → Type 0)
    → ((c : ToolCall) → P c → Q c)
    → (calls : List ToolCall) → All P calls
    → All Q calls
All-imp P Q f [] a = tt
All-imp P Q f (c ∷ calls) (p, a) = (f c p, All-imp P Q f calls a)

All-both :
    (P Q : ToolCall → Type 0) (calls : List ToolCall)
    → All P calls
    → All Q calls
    → All (λ c. P c × Q c) calls
All-both P Q [] a b = tt
All-both P Q (c ∷ calls) (p, a) (q, b) = ((p, q), All-both P Q calls a b)

other_ids :
    (id : Text) (calls : List ToolCall)
    → has_id id calls ≡ false
    → All (λ c. text_eq c.id id ≡ false) calls
unfolding has_id
other_ids id [] h = tt
other_ids id (c ∷ calls) h = (ground arith, other_ids id calls (ground arith))

-- With distinct ids, each call is the one of its id.
each_found :
    (calls : List ToolCall) → DistinctIds calls → All (λ c. call_of c.id calls ≡ some c) calls
unfolding call_of
each_found [] d = tt
each_found (x ∷ calls) (f, d) = (
  rw (text_eq_refl x.id) refl,
  All-imp (λ c. (text_eq c.id x.id ≡ false) × (call_of c.id calls ≡ some c))
      (λ c. call_of c.id (x ∷ calls) ≡ some c) (λ c (o, e). rw (text_eq_sym c.id x.id o) e) calls
      (All-both (λ c. text_eq c.id x.id ≡ false) (λ c. call_of c.id calls ≡ some c) calls
        (other_ids x.id calls f) (each_found calls d)),
)

module _ (json : SerdeJson) where
  All-drop_repeats :
      (P : ToolCall → Type 0) (seen : List Key) (calls : List ToolCall)
      → All P calls
      → All P (drop_repeats json seen calls)
  unfolding drop_repeats
  All-drop_repeats P seen [] a = tt
  All-drop_repeats P seen (c ∷ calls) (p, a) = elim (Bool-cases (seen_key (key_of json c) seen)) [
    | inl e ↦ rw (e, drop_repeats) (All-drop_repeats P seen calls a)
    | inr e ↦ rw (e, drop_repeats) (p, All-drop_repeats P (seen ++ key_of json c ∷ []) calls a)
  ]

  -- Whatever calls there were, each one that the message keeps is one of them, all calls of its id
  -- in front of it have a shorter input, and those behind it no longer one.
  pub dedupe_tool_calls-longest :
      (calls : List ToolCall) → All (λ c. FirstLongest c calls) (dedupe_tool_calls json calls)
  unfolding dedupe_tool_calls call_of
  dedupe_tool_calls-longest calls =
      let by_id = longest_by_id [] calls in
      let each = each_found by_id (DistinctIds-longest_by_id [] calls tt) in
      All-drop_repeats (λ c. FirstLongest c calls) [] by_id
        (All-imp (λ c. call_of c.id by_id ≡ some c) (λ c. FirstLongest c calls)
          (λ c e. FirstLongest-longest_of c calls (sym (call_of-longest_by_id c.id [] calls) ∙ e))
          by_id each)

  has_id-drop_repeats :
      (id : Text) (seen : List Key) (calls : List ToolCall)
      → has_id id calls ≡ false
      → has_id id (drop_repeats json seen calls) ≡ false
  unfolding drop_repeats has_id
  has_id-drop_repeats id seen [] h = refl
  has_id-drop_repeats id seen (c ∷ calls) h = elim (Bool-cases (seen_key (key_of json c) seen)) [
    | inl e ↦ rw (e, drop_repeats) (has_id-drop_repeats id seen calls (ground arith))
    | inr e ↦
        let r = has_id-drop_repeats id (seen ++ key_of json c ∷ []) calls (ground arith) in
        rw (e, drop_repeats, r) (ground arith)
  ]

  DistinctIds-drop_repeats :
      (seen : List Key) (calls : List ToolCall)
      → DistinctIds calls
      → DistinctIds (drop_repeats json seen calls)
  unfolding drop_repeats
  DistinctIds-drop_repeats seen [] d = tt
  DistinctIds-drop_repeats seen (c ∷ calls) (f, d) =
      elim (Bool-cases (seen_key (key_of json c) seen)) [
        | inl e ↦ rw (e, drop_repeats) (DistinctIds-drop_repeats seen calls d)
        | inr e ↦
            rw (e, drop_repeats)
              (
                has_id-drop_repeats c.id (seen ++ key_of json c ∷ []) calls f,
                DistinctIds-drop_repeats (seen ++ key_of json c ∷ []) calls d,
              )
      ]

  -- Whatever calls there were, no two that the message keeps have one id.
  pub dedupe_tool_calls-DistinctIds :
      (calls : List ToolCall) → DistinctIds (dedupe_tool_calls json calls)
  unfolding dedupe_tool_calls
  dedupe_tool_calls-DistinctIds calls =
      DistinctIds-drop_repeats [] (longest_by_id [] calls) (DistinctIds-longest_by_id [] calls tt)
