-- ===== src/Response/Message/Longest.antt =====
-- The first of the longest calls of an id, against the fold that finds it
-- (`dedupe_tool_calls` of crates/kiro-trust-protocol/src/translate/response.rs).
use kiro_trust.Prelude.{
  ℕ, ◌<◌, ◌≡◌, refl, sym, ap, subst, ◌∙◌, Bool-cases, inl, inr, false, ◌&&◌, leb, if_true, if_false,
  Option, none, some, List, [], ◌∷◌, ◌++◌, ltb, if◌then◌else◌, arith,
}
use kiro_trust.Text.{Text, text_eq}
use kiro_trust.Text.Utf8.{len}
use kiro_trust.Response.State.{ToolCall}
use kiro_trust.Response.Message.{longer}

-- The fold that the loop makes of the calls of one id, with `best` so far.
abbrev pub better : ToolCall → Option ToolCall → Option ToolCall
better c none = some c
better c (some best) = some (longer c best)

unfoldable pub longest_of : Text → Option ToolCall → List ToolCall → Option ToolCall
longest_of id best [] = best
longest_of id best (c ∷ calls) =
    longest_of id (if text_eq c.id id then better c best else best) calls

module _ (P : ToolCall → Type 0) where
  abbrev pub All : List ToolCall → Type 0
  All [] = Unit
  All (c ∷ calls) = P c × All calls

-- A call of this id has an input that is shorter than `n` bytes; and one that is not longer.
abbrev pub ShorterThan : Text → ℕ → ToolCall → Type 0
ShorterThan id n d = (text_eq d.id id && leb n (len d.input)) ≡ false

abbrev pub NoLongerThan : Text → ℕ → ToolCall → Type 0
NoLongerThan id n d = (text_eq d.id id && ltb n (len d.input)) ≡ false

-- The call is in the list, those of its id in front of it are shorter, and those behind it are no
-- longer.
pub record FirstLongest (c : ToolCall) (calls : List ToolCall) : Type 0 where
  pub front : List ToolCall
  pub behind : List ToolCall
  pub split : calls ≡ front ++ c ∷ behind
  pub shorter_in_front : All (ShorterThan c.id (len c.input)) front
  pub no_longer_behind : All (NoLongerThan c.id (len c.input)) behind

-- What comes of a call `b` at hand: it stays, or a longer one takes its place.
data Picks (id : Text) (b c : ToolCall) (calls : List ToolCall) : Type 0 where
  stays : c ≡ b → All (NoLongerThan id (len b.input)) calls → Picks id b c calls
  moves :
      (front behind : List ToolCall)
      → calls ≡ front ++ c ∷ behind
      → len b.input < len c.input
      → All (ShorterThan id (len c.input)) front
      → All (NoLongerThan id (len c.input)) behind
      → Picks id b c calls

Picks-skip :
    (id : Text) (b c d : ToolCall) (calls : List ToolCall)
    → NoLongerThan id (len b.input) d
    → Picks id b c calls
    → Picks id b c (d ∷ calls)
Picks-skip id b c d calls n (stays e a) = stays e (n, a)
Picks-skip id b c d calls n (moves front behind e l a z) =
    moves (d ∷ front) behind (ap (λ x. d ∷ x) e) l (ground arith, a) z

Picks-take :
    (id : Text) (b c d : ToolCall) (calls : List ToolCall)
    → len b.input < len d.input
    → Picks id d c calls
    → Picks id b c (d ∷ calls)
Picks-take id b c d calls n (stays e a) =
    subst (λ x. Picks id b x (d ∷ calls)) (sym e) (moves [] calls refl n tt a)
Picks-take id b c d calls n (moves front behind e l a z) =
    moves (d ∷ front) behind (ap (λ x. d ∷ x) e) (omega arith) (ground arith, a) z

Picks-longest_of :
    (id : Text) (b c : ToolCall) (calls : List ToolCall)
    → longest_of id (some b) calls ≡ some c
    → Picks id b c calls
unfolding longest_of
Picks-longest_of id b c [] e = stays (cc) tt
Picks-longest_of id b c (d ∷ calls) e = elim (Bool-cases (text_eq d.id id)) [
  | inr q ↦
      Picks-skip id b c d calls (ground arith) (
        Picks-longest_of id b c calls
          (ap (λ x. longest_of id x calls) (sym (if_false _ _ _ q)) ∙ e))
  | inl q ↦
      let e' : longest_of id (some (longer d b)) calls ≡ some c =
        ap (λ x. longest_of id x calls) (sym (if_true _ _ _ q)) ∙ e in
      elim (Bool-cases (ltb (len b.input) (len d.input))) [
        | inl l ↦ Picks-take id b c d calls (ground arith) (
            Picks-longest_of id d c calls
              (ap (λ x. longest_of id (some x) calls) (sym (if_true _ _ _ l)) ∙ e'))
        | inr l ↦ Picks-skip id b c d calls (ground arith) (
            Picks-longest_of id b c calls
              (ap (λ x. longest_of id (some x) calls) (sym (if_false _ _ _ l)) ∙ e'))
      ]
]

FirstLongest-Picks :
    (d c : ToolCall) (calls : List ToolCall) → Picks c.id d c calls → FirstLongest c (d ∷ calls)
FirstLongest-Picks d c calls (stays e a) = record {
  front = [];
  behind = calls;
  split = ap (λ x. x ∷ calls) (sym e);
  shorter_in_front = tt;
  no_longer_behind = subst (λ x. All (NoLongerThan c.id (len x.input)) calls) (sym e) a;
}
FirstLongest-Picks d c calls (moves front behind e l a z) = record {
  front = d ∷ front;
  behind = behind;
  split = ap (λ x. d ∷ x) e;
  shorter_in_front = (ground arith, a);
  no_longer_behind = z;
}

FirstLongest-skip :
    (c d : ToolCall) (calls : List ToolCall)
    → text_eq d.id c.id ≡ false
    → FirstLongest c calls
    → FirstLongest c (d ∷ calls)
FirstLongest-skip c d calls n f = record {
  front = d ∷ f.front;
  behind = f.behind;
  split = ap (λ x. d ∷ x) f.split;
  shorter_in_front = (ground arith, f.shorter_in_front);
  no_longer_behind = f.no_longer_behind;
}

pub FirstLongest-longest_of :
    (c : ToolCall) (calls : List ToolCall)
    → longest_of c.id none calls ≡ some c
    → FirstLongest c calls
unfolding longest_of
FirstLongest-longest_of c [] e = cc
FirstLongest-longest_of c (d ∷ calls) e = elim (Bool-cases (text_eq d.id c.id)) [
  | inl q ↦ FirstLongest-Picks d c calls (
      Picks-longest_of c.id d c calls
        (ap (λ x. longest_of c.id x calls) (sym (if_true _ _ _ q)) ∙ e))
  | inr q ↦ FirstLongest-skip c d calls q (
      FirstLongest-longest_of c calls
        (ap (λ x. longest_of c.id x calls) (sym (if_false _ _ _ q)) ∙ e))
]
