-- ===== src/Json/Example.antt =====
-- A small JSON for the tests: bytes are an object with the string `content`.
use kiro_trust.Prelude.{ℕ, Bool, true, false, Option, none, some, List, [], ◌∷◌, if◌then◌else◌}
use kiro_trust.Text.{Text, Bytes, codes, text_eq}
use kiro_trust.Json.{SerdeJson}

pub data Small : Type 0 where
  nothing : Small
  word : Text → Small
  object : List (Text × Text) → Small

abbrev pub field : List (Text × Text) → Text → Option Small
unfolding text_eq
field [] key = none
field ((k, v) ∷ fs) key = let rest = field fs key in if text_eq k key then some (word v) else rest

abbrev pub get_small : Text → Small → Option Small
get_small key (object fs) = field fs key
get_small key _ = none

abbrev pub word_of : Small → Option Text
word_of (word t) = some t
word_of _ = none

abbrev pub bool_of : Small → Option Bool
unfolding text_eq
bool_of (word t) = some (text_eq t (codes "true"))
bool_of _ = none

abbrev pub is_nothing : Small → Bool
is_nothing nothing = true
is_nothing _ = false

abbrev pub bytes_of : Bytes → Option Small
bytes_of [] = none
bytes_of (b ∷ bs) = some (object ((codes "content", b ∷ bs) ∷ []))

abbrev pub text_of : Small → Text
text_of (word t) = t
text_of _ = codes "{}"

abbrev pub small_json : SerdeJson
small_json = record {
  Value = Small;
  F64 = ℕ;
  zero_f64 = 0;
  null = nothing;
  empty_object = object [];
  from_slice = bytes_of;
  from_str = bytes_of;
  to_string = text_of;
  get = get_small;
  as_str = word_of;
  as_u64 = λ v. none;
  as_f64 = λ v. none;
  as_bool = bool_of;
  is_null = is_nothing;
}
