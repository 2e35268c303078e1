-- ===== src/Json.antt =====
-- What the program uses of `serde_json`, which is not part of the repository, and of `f64`.
pub mod Example
use kiro_trust.Prelude.{ℕ, Bool, Option}
use kiro_trust.Text.{Text, Bytes}

pub record SerdeJson : Type 1 where
  pub Value : Type 0
  pub F64 : Type 0
  pub zero_f64 : F64
  pub null : Value
  pub empty_object : Value
  pub from_slice : Bytes → Option Value
  pub from_str : Text → Option Value
  pub to_string : Value → Text
  pub get : Text → Value → Option Value
  pub as_str : Value → Option Text
  pub as_u64 : Value → Option ℕ
  pub as_f64 : Value → Option F64
  pub as_bool : Value → Option Bool
  pub is_null : Value → Bool
