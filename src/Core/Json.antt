-- ===== src/Core/Json.antt =====
-- What the code uses of `serde_json::Value`, which is another crate's: derived equality, the tests
-- of its root and the parser. A parameter of everything that carries such values.
use jingwei.Base.{Bool, Option}
use jingwei.Base.Text.{Text}

pub record Json (Value : Type 0) : Type 0 where
  pub discrete : Discrete Value
  pub is_object : Value → Bool
  pub is_boolean : Value → Bool
  -- `serde_json::from_str`, `none` for any of its errors
  pub from_str : Text → Option Value
