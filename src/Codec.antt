-- ===== src/Codec.antt =====
-- The libraries that the crate calls to read JSON and to quote a text: parameters of the model.
-- `from_slice` stands for `serde_json::from_slice::<Value>`, the others for the methods of `Value`;
-- `debug` is the quoted form `{:?}` of a text, which rests on tables of Unicode.
use grindr_rs.Prelude.{Bool, Option, Text}
use grindr_rs.Prelude.Int.{ℤ}

pub record Codec : Type 1 where
  pub Value : Type 0
  pub from_slice : Text → Option Value
  pub from_slice_error : Text → Text
  pub get : Value → Text → Option Value
  pub as_str : Value → Option Text
  pub as_i64 : Value → Option ℤ
  pub as_bool : Value → Option Bool
  pub debug : Text → Text
