-- ===== src/Document.antt =====
-- A JSON value of an object that the program keeps in Redis. A text in ISO format is the reading
-- that it denotes. The program stores no nested values.
use football_prediction_craw.Prelude.{ℕ, Bool, String}
use football_prediction_craw.Moment.{Iso}

pub data Value : Type 0 where
  null : Value
  boolean : Bool → Value
  number : ℕ → Value
  moment : Iso → Value
  text : String → Value
