-- ===== src/Observability/Json.antt =====
-- The values that a program hands to a log line. A number is its sign and its literal.
use football_prediction_craw.Prelude.{Bool, String}

pub record Number : Type 0 where
  pub is_negative : Bool
  pub literal : String

mutual
  pub data Json : Type 0 where
    null : Json
    boolean : Bool → Json
    number : Number → Json
    text : String → Json
    array : Items → Json
    object : Fields → Json
    -- a value of any other Python type
    other : Json

  pub data Items : Type 0 where
    nil : Items
    cons : Json → Items → Items

  pub data Fields : Type 0 where
    end : Fields
    field : String → Json → Fields → Fields
