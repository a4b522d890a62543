-- ===== src/Core/Json.antt =====
-- `serde_json::Value`, with the constructors that the code distinguishes. A number is the text
-- that it prints as. An object's fields stand in the order of `map.values()`.
use mathlib.Core.Bool.{Bool}
use native.Mathlib.Decide.{ℕ_discrete}
use herdr_a2a.Base.{Text}

mutual
  pub data Value : Type 0 where
    null : Value
    boolean : Bool → Value
    number : Text → Value
    string : Text → Value
    array : Items → Value
    object : Fields → Value

  pub data Fields : Type 0 where
    end : Fields
    field : Text → Value → Fields → Fields

  pub data Items : Type 0 where
    nil : Items
    cons : Value → Items → Items

pub Value-discrete : Discrete Value
Value-discrete = hlevel ℕ_discrete
