-- ===== src/Redact/Values.antt =====
-- A Go `interface{}` as encoding/json and the program make them, by the cases of `value` in
-- internal/redact/redact.go; `F` is float64, and a map is an association list.
use orchestrator_cli.Common.{String, Bool, List}
use orchestrator_cli.Common.Int.{ℤ}

mutual
  pub data Value (F : Type 0) : Type 0 where
    null : Value F
    boolean : Bool → Value F
    number : F → Value F
    integer : ℤ → Value F
    text : String → Value F
    texts : List String → Value F
    text_map : List (String × String) → Value F
    array : Items F → Value F
    object : Fields F → Value F

  pub data Items (F : Type 0) : Type 0 where
    nil : Items F
    cons : Value F → Items F → Items F

  pub data Fields (F : Type 0) : Type 0 where
    end : Fields F
    field : String → Value F → Fields F → Fields F
