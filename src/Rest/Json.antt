-- ===== src/Rest/Json.antt =====
-- The values that the gateway writes with `JSON.stringify`, and an HTTP response.
use cpp_slp_graph_search.Prelude.{ℕ, List, [], ◌∷◌, Bool}

mutual
  pub data Json : Type 0 where
    null : Json
    bool : Bool → Json
    num : ℕ → Json
    str : List ℕ → Json
    arr : Items → Json
    obj : Fields → Json

  pub data Items : Type 0 where
    nil : Items
    item : Json → Items → Items

  pub data Fields : Type 0 where
    end : Fields
    field : List ℕ → Json → Fields → Fields

abbrev pub items : List Json → Items
items [] = nil
items (j ∷ js) = item j (items js)

abbrev pub fields : List (List ℕ × Json) → Fields
fields [] = end
fields ((k, j) ∷ fs) = field k j (fields fs)

-- `json_type` tells whether `Content-Type: application/json` was set before the end.
pub record Response : Type 0 where
  pub json_type : Bool
  pub body : Json
