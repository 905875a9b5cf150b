-- ===== src/Json.antt =====
-- `serde_json::Value`, the JSON values that the program hashes and stores.
--
-- A number is the text that `serde_json::Number` prints, since the program never computes with one.
-- An object is its entries in the order in which `serde_json::Map` iterates.
use halley.Common.{String, Bool, List, [], ◌∷◌}

mutual
  pub data Value : Type 0 where
    null : Value
    bool : Bool → Value
    number : String → Value
    string : String → Value
    array : Items → Value
    object : Fields → Value

  pub data Items : Type 0 where
    nil : Items
    cons : Value → Items → Items

  pub data Fields : Type 0 where
    end : Fields
    field : String → Value → Fields → Fields

abbrev pub fields : Fields → List (String × Value)
fields end = []
fields (field k v fs) = (k, v) ∷ fields fs

abbrev pub items : Items → List Value
items nil = []
items (cons v vs) = v ∷ items vs

abbrev pub of_fields : List (String × Value) → Fields
of_fields [] = end
of_fields ((k, v) ∷ l) = field k v (of_fields l)

abbrev pub of_items : List Value → Items
of_items [] = nil
of_items (v ∷ l) = cons v (of_items l)

-- `json!({ "role": role, "content": content })`: a map iterates in the order of its keys.
abbrev pub message : String → Value → Value
message role content = object (field "content" content (field "role" (string role) end))

-- `json!({ "text": text })`
abbrev pub text_object : String → Value
text_object s = object (field "text" (string s) end)
