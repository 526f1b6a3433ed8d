-- ===== src/Node/Json.antt =====
-- What the code uses of `serde_json`: values `V` and their objects `O`.
use spider_net.Prelude.{ℕ, ◌≡◌, Bool, List, Option, none, some, if◌then◌else◌}
use spider_net.Prelude.Text.{Text, text_eq}

pub record Json (V O : Type 0) : Type 0 where
  pub as_str : V → Option Text
  pub as_object : V → Option O
  -- The fields of an object in the order of its iterator.
  pub fields : O → List (Text × V)
  pub get : O → Text → Option V
  pub insert : O → Text → V → O
  -- `json!` of an object, a text, an array, a Boolean and a number.
  pub of_object : List (Text × V) → V
  pub of_text : Text → V
  pub of_array : List V → V
  pub of_bool : Bool → V
  pub of_number : ℕ → V
  pub get-insert :
      (o : O) (k j : Text) (v : V)
      → get (insert o k v) j ≡ (if text_eq j k then some v else get o j)

module _ {V O : Type 0} (json : Json V O) where
  -- `Value::get`, which finds nothing in a value that is no object.
  unfoldable pub get_value : V → Text → Option V
  get_value v name = elim (json.as_object v) [ none ↦ none | some o ↦ json.get o name ]

  -- `get` and then `as_str`.
  unfoldable pub get_text : V → Text → Option Text
  get_text v name = elim (get_value v name) [ none ↦ none | some field ↦ json.as_str field ]
