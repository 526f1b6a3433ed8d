-- ===== src/Node/Tests.antt =====
-- A JSON library for the tests, whose objects are chains of fields.
pub mod Settings
pub mod Config
pub mod Daemon
use Prim.Native.String.{String}
use spider_net.Prelude.{
  ℕ, ◌≡◌, refl, Bool, true, false, List, [], ◌∷◌, Option, none, some, if◌then◌else◌, Result, ok,
  err,
}
use spider_net.Prelude.Text.{Text, codes, text_eq}
use spider_net.Node.Json.{Json}

mutual
  pub data Value : Type 0 where
    text : Text → Value
    flag : Bool → Value
    number : ℕ → Value
    array : List Text → Value
    object : Object → Value

  pub data Object : Type 0 where
    empty : Object
    field : Text → Value → Object → Object

abbrev pub as_str : Value → Option Text
as_str (text s) = some s
as_str other = none

abbrev pub as_object : Value → Option Object
as_object (object o) = some o
as_object other = none

abbrev pub fields : Object → List (Text × Value)
fields empty = []
fields (field name value o) = (name, value) ∷ fields o

abbrev pub get : Object → Text → Option Value
get empty j = none
get (field name value o) j = if text_eq j name then some value else get o j

-- The texts of an array; the tests have no other arrays.
abbrev pub texts : List Value → List Text
texts [] = []
texts (text s ∷ values) = s ∷ texts values
texts (other ∷ values) = texts values

abbrev pub of_object : List (Text × Value) → Object
of_object [] = empty
of_object ((name, value) ∷ more) = field name value (of_object more)

abbrev pub chains : Json Value Object
chains = record {
  as_str = as_str;
  as_object = as_object;
  fields = fields;
  get = get;
  insert = λ o name value. field name value o;
  of_object = λ list. object (of_object list);
  of_text = text;
  of_array = λ values. array (texts values);
  of_bool = flag;
  of_number = number;
  get-insert = λ o k j v. refl;
}

-- A parser that knows one text.
abbrev pub known : {A : Type 0} → A → Text → Text → Option A
known a s t = if text_eq s t then some a else none
