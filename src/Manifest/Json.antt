-- ===== src/Manifest/Json.antt =====
-- The values of playground/manifest.go in encoding/json: texts, numbers, lists, maps and fields. Objects have each key once, in the spelling of the tags, and a Go map has the order of its list.
pub mod Structs
pub mod RoundTrip
use builder_playground.Prelude.{
  ℕ, ◌*◌, ◌/◌, ◌^◌, String, Bool, true, false, Option, none, some, List, [], ◌∷◌, ltb, decimal,
  ◌==◌, if◌then◌else◌, Result, ok, err, ◌>>=◌, GoMap,
}
use builder_playground.Flag.{parse_digits}
use builder_playground.Genesis.{
  Json, null, number, text, array, object, Items, no_items, item, Fields, end, field, get_field,
}

-- How values of a Go type are written, read, and left when nothing is read.
pub record Codec (A : Type 0) : Type 0 where
  pub marshal : A → Json
  pub unmarshal : Json → Result String A
  pub zero : A

abbrev pub mismatch : {A : Type 0} → Result String A
mismatch = err "json: cannot unmarshal"

abbrev pub unmarshal_string : Json → Result String String
unmarshal_string (text s) = ok s
unmarshal_string null = ok ""
unmarshal_string _ = mismatch

abbrev pub string_codec : Codec String
string_codec = record { marshal = text; unmarshal = unmarshal_string; zero = "" }

-- Numbers of int and of int64; none is negative here.
abbrev pub in_int : Option ℕ → Result String ℕ
in_int none = mismatch
in_int (some n) = if ltb n (2 ^ 63) then ok n else mismatch

unfoldable pub unmarshal_int : Json → Result String ℕ
unfolding parse_digits
unmarshal_int (number s) = in_int (parse_digits 0 s)
unmarshal_int null = ok 0
unmarshal_int _ = mismatch

unfoldable pub marshal_int : ℕ → Json
unfolding decimal
marshal_int n = number (decimal n)

abbrev pub int_codec : Codec ℕ
int_codec = record { marshal = marshal_int; unmarshal = unmarshal_int; zero = 0 }

-- A `time.Duration` is written in nanoseconds; a model in seconds cuts the rest.
abbrev pub duration_codec : Codec ℕ
duration_codec = record {
  marshal = λ n. marshal_int (n * 10 ^ 9);
  unmarshal = λ j. unmarshal_int j >>= λ n. ok (n / 10 ^ 9);
  zero = 0;
}

module _ {A : Type 0} (c : Codec A) where
  abbrev pub items_of : List A → Items
  items_of [] = no_items
  items_of (x ∷ xs) = item (c.marshal x) (items_of xs)

  abbrev pub list_of : Items → Result String (List A)
  list_of no_items = ok []
  list_of (item j js) = do x ← c.unmarshal j; xs ← list_of js; ok (x ∷ xs)

  abbrev pub unmarshal_list : Json → Result String (List A)
  unmarshal_list (array js) = list_of js
  unmarshal_list null = ok []
  unmarshal_list _ = mismatch

  abbrev pub list_codec : Codec (List A)
  list_codec = record { marshal = λ xs. array (items_of xs); unmarshal = unmarshal_list; zero = [] }

  abbrev pub unmarshal_pointer : Json → Result String (Option A)
  unmarshal_pointer null = ok none
  unmarshal_pointer j = c.unmarshal j >>= λ a. ok (some a)

  abbrev pub marshal_pointer : Option A → Json
  marshal_pointer none = null
  marshal_pointer (some a) = c.marshal a

  abbrev pub pointer_codec : Codec (Option A)
  pointer_codec = record { marshal = marshal_pointer; unmarshal = unmarshal_pointer; zero = none }

  -- A field of a struct: a key that is not there leaves the value as it was.
  abbrev pub member_of : Option Json → Result String A
  member_of none = ok c.zero
  member_of (some j) = c.unmarshal j

  abbrev pub member : String → Fields → Result String A
  member key fs = member_of (get_field key fs)

  abbrev pub always : A → Option Json
  always a = some (c.marshal a)

-- A map of strings.
abbrev pub fields_of : GoMap String → Fields
fields_of [] = end
fields_of ((k, v) ∷ m) = field k (text v) (fields_of m)

abbrev pub map_of : Fields → Result String (GoMap String)
map_of end = ok []
map_of (field k j fs) = do v ← unmarshal_string j; m ← map_of fs; ok ((k, v) ∷ m)

abbrev pub unmarshal_map : Json → Result String (GoMap String)
unmarshal_map (object fs) = map_of fs
unmarshal_map null = ok []
unmarshal_map _ = mismatch

abbrev pub map_codec : Codec (GoMap String)
map_codec = record { marshal = λ m. object (fields_of m); unmarshal = unmarshal_map; zero = [] }

-- `omitempty`
abbrev pub unless_no_keys : GoMap String → Option Json
unless_no_keys [] = none
unless_no_keys (entry ∷ m) = some (map_codec.marshal (entry ∷ m))

abbrev pub unless_empty : {A : Type 0} → Codec (List A) → List A → Option Json
unless_empty c [] = none
unless_empty c (x ∷ xs) = some (c.marshal (x ∷ xs))

abbrev pub unless_nil : {A : Type 0} → Codec A → Option A → Option Json
unless_nil c none = none
unless_nil c (some a) = some (c.marshal a)

abbrev pub unless_blank : String → Option Json
unless_blank s = if s == "" then none else some (text s)

-- The fields that are written.
abbrev pub present : List (String × Option Json) → Fields
present [] = end
present ((k, none) ∷ entries) = present entries
present ((k, some j) ∷ entries) = field k j (present entries)

abbrev pub unmarshal_struct : {A : Type 0} → A → (Fields → Result String A) → Json → Result String A
unmarshal_struct zero members (object fs) = members fs
unmarshal_struct zero members null = ok zero
unmarshal_struct zero members _ = mismatch
