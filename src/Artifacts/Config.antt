-- ===== src/Artifacts/Config.antt =====
-- playground/artifacts.go: `convert`, which prints the configuration of the beacon chain, and the
-- placeholder of config.yaml.tmpl.
use builder_playground.Prelude.{
  ℕ, zero, suc, String, Bool, List, [], ◌∷◌, ◌/◌, ◌%◌, ltb, eqb, if◌then◌else◌, ◌⊕◌, ◌==◌, decimal,
  digit, join, has_prefix, size, Result, ok, err, ◌>>=◌, Stop, panics,
}

-- The kinds of values that `convert` tells apart: arrays and slices of bytes, strings, `uint8` and
-- `uint64`, `int` with its sign, and the name of any other kind.
pub data FieldValue : Type 0 where
  byte_values : List ℕ → FieldValue
  string_value : String → FieldValue
  uint_value : ℕ → FieldValue
  int_value : Bool → ℕ → FieldValue
  other_kind : String → FieldValue

-- A field of `BeaconChainConfig` with its yaml tag, which is empty where there is none.
pub record ConfigField : Type 0 where
  pub tag : String
  pub value : FieldValue

abbrev pub hex_letter : ℕ → String
hex_letter n =
    if eqb n 10
    then "a"
    else if eqb n 11
    then "b"
    else if eqb n 12
    then "c"
    else if eqb n 13
    then "d"
    else if eqb n 14
    then "e"
    else "f"

abbrev pub hex_digit : ℕ → String
hex_digit n = if ltb n 10 then digit n else hex_letter n

-- hex.EncodeToString
unfoldable pub hex_text : List ℕ → String
unfolding digit
hex_text [] = ""
hex_text (b ∷ bs) = hex_digit (b / 16) ⊕ hex_digit (b % 16) ⊕ hex_text bs

unfoldable pub value_text : String → FieldValue → Result Stop String
unfolding hex_text decimal
value_text tag (byte_values bs) = ok ("0x" ⊕ hex_text bs)
value_text tag (string_value s) = ok s
value_text tag (uint_value n) = ok (decimal n)
value_text tag (int_value negative n) = ok (if negative then "-" ⊕ decimal n else decimal n)
value_text tag (other_kind kind) =
    err (panics ("BUG: unsupported type, tag '" ⊕ tag ⊕ "', err: '" ⊕ kind ⊕ "'"))

-- The lines of the fields that have a tag.
unfoldable pub config_lines : List ConfigField → Result Stop (List String)
unfolding value_text
config_lines [] = ok []
config_lines (f ∷ fs) =
    let rest = config_lines fs in
    if f.tag == ""
    then rest
    else value_text f.tag f.value >>= λ res_typ.
        rest >>= λ lines. ok ((f.tag ⊕ ": " ⊕ res_typ) ∷ lines)

-- `convert`
unfoldable pub convert : List ConfigField → Result Stop String
unfolding config_lines
convert fields = config_lines fields >>= λ vals. ok (join vals "\n")

abbrev pub skip_chars : ℕ → String → String
skip_chars zero s = s
skip_chars (suc n) String.[] = ""
skip_chars (suc n) (String.◌∷◌ c s) = skip_chars n s

-- strings.Replace of a text that is not empty, at its first occurrence.
unfoldable pub replace_first : String → String → String → String
replace_first String.[] old new = ""
replace_first (String.◌∷◌ c s) old new =
    let later = String.◌∷◌ c (replace_first s old new) in
    if has_prefix (String.◌∷◌ c s) old then new ⊕ skip_chars (size old) (String.◌∷◌ c s) else later
