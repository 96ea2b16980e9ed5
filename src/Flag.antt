-- ===== src/Flag.antt =====
-- playground/utils.go: the values of flags, `nullableUint64Value` and `MapStringFlag`.
pub mod Numbers
use builder_playground.Prelude.{
  ℕ, ◌+◌, ◌-◌, ◌*◌, ◌^◌, String, Bool, true, false, ◌||◌, code, Option, none, some, List, [], ◌∷◌,
  ◌⊕◌, ◌==◌, if◌then◌else◌, ltb, is_digit, decimal, join, split, Result, ok, err, GoMap, insert,
}

-- The digits of a number in base ten, in front of which a number was read.
unfoldable pub parse_digits : ℕ → String → Option ℕ
parse_digits n String.[] = some n
parse_digits n (String.◌∷◌ c s) =
    let rest = parse_digits (n * 10 + (code c - 48)) s in if is_digit (code c) then rest else none

abbrev pub in_range : Option ℕ → Result String ℕ
in_range none = err "invalid syntax"
in_range (some n) = if ltb n (2 ^ 64) then ok n else err "value out of range"

-- strconv.ParseUint with base 10 and 64 bits.
unfoldable pub parse_uint : String → Result String ℕ
unfolding parse_digits
parse_uint s = if s == "" then err "invalid syntax" else in_range (parse_digits 0 s)

-- `String` of `nullableUint64Value`
unfoldable pub nullable_string : Option ℕ → String
unfolding decimal
nullable_string none = "nil"
nullable_string (some n) = decimal n

abbrev pub set_to : Result String ℕ → Result String (Option ℕ)
set_to (err e) = err e
set_to (ok n) = ok (some n)

-- `Set` of `nullableUint64Value`: the value that the pointer has then.
unfoldable pub nullable_set : String → Result String (Option ℕ)
unfolding parse_uint
nullable_set s = if s == "" || s == "nil" then ok none else set_to (parse_uint s)

abbrev pub pairs : GoMap String → List String
pairs [] = []
pairs ((k, v) ∷ more) = (k ⊕ "=" ⊕ v) ∷ pairs more

-- `String` of `MapStringFlag`
unfoldable pub map_string : GoMap String → String
map_string n = "(" ⊕ join (pairs n) "," ⊕ ")"

abbrev pub set_parts : List String → GoMap String → Result String (GoMap String)
set_parts (k ∷ (v ∷ [])) n = ok (insert k v n)
set_parts _ n = err "expected k=v for flag"

-- `Set` of `MapStringFlag`
unfoldable pub map_set : String → GoMap String → Result String (GoMap String)
unfolding split insert
map_set s n = set_parts (split s b'=') n
