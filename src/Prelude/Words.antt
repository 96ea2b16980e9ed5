-- ===== src/Prelude/Words.antt =====
-- String functions of Go's standard library that the program calls, on native strings.
use Prim.Native.Nat.{ℕ, zero, suc, ◌-◌, ◌/◌, ◌%◌}
use Prim.Native.Char.{Char, code}
use Prim.Native.String.{String}
use mathlib.Core.Bool.{Bool, true, false, ◌&&◌, ◌||◌}
use mathlib.Core.Option.{Option, none, some}
use mathlib.Core.List.{List, [], ◌∷◌}
use mathlib.Core.Path.{◌≡◌, refl, ap}
use builder_playground.Prelude.Flow.{leb, eqb, ltb, if◌then◌else◌}

infixr 66 ◌⊕◌
-- Concatenation of strings, `+` in Go.
abbrev pub ◌⊕◌ : String → String → String
String.[] ⊕ t = t
(String.◌∷◌ c s) ⊕ t = String.◌∷◌ c (s ⊕ t)

abbrev pub chr : Char → String
chr c = String.◌∷◌ c String.[]

unfoldable pub digit : ℕ → String
digit zero = "0"
digit (suc zero) = "1"
digit (suc (suc zero)) = "2"
digit (suc (suc (suc zero))) = "3"
digit (suc (suc (suc (suc zero)))) = "4"
digit (suc (suc (suc (suc (suc zero))))) = "5"
digit (suc (suc (suc (suc (suc (suc zero)))))) = "6"
digit (suc (suc (suc (suc (suc (suc (suc zero))))))) = "7"
digit (suc (suc (suc (suc (suc (suc (suc (suc zero)))))))) = "8"
digit _ = "9"

-- The digits of `n` in front of `rest`; the fuel is above `n`.
unfoldable pub digits_from : ℕ → ℕ → String → String
unfolding digit
digits_from zero n rest = rest
digits_from (suc f) n rest =
    let more = digits_from f (n / 10) (digit (n % 10) ⊕ rest) in
    if ltb n 10 then digit n ⊕ rest else more

-- `%d` of a natural number.
unfoldable pub decimal : ℕ → String
unfolding digits_from
decimal n = digits_from (suc n) n ""

abbrev pub is_digit : ℕ → Bool
is_digit c = leb b'0' c && leb c b'9'

abbrev pub is_letter : ℕ → Bool
is_letter c = leb b'a' c && leb c b'z' || leb b'A' c && leb c b'Z' || eqb c b'_'

-- strings.Join
abbrev pub join : List String → String → String
join [] sep = ""
join (s ∷ []) sep = s
join (s ∷ (t ∷ ts)) sep = s ⊕ sep ⊕ join (t ∷ ts) sep

-- strings.HasPrefix
abbrev pub has_prefix : String → String → Bool
has_prefix s String.[] = true
has_prefix String.[] (String.◌∷◌ d p) = false
has_prefix (String.◌∷◌ c s) (String.◌∷◌ d p) = eqb (code c) (code d) && has_prefix s p

-- strings.Contains
abbrev pub contains_text : String → String → Bool
contains_text String.[] p = has_prefix String.[] p
contains_text (String.◌∷◌ c s) p = has_prefix (String.◌∷◌ c s) p || contains_text s p

abbrev pub size : String → ℕ
size String.[] = zero
size (String.◌∷◌ c s) = suc (size s)

-- The replacements in a text, of which the first characters belong to one that was made.
unfoldable pub replace_from : ℕ → String → String → String → String
replace_from skip old new String.[] = ""
replace_from (suc skip) old new (String.◌∷◌ c s) = replace_from skip old new s
replace_from zero old new (String.◌∷◌ c s) =
    let replaced = new ⊕ replace_from (size old - 1) old new s in
    let kept = String.◌∷◌ c (replace_from zero old new s) in
    if has_prefix (String.◌∷◌ c s) old then replaced else kept

-- strings.ReplaceAll of a text that is not empty.
unfoldable pub replace_all : String → String → String → String
unfolding replace_from
replace_all s old new = replace_from zero old new s

-- strings.SplitN with the limit 2: the text before the separator, and the rest if it is there.
unfoldable pub split_two : String → ℕ → String × Option String
split_two String.[] sep = ("", none)
split_two (String.◌∷◌ c s) sep =
    let later = split_two s sep in
    if eqb (code c) sep then ("", some s) else (String.◌∷◌ c later.0, later.1)

module _ (sep : ℕ) where
  unfoldable pub split_chars : String → String → List String
  split_chars cur String.[] = cur ∷ []
  split_chars cur (String.◌∷◌ c s) =
      let cut = cur ∷ split_chars "" s in
      let on = split_chars (cur ⊕ chr c) s in if eqb (code c) sep then cut else on

-- strings.Split at a separator of one character, given by its code.
unfoldable pub split : String → ℕ → List String
unfolding split_chars
split s sep = split_chars sep "" s

-- Every character's code has a property.
abbrev pub Chars {ℓ} : (ℕ → Type ℓ) → String → Type ℓ
Chars P String.[] = Unit
Chars P (String.◌∷◌ c s) = P (code c) × Chars P s

pub ⊕-nil : (s : String) → s ⊕ "" ≡ s
⊕-nil String.[] = refl
⊕-nil (String.◌∷◌ c s) = ap (String.◌∷◌ c) (⊕-nil s)

pub ⊕_assoc : (s t u : String) → (s ⊕ t) ⊕ u ≡ s ⊕ t ⊕ u
⊕_assoc String.[] t u = refl
⊕_assoc (String.◌∷◌ c s) t u = ap (String.◌∷◌ c) (⊕_assoc s t u)

pub Chars-⊕ {ℓ} : (P : ℕ → Type ℓ) (s t : String) → Chars P s → Chars P t → Chars P (s ⊕ t)
Chars-⊕ P String.[] t h k = k
Chars-⊕ P (String.◌∷◌ c s) t (p, h) k = (p, Chars-⊕ P s t h k)

pub Chars-map {ℓ κ} :
    {P : ℕ → Type ℓ} {Q : ℕ → Type κ} → ((c : ℕ) → P c → Q c) → (s : String) → Chars P s → Chars Q s
Chars-map {P} {Q} f String.[] h = tt
Chars-map {P} {Q} f (String.◌∷◌ c s) (p, h) = (f (code c) p, Chars-map f s h)
