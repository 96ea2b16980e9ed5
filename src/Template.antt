-- ===== src/Template.antt =====
-- Go's text/template, as far as playground/manifest.go and playground/local_runner.go use it:
-- literal text and actions `{{Name "text" ... 80}}` that call a function of the FuncMap.
-- An action of any other form (pipelines, comments, trim markers, escapes) is a parse error here.
pub mod Laws
pub mod Actions
pub mod Runs
use builder_playground.Prelude.{
  ℕ, ◌+◌, ◌-◌, ◌*◌, Char, code, String, Bool, ◌||◌, Option, none, some, List, [], ◌∷◌, ◌++◌, eqb,
  if◌then◌else◌, ◌⊕◌, chr, is_digit, is_letter,
}

-- An operand of an action.
pub data Token : Type 0 where
  word : String → Token
  quoted : String → Token
  number : ℕ → Token

pub data Piece : Type 0 where
  char : Char → Piece
  call : List Token → Piece

-- Where the lexer stands; each carries the operands that it has read of the current action.
pub data Mode : Type 0 where
  text brace broken : Mode
  gap after closing : List Token → Mode
  in_word in_quote : List Token → String → Mode
  in_number : List Token → ℕ → Mode

abbrev pub is_space : ℕ → Bool
is_space c = eqb c b' ' || eqb c b'\t' || eqb c b'\n' || eqb c b'\r'

-- After an operand: a space, or the end of the action.
abbrev pub after_operand : List Token → ℕ → Mode
after_operand toks c = if is_space c then gap toks else if eqb c b'}' then closing toks else broken

unfoldable pub next_mode : Mode → Char → Mode
next_mode text c = if eqb (code c) b'{' then brace else text
next_mode brace c = if eqb (code c) b'{' then gap [] else text
next_mode broken c = broken
next_mode (gap toks) c =
    if is_space (code c)
    then gap toks
    else if eqb (code c) b'"'
    then in_quote toks ""
    else if eqb (code c) b'}'
    then closing toks
    else if is_digit (code c)
    then in_number toks (code c - 48)
    else if is_letter (code c)
    then in_word toks (chr c)
    else broken
next_mode (after toks) c = after_operand toks (code c)
next_mode (closing toks) c = if eqb (code c) b'}' then text else broken
next_mode (in_word toks w) c =
    if is_letter (code c) || is_digit (code c)
    then in_word toks (w ⊕ chr c)
    else after_operand (toks ++ word w ∷ []) (code c)
next_mode (in_quote toks w) c =
    if eqb (code c) b'"'
    then after (toks ++ quoted w ∷ [])
    else if eqb (code c) b'\\' || eqb (code c) b'\n'
    then broken
    else in_quote toks (w ⊕ chr c)
next_mode (in_number toks n) c =
    if is_digit (code c)
    then in_number toks (n * 10 + (code c - 48))
    else after_operand (toks ++ number n ∷ []) (code c)

-- What a character completes.
abbrev pub emitted : Mode → Char → List Piece
emitted text c = if eqb (code c) b'{' then [] else char c ∷ []
emitted brace c = if eqb (code c) b'{' then [] else char "{" ∷ char c ∷ []
emitted (closing toks) c = if eqb (code c) b'}' then call toks ∷ [] else []
emitted _ c = []

-- At the end of the template; an open action is an error.
abbrev pub finish : Mode → Option (List Piece)
finish text = some []
finish brace = some (char "{" ∷ [])
finish _ = none

abbrev pub prepend : List Piece → Option (List Piece) → Option (List Piece)
prepend out none = none
prepend out (some ps) = some (out ++ ps)

unfoldable pub scan : Mode → String → Option (List Piece)
scan m String.[] = finish m
scan m (String.◌∷◌ c s) = prepend (emitted m c) (scan (next_mode m c) s)

-- template.New("").Parse; `none` is a parse error.
unfoldable pub parse : String → Option (List Piece)
unfolding scan next_mode
parse s = scan text s

-- tpl.Execute with the functions of `f`, which may fail and may record what they see in a state.
unfoldable pub execute {ℓ} :
    {S : Type ℓ} → (List Token → S → Option (String × S)) → List Piece → S → Option (String × S)
execute f [] s = some ("", s)
execute f (char c ∷ ps) s = elim (execute f ps s) [
  | none ↦ none
  | some (t, s') ↦ some (chr c ⊕ t, s')
]
execute f (call toks ∷ ps) s = elim (f toks s) [
  | none ↦ none
  | some (t, s1) ↦ elim (execute f ps s1) [ none ↦ none | some (u, s2) ↦ some (t ⊕ u, s2) ]
]
