-- ===== src/Template/Laws.antt =====
-- How the lexer reads text, quoted operands, numbers and whole actions.
use builder_playground.Prelude.{
  ℕ, zero, suc, ◌+◌, ◌*◌, ◌/◌, ◌%◌, ◌<◌, ◌≤◌, ◌≡◌, refl, ap, ◌∙◌, ◌≢◌, Char, code, String, Option,
  none, some, List, [], ◌∷◌, ◌++◌, arith, eqb, ltb, Bool-cases, inl, ltb→lt, inr, ◌⊕◌, chr, digit,
  digits_from, decimal, Chars, Chars-⊕, Chars-map, ⊕-nil, ⊕_assoc,
}
use builder_playground.Template.{
  Token, quoted, Piece, char, text, gap, after, in_quote, in_number, prepend, next_mode, scan,
}

-- Text that opens no action.
abbrev pub IsLiteral : String → Type 0
IsLiteral = Chars (λ c. c ≢ b'{')

-- An operand that can stand between double quotes as it is.
abbrev pub IsQuotable : String → Type 0
IsQuotable = Chars (λ c. (c ≢ b'"') × (c ≢ b'\\') × (c ≢ b'\n'))

abbrev pub IsDecimal : String → Type 0
IsDecimal = Chars (λ c. (b'0' ≤ c) × (c ≤ b'9'))

abbrev pub chars : String → List Piece
chars String.[] = []
chars (String.◌∷◌ c s) = char c ∷ chars s

pub prepend-nil : (o : Option (List Piece)) → prepend [] o ≡ o
prepend-nil none = refl
prepend-nil (some ps) = refl

prepend-prepend :
    (p : Piece) (ps : List Piece) (o : Option (List Piece))
    → prepend (p ∷ []) (prepend ps o) ≡ prepend (p ∷ ps) o
prepend-prepend p ps none = refl
prepend-prepend p ps (some qs) = refl

next_mode-text : (c : Char) → code c ≢ b'{' → next_mode text c ≡ text
unfolding next_mode
next_mode-text c p = ground arith

pub scan-text :
    (s rest : String) → IsLiteral s → scan text (s ⊕ rest) ≡ prepend (chars s) (scan text rest)
unfolding scan
scan-text String.[] rest h = rw prepend-nil refl
scan-text (String.◌∷◌ c s) rest (p, h) = elim (Bool-cases (eqb (code c) b'{')) [
  | inl e ↦ ground arith
  | inr e ↦ rw (e, next_mode-text c p, scan-text s rest h, prepend-prepend) refl
]

next_mode-in_quote :
    (toks : List Token) (w : String) (c : Char)
    → (code c ≢ b'"') × (code c ≢ b'\\') × (code c ≢ b'\n')
    → next_mode (in_quote toks w) c ≡ in_quote toks (w ⊕ chr c)
unfolding next_mode
next_mode-in_quote toks w c h = ground arith

pub scan-in_quote :
    (toks : List Token) (w s rest : String)
    → IsQuotable s
    → scan (in_quote toks w) (s ⊕ rest) ≡ scan (in_quote toks (w ⊕ s)) rest
unfolding scan
scan-in_quote toks w String.[] rest h = rw ⊕-nil refl
scan-in_quote toks w (String.◌∷◌ c s) rest (p, h) =
    rw (next_mode-in_quote toks w c p, prepend-nil)
      (scan-in_quote toks (w ⊕ chr c) s rest h
        ∙ ap (λ x. scan (in_quote toks x) rest) (⊕_assoc w (chr c) s))

-- A whole quoted operand, from its opening to its closing quote.
pub scan-quoted :
    (toks : List Token) (s rest : String)
    → IsQuotable s
    → scan (gap toks) ("\"" ⊕ s ⊕ "\"" ⊕ rest) ≡ scan (after (toks ++ quoted s ∷ [])) rest
unfolding scan next_mode
scan-quoted toks s rest h = prepend-nil _ ∙ scan-in_quote toks "" s ("\"" ⊕ rest) h ∙ prepend-nil _

scan-digit :
    (toks : List Token) (n d : ℕ) (rest : String)
    → d < 10
    → scan (in_number toks n) (digit d ⊕ rest) ≡ scan (in_number toks (n * 10 + d)) rest
unfolding scan digit next_mode
scan-digit toks n zero rest h = prepend-nil _
scan-digit toks n (suc zero) rest h = prepend-nil _
scan-digit toks n (suc (suc zero)) rest h = prepend-nil _
scan-digit toks n (suc (suc (suc zero))) rest h = prepend-nil _
scan-digit toks n (suc (suc (suc (suc zero)))) rest h = prepend-nil _
scan-digit toks n (suc (suc (suc (suc (suc zero))))) rest h = prepend-nil _
scan-digit toks n (suc (suc (suc (suc (suc (suc zero)))))) rest h = prepend-nil _
scan-digit toks n (suc (suc (suc (suc (suc (suc (suc zero))))))) rest h = prepend-nil _
scan-digit toks n (suc (suc (suc (suc (suc (suc (suc (suc zero)))))))) rest h = prepend-nil _
scan-digit toks n (suc (suc (suc (suc (suc (suc (suc (suc (suc zero))))))))) rest h = prepend-nil _
scan-digit toks n (suc (suc (suc (suc (suc (suc (suc (suc (suc (suc d)))))))))) rest h =
    absurd (omega arith)

scan-first_digit :
    (toks : List Token) (d : ℕ) (rest : String)
    → d < 10
    → scan (gap toks) (digit d ⊕ rest) ≡ scan (in_number toks d) rest
unfolding scan digit next_mode
scan-first_digit toks zero rest h = prepend-nil _
scan-first_digit toks (suc zero) rest h = prepend-nil _
scan-first_digit toks (suc (suc zero)) rest h = prepend-nil _
scan-first_digit toks (suc (suc (suc zero))) rest h = prepend-nil _
scan-first_digit toks (suc (suc (suc (suc zero)))) rest h = prepend-nil _
scan-first_digit toks (suc (suc (suc (suc (suc zero))))) rest h = prepend-nil _
scan-first_digit toks (suc (suc (suc (suc (suc (suc zero)))))) rest h = prepend-nil _
scan-first_digit toks (suc (suc (suc (suc (suc (suc (suc zero))))))) rest h = prepend-nil _
scan-first_digit toks (suc (suc (suc (suc (suc (suc (suc (suc zero)))))))) rest h = prepend-nil _
scan-first_digit toks (suc (suc (suc (suc (suc (suc (suc (suc (suc zero))))))))) rest h =
    prepend-nil _
scan-first_digit toks (suc (suc (suc (suc (suc (suc (suc (suc (suc (suc d)))))))))) rest h =
    absurd (omega arith)

scan-digits_from :
    (toks : List Token) (f n : ℕ) (rest : String)
    → n < f
    → scan (gap toks) (digits_from f n rest) ≡ scan (in_number toks n) rest
unfolding digits_from
scan-digits_from toks zero n rest h = absurd (omega arith)
scan-digits_from toks (suc f) n rest h = elim (Bool-cases (ltb n 10)) [
  | inl small ↦ rw small (scan-first_digit toks n rest (ltb→lt n 10 small))
  | inr big ↦ rw big (
      scan-digits_from toks f (n / 10) (digit (n % 10) ⊕ rest) (ground arith)
      ∙ scan-digit toks (n / 10) (n % 10) rest (omega arith)
      ∙ ap (λ k. scan (in_number toks k) rest) (omega arith))
]

⊕-digits_from : (f n : ℕ) (s rest : String) → digits_from f n s ⊕ rest ≡ digits_from f n (s ⊕ rest)
unfolding digits_from
⊕-digits_from zero n s rest = refl
⊕-digits_from (suc f) n s rest = elim (Bool-cases (ltb n 10)) [
  | inl small ↦ rw small (⊕_assoc (digit n) s rest)
  | inr big ↦ rw big (
      ⊕-digits_from f (n / 10) (digit (n % 10) ⊕ s) rest
      ∙ ap (digits_from f (n / 10)) (⊕_assoc (digit (n % 10)) s rest))
]

-- A number in decimal is read back.
pub scan-decimal :
    (toks : List Token) (n : ℕ) (rest : String)
    → scan (gap toks) (decimal n ⊕ rest) ≡ scan (in_number toks n) rest
unfolding decimal
scan-decimal toks n rest =
    ap (scan (gap toks)) (⊕-digits_from (suc n) n "" rest)
    ∙ scan-digits_from toks (suc n) n rest (omega arith)

digit-IsDecimal : (d : ℕ) → IsDecimal (digit d)
unfolding digit
digit-IsDecimal zero = omega arith
digit-IsDecimal (suc zero) = omega arith
digit-IsDecimal (suc (suc zero)) = omega arith
digit-IsDecimal (suc (suc (suc zero))) = omega arith
digit-IsDecimal (suc (suc (suc (suc zero)))) = omega arith
digit-IsDecimal (suc (suc (suc (suc (suc zero))))) = omega arith
digit-IsDecimal (suc (suc (suc (suc (suc (suc zero)))))) = omega arith
digit-IsDecimal (suc (suc (suc (suc (suc (suc (suc zero))))))) = omega arith
digit-IsDecimal (suc (suc (suc (suc (suc (suc (suc (suc zero)))))))) = omega arith
digit-IsDecimal (suc (suc (suc (suc (suc (suc (suc (suc (suc d))))))))) = omega arith

digits_from-IsDecimal :
    (f n : ℕ) (rest : String) → IsDecimal rest → IsDecimal (digits_from f n rest)
unfolding digits_from
digits_from-IsDecimal zero n rest h = h
digits_from-IsDecimal (suc f) n rest h = elim (Bool-cases (ltb n 10)) [
  | inl small ↦
      rw small (Chars-⊕ (λ c. (b'0' ≤ c) × (c ≤ b'9')) (digit n) rest (digit-IsDecimal n) h)
  | inr big ↦ rw big (
      digits_from-IsDecimal f (n / 10) (digit (n % 10) ⊕ rest)
        (Chars-⊕ (λ c. (b'0' ≤ c) × (c ≤ b'9')) (digit (n % 10)) rest (digit-IsDecimal (n % 10)) h))
]

-- A number in decimal is digits.
pub decimal-IsDecimal : (n : ℕ) → IsDecimal (decimal n)
unfolding decimal
decimal-IsDecimal n = digits_from-IsDecimal (suc n) n "" tt

pub decimal-Chars :
    (P : ℕ → Type 0) → ((c : ℕ) → b'0' ≤ c → c ≤ b'9' → P c) → (n : ℕ) → Chars P (decimal n)
decimal-Chars P f n =
    Chars-map {P = λ c. (b'0' ≤ c) × (c ≤ b'9')} (λ c h. f c h.0 h.1) (decimal n)
      (decimal-IsDecimal n)

-- A number in decimal opens no action.
pub decimal-IsLiteral : (n : ℕ) → IsLiteral (decimal n)
decimal-IsLiteral n = decimal-Chars (λ c. c ≢ b'{') (λ c lo hi. omega arith) n
