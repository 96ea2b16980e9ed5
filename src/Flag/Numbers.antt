-- ===== src/Flag/Numbers.antt =====
-- The numbers of flags, playground/utils.go: what is printed is read back.
use builder_playground.Prelude.{
  Char, ℕ, zero, suc, ◌+◌, ◌*◌, ◌/◌, ◌%◌, ◌<◌, ◌^◌, String, true, false, Option, none, some, ◌≡◌,
  refl, sym, ap, ◌∙◌, ◌⊕◌, ◌==◌, if_cases, ltb, digit, digits_from, decimal, ok, Bool-cases, inl,
  inr, arith, eq_iff,
}
use builder_playground.Flag.{parse_digits, parse_uint, nullable_string, nullable_set}

parse_digits-digit :
    (n d : ℕ) (rest : String)
    → d < 10
    → parse_digits n (digit d ⊕ rest) ≡ parse_digits (n * 10 + d) rest
unfolding parse_digits digit
parse_digits-digit n zero rest h = refl
parse_digits-digit n (suc zero) rest h = refl
parse_digits-digit n (suc (suc zero)) rest h = refl
parse_digits-digit n (suc (suc (suc zero))) rest h = refl
parse_digits-digit n (suc (suc (suc (suc zero)))) rest h = refl
parse_digits-digit n (suc (suc (suc (suc (suc zero))))) rest h = refl
parse_digits-digit n (suc (suc (suc (suc (suc (suc zero)))))) rest h = refl
parse_digits-digit n (suc (suc (suc (suc (suc (suc (suc zero))))))) rest h = refl
parse_digits-digit n (suc (suc (suc (suc (suc (suc (suc (suc zero)))))))) rest h = refl
parse_digits-digit n (suc (suc (suc (suc (suc (suc (suc (suc (suc zero))))))))) rest h = refl
parse_digits-digit n (suc (suc (suc (suc (suc (suc (suc (suc (suc (suc d)))))))))) rest h =
    absurd (omega (arith, h))

-- The digits of a number, in front of a rest, are read as the number.
parse_digits-digits_from :
    (f n : ℕ) (rest : String) → n < f → parse_digits 0 (digits_from f n rest) ≡ parse_digits n rest
unfolding digits_from
parse_digits-digits_from zero n rest h = absurd (omega (arith, h))
parse_digits-digits_from (suc f) n rest h =
    if_cases (λ s. parse_digits 0 s ≡ parse_digits n rest) (ltb n 10)
      (λ e.
        parse_digits-digit 0 n rest (ground (arith, e))
        ∙ ap (λ m. parse_digits m rest) (omega arith))
      (λ e.
        parse_digits-digits_from f (n / 10) (digit (n % 10) ⊕ rest) (ground (arith, e, h))
        ∙ parse_digits-digit (n / 10) (n % 10) rest (omega arith)
        ∙ ap (λ m. parse_digits m rest) (omega arith))

cons-nonempty : (c : Char) (s : String) → (String.◌∷◌ c s == "") ≡ false
cons-nonempty c s = elim (Bool-cases (String.◌∷◌ c s == "")) [
  | inr e ↦ e
  | inl e ↦ (let bad = (eq_iff (String.◌∷◌ c s) "").0 e in cc)
]

digit-nonempty : (d : ℕ) (rest : String) → (digit d ⊕ rest == "") ≡ false
unfolding digit
digit-nonempty zero rest = cons-nonempty _ _
digit-nonempty (suc zero) rest = cons-nonempty _ _
digit-nonempty (suc (suc zero)) rest = cons-nonempty _ _
digit-nonempty (suc (suc (suc zero))) rest = cons-nonempty _ _
digit-nonempty (suc (suc (suc (suc zero)))) rest = cons-nonempty _ _
digit-nonempty (suc (suc (suc (suc (suc zero))))) rest = cons-nonempty _ _
digit-nonempty (suc (suc (suc (suc (suc (suc zero)))))) rest = cons-nonempty _ _
digit-nonempty (suc (suc (suc (suc (suc (suc (suc zero))))))) rest = cons-nonempty _ _
digit-nonempty (suc (suc (suc (suc (suc (suc (suc (suc zero)))))))) rest = cons-nonempty _ _
digit-nonempty (suc (suc (suc (suc (suc (suc (suc (suc (suc zero))))))))) rest = cons-nonempty _ _
digit-nonempty (suc (suc (suc (suc (suc (suc (suc (suc (suc (suc d)))))))))) rest =
    cons-nonempty _ _

digits_from-nonempty :
    (f n : ℕ) (rest : String) → (rest == "") ≡ false → (digits_from f n rest == "") ≡ false
unfolding digits_from
digits_from-nonempty zero n rest h = h
digits_from-nonempty (suc f) n rest h =
    if_cases (λ s. (s == "") ≡ false) (ltb n 10) (λ _. digit-nonempty n rest)
      (λ _. digits_from-nonempty f (n / 10) (digit (n % 10) ⊕ rest) (digit-nonempty (n % 10) rest))

pub parse_digits-decimal : (n : ℕ) → parse_digits 0 (decimal n) ≡ some n
unfolding decimal parse_digits
parse_digits-decimal n = parse_digits-digits_from (suc n) n "" (omega arith)

decimal-nonempty : (n : ℕ) → (decimal n == "") ≡ false
unfolding decimal digits_from
decimal-nonempty n =
    if_cases (λ s. (s == "") ≡ false) (ltb n 10) (λ _. digit-nonempty n "")
      (λ _. digits_from-nonempty n (n / 10) (digit (n % 10) ⊕ "") (digit-nonempty (n % 10) ""))

decimal-not_nil : (n : ℕ) → (decimal n == "nil") ≡ false
unfolding parse_digits
decimal-not_nil n = elim (Bool-cases (decimal n == "nil")) [
  | inr e ↦ e
  | inl e ↦
      (let bad =
          sym (parse_digits-decimal n) ∙ ap (parse_digits 0) ((eq_iff (decimal n) "nil").0 e) in
        cc)
]

-- What a nullable flag of 64 bits prints sets it to the value that it had, nil included, if the
-- number fits in 64 bits.
pub nullable_set-nullable_string :
    (value : Option ℕ)
    → ((n : ℕ) → value ≡ some n → n < 2 ^ 64)
    → nullable_set (nullable_string value) ≡ ok value
unfolding nullable_set nullable_string parse_uint
nullable_set-nullable_string none h = refl
nullable_set-nullable_string (some n) h =
    let fits : ltb n (2 ^ 64) ≡ true = ground (arith, h n refl) in
    rw (decimal-nonempty n, decimal-not_nil n, parse_digits-decimal n, fits) refl
