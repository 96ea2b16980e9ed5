-- ===== src/Prelude/Texts.antt =====
-- Equality of texts as a Boolean test.
use Prim.Native.String.{String}
use mathlib.Core.Path.{◌≡◌, sym, ◌∙◌}
use mathlib.Core.Logic.{inl, inr}
use mathlib.Core.Bool.{true, false}
use text.Mathlib.Text.{◌==◌}
use text.Mathlib.TextEquality.{eq_iff}
use builder_playground.Prelude.Flow.{Bool-cases}

pub ==_flip : (s t : String) → (s == t) ≡ false → (t == s) ≡ false
==_flip s t d = elim (Bool-cases (t == s)) [
  | inr e ↦ e
  | inl e ↦ (let bad = sym d ∙ (eq_iff s t).1 (sym ((eq_iff t s).0 e)) in cc)
]

-- A text that equals one of two different texts differs from the other.
pub ==_apart : (a b c : String) → (a == b) ≡ false → (a == c) ≡ true → (b == c) ≡ false
==_apart a b c d e = elim (Bool-cases (b == c)) [
  | inr x ↦ x
  | inl x ↦
      (let same = (eq_iff a b).1 ((eq_iff a c).0 e ∙ sym ((eq_iff b c).0 x)) in
        let bad = sym d ∙ same in cc)
]
