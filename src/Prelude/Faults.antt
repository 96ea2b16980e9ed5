-- ===== src/Prelude/Faults.antt =====
-- Errors and panics of the calls that the program makes, and what holds of the values that they return.
use Prim.Native.String.{String}
use mathlib.Core.Path.{◌≡◌, refl, sym, subst}
use mathlib.Core.Bool.{Bool, true, false}
use builder_playground.Prelude.Flow.{Result, ok, err, ◌>>=◌, if◌then◌else◌, ok_inj}
use builder_playground.Prelude.Words.{◌⊕◌}

-- An error that is returned, or a panic.
pub data Stop : Type 0 where
  fails panics : String → Stop

-- A call that returns errors and does not panic.
abbrev pub raised {ℓ} : {A : Type ℓ} → Result String A → Result Stop A
raised (ok a) = ok a
raised (err e) = err (fails e)

-- The same, with what the caller puts in front of the error.
abbrev pub raised_as {ℓ} : {A : Type ℓ} → String → Result String A → Result Stop A
raised_as message (ok a) = ok a
raised_as message (err e) = err (fails (message ⊕ e))

pub raised-eq-ok {ℓ} : {A : Type ℓ} (r : Result String A) {a : A} → raised r ≡ ok a → r ≡ ok a
raised-eq-ok (ok b) h = cc
raised-eq-ok (err e) h = cc

-- What holds of the value of every call that returns one.
pub record Ensures {ℓ κ μ} {E : Type ℓ} {A : Type κ} (P : A → Type μ) (r : Result E A)
    : Type (ℓ ⊔ κ ⊔ μ) where
  pub at : (a : A) → r ≡ ok a → P a

module _ {ℓ κ μ} {E : Type ℓ} {A : Type κ} {P : A → Type μ} where
  pub Ensures-ok : {a : A} → P a → Ensures {E = E} P (ok a)
  Ensures-ok p = record { at = λ b e. subst P (ok_inj e) p }

  pub Ensures-err : (e : E) → Ensures P (err e)
  Ensures-err e = record { at = λ a h. cc }

  pub Ensures-if :
      (b : Bool) {r s : Result E A}
      → (b ≡ true → Ensures P r)
      → (b ≡ false → Ensures P s)
      → Ensures P (if b then r else s)
  Ensures-if true h k = h refl
  Ensures-if false h k = k refl

  -- The rest of the block may use what the first call returned.
  pub Ensures-bind :
      {B : Type 0} (m : Result E B) (f : B → Result E A)
      → ((b : B) → m ≡ ok b → Ensures P (f b))
      → Ensures P (m >>= f)
  Ensures-bind (ok b) f h = h b refl
  Ensures-bind (err e) f h = Ensures-err e

-- The call returns a value, for which something holds.
pub record Returns {ℓ κ μ} {E : Type ℓ} {A : Type κ} (P : A → Type μ) (r : Result E A)
    : Type (ℓ ⊔ κ ⊔ μ) where
  pub value : A
  pub returned : r ≡ ok value
  pub holds : P value

-- The call returns a value.
abbrev pub Succeeds {ℓ κ} : {E : Type ℓ} {A : Type κ} → Result E A → Type (ℓ ⊔ κ)
Succeeds r = Returns (λ _. Unit {0}) r

module _ {ℓ κ μ} {E : Type ℓ} {A : Type κ} {P : A → Type μ} where
  pub Returns-ok : {a : A} → P a → Returns {E = E} P (ok a)
  Returns-ok {a} p = record { value = a; returned = refl; holds = p }

  pub Returns-bind {ν} :
      {B : Type 0} {Q : B → Type ν} (m : Result E B) (f : B → Result E A)
      → Returns Q m
      → ((b : B) → Q b → Returns P (f b))
      → Returns P (m >>= f)
  Returns-bind {Q} (ok b) f h k = k b (subst Q (ok_inj (sym h.returned)) h.holds)
  Returns-bind (err e) f h k = (let bad = h.returned in cc)

pub Returns-raised {ℓ κ} :
    {A : Type ℓ} {P : A → Type κ} (r : Result String A) → Returns P r → Returns P (raised r)
Returns-raised {P} (ok a) h = Returns-ok (subst P (ok_inj (sym h.returned)) h.holds)
Returns-raised (err e) h = (let bad = h.returned in cc)

pub Succeeds-raised {ℓ} : {A : Type ℓ} (r : Result String A) → Succeeds r → Succeeds (raised r)
Succeeds-raised r h = Returns-raised r h

pub Succeeds-raised_as {ℓ} :
    {A : Type ℓ} (message : String) (r : Result String A)
    → Succeeds r
    → Succeeds (raised_as message r)
Succeeds-raised_as message (ok a) h = Returns-ok tt
Succeeds-raised_as message (err e) h = (let bad = h.returned in cc)
