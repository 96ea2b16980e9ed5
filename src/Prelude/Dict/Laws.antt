-- ===== src/Prelude/Dict/Laws.antt =====
-- Reading a map after a write, and maps without a key twice.
use Prim.Native.String.{String}
use mathlib.Core.Path.{◌≡◌, refl}
use mathlib.Core.Logic.{inl, inr}
use mathlib.Core.Bool.{Bool, false}
use mathlib.Core.Option.{some}
use mathlib.Core.List.{[], ◌∷◌}
use text.Mathlib.Text.{◌==◌}
use text.Mathlib.TextEquality.{eq_iff}
use text.Mathlib.TextPositions.{eq_refl}
use builder_playground.Prelude.Texts.{==_flip}
use builder_playground.Prelude.Flow.{Bool-cases}
use builder_playground.Prelude.Seq.{All}
use builder_playground.Prelude.Dict.{GoMap, insert, lookup}

module _ {ℓ} {V : Type ℓ} where
  pub lookup-insert :
      (key : String) (value : V) (m : GoMap V) → lookup key (insert key value m) ≡ some value
  unfolding insert
  lookup-insert key value [] = rw (eq_refl key) refl
  lookup-insert key value ((k, v) ∷ m) = elim (Bool-cases (k == key)) [
    | inl e ↦ rw (e, eq_refl key) refl
    | inr e ↦ rw (e, e) (lookup-insert key value m)
  ]

  pub lookup-insert_other :
      (key other : String) (value : V) (m : GoMap V)
      → (key == other) ≡ false
      → lookup other (insert key value m) ≡ lookup other m
  unfolding insert
  lookup-insert_other key other value [] d = rw d refl
  lookup-insert_other key other value ((k, v) ∷ m) d = elim (Bool-cases (k == key)) [
    | inl e ↦ (let same = (eq_iff k key).0 e in rw (e, d, same, d) refl)
    | inr e ↦ elim (Bool-cases (k == other)) [
      | inl o ↦ rw (e, o) refl
      | inr o ↦ rw (e, o) (lookup-insert_other key other value m d)
    ]
  ]

  -- The key differs from all keys of the map.
  abbrev pub Fresh : String → GoMap V → Type 0
  Fresh key m = All (λ entry. Path Bool (entry.0 == key) false) m

  -- No key is there twice.
  abbrev pub DistinctKeys : GoMap V → Type 0
  DistinctKeys [] = Unit
  DistinctKeys ((k, v) ∷ m) = Fresh k m × DistinctKeys m

  Fresh-insert :
      (key other : String) (value : V) (m : GoMap V)
      → (key == other) ≡ false
      → Fresh other m
      → Fresh other (insert key value m)
  unfolding insert
  Fresh-insert key other value [] d h = (d, tt)
  Fresh-insert key other value ((k, v) ∷ m) d (p, h) = elim (Bool-cases (k == key)) [
    | inl e ↦ rw e (d, h)
    | inr e ↦ rw e (p, Fresh-insert key other value m d h)
  ]

  pub DistinctKeys-insert :
      (key : String) (value : V) (m : GoMap V) → DistinctKeys m → DistinctKeys (insert key value m)
  unfolding insert
  DistinctKeys-insert key value [] h = (tt, tt)
  DistinctKeys-insert key value ((k, v) ∷ m) (p, h) = elim (Bool-cases (k == key)) [
    | inl e ↦ rw e (rw ((eq_iff k key).0 e) at p, h)
    | inr e ↦
        rw e (Fresh-insert key k value m (==_flip k key e) p, DistinctKeys-insert key value m h)
  ]

  -- Every value lies under its own key.
  abbrev pub KeyedBy : (V → String) → GoMap V → Type 0
  KeyedBy key_of m = All (λ entry. Path String entry.0 (key_of entry.1)) m

  pub KeyedBy-insert :
      (key_of : V → String) (value : V) (m : GoMap V)
      → KeyedBy key_of m
      → KeyedBy key_of (insert (key_of value) value m)
  unfolding insert
  KeyedBy-insert key_of value [] h = (refl, tt)
  KeyedBy-insert key_of value ((k, v) ∷ m) (p, h) = elim (Bool-cases (k == key_of value)) [
    | inl e ↦ rw e (refl, h)
    | inr e ↦ rw e (p, KeyedBy-insert key_of value m h)
  ]
