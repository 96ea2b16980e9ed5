-- ===== src/Prelude/Dict.antt =====
-- Go maps with string keys, as association lists: a write replaces the entry of its key.
pub mod Laws
use Prim.Native.String.{String}
use mathlib.Core.Option.{Option, none, some}
use mathlib.Core.List.{List, [], ◌∷◌}
use text.Mathlib.Text.{◌==◌}
use builder_playground.Prelude.Flow.{if◌then◌else◌}

abbrev pub GoMap {ℓ} : Type ℓ → Type ℓ
GoMap V = List (String × V)

module _ {ℓ} {V : Type ℓ} where
  unfoldable pub insert : String → V → GoMap V → GoMap V
  insert key value [] = (key, value) ∷ []
  insert key value (entry ∷ entries) =
      let later = insert key value entries in
      if entry.0 == key then (key, value) ∷ entries else entry ∷ later

  abbrev pub values : GoMap V → List V
  values [] = []
  values (entry ∷ entries) = entry.1 ∷ values entries

  -- The value of a key, if it is there.
  abbrev pub lookup : String → GoMap V → Option V
  lookup key [] = none
  lookup key (entry ∷ entries) = if entry.0 == key then some entry.1 else lookup key entries
