-- ===== src/Genesis/Paths.antt =====
-- `mergeMap` of playground/artifacts.go along a path of keys.
use builder_playground.Prelude.{String, Option, none, some, List, [], ◌∷◌, ◌≡◌, ap, ◌∙◌}
use builder_playground.Genesis.{
  Json, null, boolean, number, text, array, object, get_field, merge_map,
}
use builder_playground.Genesis.Merge.{IsMap, merged, merge_map-merged}

-- The value at the end of a path of keys.
abbrev pub get_path : List String → Option Json → Option Json
get_path [] v = v
get_path (key ∷ keys) (some (object fs)) = get_path keys (get_field key fs)
get_path (key ∷ keys) _ = none

-- The objects on a path are maps.
abbrev pub Along : List String → Option Json → Type 0
Along [] v = Unit
Along (key ∷ keys) (some (object fs)) = IsMap fs × Along keys (get_field key fs)
Along (key ∷ keys) _ = Unit

-- A value that a merge puts in the place of any other.
abbrev pub Replaces : Json → Type 0
Replaces v = (before : Option Json) → merged (some v) before ≡ some v

-- Merged into whatever was there, a value keeps what stands at the end of a path, if that is no object.
pub merged-path :
    (keys : List String) (v before : Option Json) {leaf : Json}
    → Replaces leaf
    → Along keys v
    → get_path keys v ≡ some leaf
    → get_path keys (merged v before) ≡ some leaf
unfolding merge_map
merged-path [] v before r a h = ap (λ x. merged x before) h ∙ r before
merged-path (key ∷ keys) none before r a h = cc
merged-path (key ∷ keys) (some null) before r a h = cc
merged-path (key ∷ keys) (some (boolean b)) before r a h = cc
merged-path (key ∷ keys) (some (number n)) before r a h = cc
merged-path (key ∷ keys) (some (text t)) before r a h = cc
merged-path (key ∷ keys) (some (array xs)) before r a h = cc
merged-path (key ∷ keys) (some (object src)) none r a h = h
merged-path (key ∷ keys) (some (object src)) (some null) r a h = h
merged-path (key ∷ keys) (some (object src)) (some (boolean b)) r a h = h
merged-path (key ∷ keys) (some (object src)) (some (number n)) r a h = h
merged-path (key ∷ keys) (some (object src)) (some (text t)) r a h = h
merged-path (key ∷ keys) (some (object src)) (some (array xs)) r a h = h
merged-path (key ∷ keys) (some (object src)) (some (object dst)) r (m, a) h =
    ap (get_path keys) (merge_map-merged src dst key m)
    ∙ merged-path keys (get_field key src) (get_field key dst) r a h
