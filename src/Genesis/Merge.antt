-- ===== src/Genesis/Merge.antt =====
-- `mergeMap` of playground/artifacts.go, key by key.
use builder_playground.Prelude.{
  ==_apart, String, Bool, false, Option, none, some, ◌≡◌, refl, sym, ap, ◌∙◌, ◌==◌, if◌then◌else◌,
  Bool-cases, inl, inr, eq_iff, eq_refl,
}
use mathlib.Core.Path.{subst}
use builder_playground.Genesis.{
  Json, null, boolean, number, text, array, object, Fields, end, field, get_field, put_field,
  merge_map, merge_value,
}

-- No field of the object has the key.
abbrev pub Lacks : String → Fields → Type 0
Lacks key end = Unit
Lacks key (field k v fs) = (Path Bool (k == key) false) × Lacks key fs

-- The object is a map: no key is there twice.
abbrev pub IsMap : Fields → Type 0
IsMap end = Unit
IsMap (field k v fs) = Lacks k fs × IsMap fs

-- The value of a key after a merge, from the values before.
abbrev pub merged : Option Json → Option Json → Option Json
merged none dst_val = dst_val
merged (some (object src)) (some (object dst)) = some (object (merge_map src dst))
merged (some src_val) _ = some src_val

merged-value :
    (v : Json) (before : Option Json) → merged (some v) before ≡ some (merge_value v before)
unfolding merge_map
merged-value null before = refl
merged-value (boolean b) before = refl
merged-value (number n) before = refl
merged-value (text t) before = refl
merged-value (array xs) before = refl
merged-value (object src) none = refl
merged-value (object src) (some null) = refl
merged-value (object src) (some (boolean b)) = refl
merged-value (object src) (some (number n)) = refl
merged-value (object src) (some (text t)) = refl
merged-value (object src) (some (array xs)) = refl
merged-value (object src) (some (object dst)) = refl

get-put :
    (key other : String) (v : Json) (fs : Fields)
    → get_field other (put_field key v fs) ≡ (if key == other then some v else get_field other fs)
unfolding put_field
get-put key other v end = refl
get-put key other v (field k w fs) = elim (Bool-cases (k == key)) [
  | inl e ↦
      let same = ap (λ x. x == other) ((eq_iff k key).0 e) in
      rw (e, same) (elim (Bool-cases (key == other)) [ inl o ↦ rw o refl | inr o ↦ rw o refl ])
  | inr e ↦ rw e (elim (Bool-cases (k == other)) [
    | inl o ↦ rw (o, ==_apart k key other e o) refl
    | inr o ↦ rw o (get-put key other v fs)
  ])
]

get-lacking : (key : String) (fs : Fields) → Lacks key fs → get_field key fs ≡ none
get-lacking key end h = refl
get-lacking key (field k v fs) (e, h) = rw e (get-lacking key fs h)

-- After `mergeMap` of a map, each key has the value of the source, merged into the old value if
-- both are maps, and the old value if the source lacks the key.
pub merge_map-merged :
    (src dst : Fields) (key : String)
    → IsMap src
    → get_field key (merge_map src dst) ≡ merged (get_field key src) (get_field key dst)
unfolding merge_map
merge_map-merged end dst key h = refl
merge_map-merged (field k v src) dst key (l, h) =
    merge_map-merged src (put_field k (merge_value v (get_field k dst)) dst) key h
    ∙ ap (merged (get_field key src)) (get-put k key (merge_value v (get_field k dst)) dst)
    ∙ elim (Bool-cases (k == key)) [
      | inl e ↦
          subst
            (λ x.
              merged (get_field x src)
                (if k == x then some (merge_value v (get_field k dst)) else get_field x dst)
              ≡ merged (if k == x then some v else get_field x src) (get_field x dst))
            ((eq_iff k key).0 e)
            (rw (eq_refl k, get-lacking k src l) (sym (merged-value v (get_field k dst))))
      | inr e ↦ rw e refl
    ]
