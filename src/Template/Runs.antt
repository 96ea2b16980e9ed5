-- ===== src/Template/Runs.antt =====
-- How a template runs: its text stands as it is, and a call's result takes the call's place.
use builder_playground.Prelude.{
  Char, String, Option, none, some, List, ◌∷◌, ◌++◌, ◌≡◌, refl, sym, ap, ◌∙◌, Option-cases, inl,
  inr, ◌⊕◌, chr,
}
use builder_playground.Template.{Token, Piece, char, call, execute}
use builder_playground.Template.Laws.{chars}

module _ {S : Type 0} where
  abbrev pub in_front : String → Option (String × S) → Option (String × S)
  in_front v none = none
  in_front v (some (t, s)) = some (v ⊕ t, s)

  in_front-empty : (o : Option (String × S)) → in_front "" o ≡ o
  in_front-empty none = refl
  in_front-empty (some (t, s)) = refl

  in_front_char :
      (c : Char) (v : String) (o : Option (String × S))
      → in_front (chr c) (in_front v o) ≡ in_front (String.◌∷◌ c v) o
  in_front_char c v none = refl
  in_front_char c v (some (t, s)) = refl

  module _ (f : List Token → S → Option (String × S)) where
    execute-char :
        (c : Char) (ps : List Piece) (s : S)
        → execute f (char c ∷ ps) s ≡ in_front (chr c) (execute f ps s)
    unfolding execute
    execute-char c ps s = elim (Option-cases (execute f ps s)) [
      | inl e ↦ rw e refl
      | inr ((t, r), e) ↦ rw e refl
    ]

    pub execute-chars_then :
        (v : String) (ps : List Piece) (s : S)
        → execute f (chars v ++ ps) s ≡ in_front v (execute f ps s)
    execute-chars_then String.[] ps s = sym (in_front-empty _)
    execute-chars_then (String.◌∷◌ c v) ps s =
        execute-char c (chars v ++ ps) s
        ∙ ap (in_front (chr c)) (execute-chars_then v ps s)
        ∙ in_front_char c v _

    pub execute-text : (v : String) (s : S) → execute f (chars v) s ≡ some (v, s)
    unfolding execute
    execute-text String.[] s = refl
    execute-text (String.◌∷◌ c v) s = rw (execute-text v s) refl

    pub execute-call :
        (toks : List Token) (ps : List Piece) (s : S) {t : String} {s1 : S}
        → f toks s ≡ some (t, s1)
        → execute f (call toks ∷ ps) s ≡ in_front t (execute f ps s1)
    unfolding execute
    execute-call toks ps s {t} {s1} h =
        ap
          (λ r. elim r [
            | none ↦ none
            | some (t, s1) ↦ elim (execute f ps s1) [
              | none ↦ none
              | some (u, s2) ↦ some (t ⊕ u, s2)
            ]
          ])
          h
        ∙ after_call (execute f ps s1)
      where
        after_call :
            (o : Option (String × S))
            → (elim o [ none ↦ none | some (u, s2) ↦ some (t ⊕ u, s2) ]) ≡ in_front t o
        after_call none = refl
        after_call (some (u, s2)) = refl
