-- ===== src/Context/Levels.antt =====
-- playground/manifest.go `LogLevel.Unmarshal` against the list of the levels.
use builder_playground.Prelude.{
  String, List, [], ◌∷◌, any, ◌≡◌, refl, sym, ap, if◌then◌else◌, Bool-cases, inl, inr, ok, err,
  ◌==◌, eq_iff,
}
use builder_playground.Context.{
  unmarshal_level, level_debug, level_info, level_trace, level_warn, level_error,
}

abbrev pub levels : List String
levels = level_debug ∷ level_info ∷ level_trace ∷ level_warn ∷ level_error ∷ []

-- `LogLevel.Unmarshal` accepts just the five levels debug, info, trace, warn and error, each as
-- itself, and refuses every other text.
unmarshal_level_lem :
    (s : String) → unmarshal_level s ≡ (if any (λ l. s == l) levels then ok s else err s)
unfolding unmarshal_level
unmarshal_level_lem s = elim (Bool-cases (s == "debug")) [
  | inl e ↦ rw e (ap ok (sym ((eq_iff s "debug").0 e)))
  | inr d ↦ elim (Bool-cases (s == "info")) [
    | inl e ↦ rw (d, e) (ap ok (sym ((eq_iff s "info").0 e)))
    | inr i ↦ elim (Bool-cases (s == "trace")) [
      | inl e ↦ rw (d, i, e) (ap ok (sym ((eq_iff s "trace").0 e)))
      | inr t ↦ elim (Bool-cases (s == "warn")) [
        | inl e ↦ rw (d, i, t, e) (ap ok (sym ((eq_iff s "warn").0 e)))
        | inr w ↦ elim (Bool-cases (s == "error")) [
          | inl e ↦ rw (d, i, t, w, e) (ap ok (sym ((eq_iff s "error").0 e)))
          | inr e ↦ rw (d, i, t, w, e) refl
        ]
      ]
    ]
  ]
]
