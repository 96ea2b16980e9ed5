-- ===== src/Release/Archive.antt =====
-- What `downloadArtifact` of playground/releases.go takes from an archive.
use builder_playground.Prelude.{
  String, Option, none, some, List, [], ◌∷◌, ◌≡◌, refl, sym, ◌∙◌, ◌↔◌, Result, ok, err, ◌==◌,
  eq_iff, Bool-cases, inl, inr,
}
use mathlib.Core.Path.{subst}
use builder_playground.Release.{
  TarItem, regular, other_type, broken, Machine, extract, read_tar, responded, download_artifact,
}

-- The first regular file of the archive has the name, and copying it gives this error or none; the
-- reader fails on nothing before it.
abbrev pub Offers : String → Option String → List TarItem → Type 0
Offers expected copy [] = ⊥
Offers expected copy (broken e ∷ items) = ⊥
Offers expected copy (other_type ∷ items) = Offers expected copy items
Offers expected copy (regular name result ∷ items) = (name ≡ expected) × (result ≡ copy)

items_inj :
    (xs ys : List TarItem)
    → Path (Result String (Result String (List TarItem))) (ok (ok ys)) (ok (ok xs))
    → xs ≡ ys
items_inj xs ys e = cc

module _ (machine : Machine) (out_path : String) where
  extract_iff :
      (files : List String) (copy create chmod : Option String)
      → machine.create_error out_path ≡ create
      → machine.chmod_error out_path ≡ chmod
      → ((extract machine out_path files copy).1 ≡ ok tt)
        ↔ ((copy ≡ none) × (create ≡ none) × (chmod ≡ none))
  unfolding extract
  extract_iff files copy (some e) chmod c m = rw c (λ h. cc, λ (_, h, _). cc)
  extract_iff files (some e) none chmod c m = rw c (λ h. cc, λ (h, _, _). cc)
  extract_iff files none none (some e) c m = rw (c, m) (λ h. cc, λ (_, _, h). cc)
  extract_iff files none none none c m = rw (c, m) (λ h. (refl, refl, refl), λ _. refl)

  -- The loop extracts the expected file, if the archive offers it.
  read_tar_iff :
      (expected : String) (files : List String) (items : List TarItem)
      → ((read_tar machine expected out_path files items).1 ≡ ok tt) ↔ (
          Offers expected none items
          × (machine.create_error out_path ≡ none)
          × (machine.chmod_error out_path ≡ none))
  unfolding read_tar
  read_tar_iff expected files [] = (λ h. cc, λ (h, _, _). elim h [ ])
  read_tar_iff expected files (broken e ∷ items) = (λ h. cc, λ (h, _, _). elim h [ ])
  read_tar_iff expected files (other_type ∷ items) = read_tar_iff expected files items
  read_tar_iff expected files (regular name copy ∷ items) =
      let inner =
        extract_iff files copy (machine.create_error out_path) (machine.chmod_error out_path) refl
          refl in
      elim (Bool-cases (name == expected)) [
        | inl e ↦ (
          λ h.
              let (c, made, mode) = inner.0 (rw e at h) in
              (((eq_iff name expected).0 e, c), made, mode),
          λ ((_, c), made, mode). rw e (inner.1 (c, made, mode)),
        )
        | inr e ↦ (
          λ h. (let bad = rw e at h in cc),
          λ ((same, _), _, _). (let bad = sym e ∙ (eq_iff name expected).1 same in cc),
        )
      ]

  -- `downloadArtifact` returns no error exactly when the server answers with an archive whose first
  -- regular file has the expected name and can be copied in full, with nothing that the reader
  -- fails on before it, and the file can be created and made executable.
  pub download_artifact_iff :
      (url expected : String) (files : List String)
      → ((download_artifact machine url expected out_path files).1 ≡ ok tt) ↔ (
          (items : List TarItem) × (machine.get url ≡ ok (ok items))
          × Offers expected none items
          × (machine.create_error out_path ≡ none)
          × (machine.chmod_error out_path ≡ none))
  unfolding download_artifact
  download_artifact_iff url expected files = answered (machine.get url)
    where
      answered :
          (r : Result String (Result String (List TarItem)))
          → ((responded machine expected out_path files r).1 ≡ ok tt) ↔ (
              (items : List TarItem) × (r ≡ ok (ok items))
              × Offers expected none items
              × (machine.create_error out_path ≡ none)
              × (machine.chmod_error out_path ≡ none))
      answered (err e) = (λ h. cc, λ (_, h, _, _, _). cc)
      answered (ok (err e)) = (λ h. cc, λ (_, h, _, _, _). cc)
      answered (ok (ok items)) =
          let both = read_tar_iff expected files items in
          (
            λ h. (let (a, b, c) = both.0 h in (items, refl, a, b, c)),
            λ (found, e, a, b, c).
                both.1 (subst (Offers expected none) (items_inj found items e) a, b, c),
          )
