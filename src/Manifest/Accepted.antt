-- ===== src/Manifest/Accepted.antt =====
-- Manifests that `Validate` accepts or rejects, read off their shapes.
use builder_playground.Prelude.{
  Bool, true, false, List, [], ◌∷◌, ◌++◌, ◌≡◌, sym, All, if◌then◌else◌, Result, ok, err,
}
use mathlib.Core.Path.{subst}
use builder_playground.Output.{Output, found, stat}
use builder_playground.Service.FirstPass.{Panic}
use builder_playground.Context.{ExContext}
use builder_playground.Manifest.{Manifest, Error, validate}
use builder_playground.Manifest.Shapes.{
  Shape, views, shape_services, FilesExist, validate-ok, validate-err,
}
use builder_playground.Manifest.Yields.{Yields}

-- A manifest is built, and `Validate` accepts it.
abbrev pub Accepted : Result Panic Manifest → Type 0
Accepted r = (m : Manifest) × (r ≡ ok m) × (validate m ≡ ok tt)

-- A manifest is built, and `Validate` answers the error.
abbrev pub Rejected : Result Panic Manifest → Error → Type 0
Rejected r e = (m : Manifest) × (r ≡ ok m) × (validate m ≡ err e)

module _ {r : Result Panic Manifest} {ctx : ExContext} {shapes : List Shape} where
  pub Yields-Accepted :
      Yields r ctx shapes
      → shape_services shapes shapes ≡ ok tt
      → FilesExist ctx.output shapes
      → Accepted r
  Yields-Accepted y s f =
      let e = sym y.holds.shapes_eq in
      (
        y.manifest,
        y.returned,
        validate-ok y.manifest (subst (λ x. shape_services x x ≡ ok tt) e s) (
            subst (λ c. FilesExist c.output (views y.manifest.services)) (sym y.holds.ctx_eq)
              (subst (FilesExist ctx.output) e f)),
      )

  pub Yields-Rejected :
      {e : Error} → Yields r ctx shapes → shape_services shapes shapes ≡ err e → Rejected r e
  Yields-Rejected {e} y s = (
    y.manifest,
    y.returned,
    validate-err y.manifest (subst (λ x. shape_services x x ≡ err e) (sym y.holds.shapes_eq) s),
  )

module _ (out : Output) where
  pub FilesExist-snoc :
      (xs : List Shape) (s : Shape)
      → FilesExist out xs
      → All (λ p. stat out p ≡ found) s.files
      → FilesExist out (xs ++ s ∷ [])
  FilesExist-snoc [] s h f = (f, tt)
  FilesExist-snoc (x ∷ xs) s (p, h) f = (p, FilesExist-snoc xs s h f)

  pub FilesExist-if :
      (b : Bool) (xs ys : List Shape)
      → FilesExist out xs
      → FilesExist out ys
      → FilesExist out (if b then xs else ys)
  FilesExist-if true xs ys h k = h
  FilesExist-if false xs ys h k = k
