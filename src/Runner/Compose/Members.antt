-- ===== src/Runner/Compose/Members.antt =====
-- Which services `generateDockerCompose` of playground/local_runner.go writes.
use builder_playground.Prelude.{
  ok_inj, ℕ, String, Bool, true, false, not, ◌||◌, ◌&&◌, List, [], ◌∷◌, ◌≡◌, refl, sym, ap, ◌∙◌, ok,
  ◌>>=◌, >>=-eq-ok, ◌==◌, GoMap, insert, lookup, Bool-cases, inl, inr, eq_iff,
}
use mathlib.Core.Path.{subst}
use builder_playground.Prelude.Dict.Laws.{lookup-insert, lookup-insert_other}
use builder_playground.Service.{Service}
use builder_playground.Runner.{LocalRunner, is_host_service, is_there, reserve_all}
use builder_playground.Runner.Compose.{
  Docker, ComposeService, compose_services, converted, to_docker_compose_service, reserved_first,
  generate_docker_compose, in_docker,
}

there-insert :
    {V : Type 0} (key name : String) (v : V) (m : GoMap V)
    → is_there (lookup name (insert key v m)) ≡ (key == name || is_there (lookup name m))
there-insert key name v m = elim (Bool-cases (key == name)) [
  | inl e ↦
      ap is_there
        (ap (λ k. lookup k (insert key v m)) (sym ((eq_iff key name).0 e)) ∙ lookup-insert key v m)
      ∙ sym (ap (λ b. b || is_there (lookup name m)) e)
  | inr e ↦
      ap is_there (lookup-insert_other key name v m e)
      ∙ sym (ap (λ b. b || is_there (lookup name m)) e)
]

reorder : (e m a : Bool) → (m || (e || a)) ≡ ((e && true) || m || a)
reorder true true a = refl
reorder true false a = refl
reorder false true a = refl
reorder false false a = refl

drop : (e m a : Bool) → (m || a) ≡ ((e && false) || m || a)
drop true m a = refl
drop false m a = refl

or_false : (b : Bool) → (b || false) ≡ b
or_false true = refl
or_false false = refl

module _ (docker : Docker) where
  compose_services-in_docker :
      (d : LocalRunner) (ss : List Service) (before after : GoMap ComposeService) (name : String)
      → compose_services docker d ss before ≡ ok after
      → is_there (lookup name after) ≡ (in_docker docker d name ss || is_there (lookup name before))
  unfolding compose_services
  compose_services-in_docker d [] before after name h =
      ap (λ m. is_there (lookup name m)) (sym (ok_inj h))
  compose_services-in_docker d (s ∷ ss) before after name h =
      let rest = in_docker docker d name ss in
      let was = is_there (lookup name before) in
      elim (Bool-cases (is_host_service d s.name)) [
        | inl e ↦
            compose_services-in_docker d ss before after name (rw e at h)
            ∙ drop (s.name == name) rest was
            ∙ ap (λ b. (s.name == name && not b) || rest || was) (sym e)
        | inr e ↦
            let (c, _, h1) =
              >>=-eq-ok (converted docker s.name (to_docker_compose_service docker d s))
                (λ c. compose_services docker d ss (insert s.name c before)) (rw e at h) in
            compose_services-in_docker d ss (insert s.name c before) after name h1
            ∙ ap (λ b. rest || b) (there-insert s.name name c before)
            ∙ reorder (s.name == name) rest was
            ∙ ap (λ b. (s.name == name && not b) || rest || was) (sym e)
      ]

  -- A compose file that `generateDockerCompose` makes has a service of a name exactly when the
  -- manifest has a service of that name that does not run on the host.
  pub generate_docker_compose-in_docker :
      (listens : String → String → ℕ → Bool) (d d1 : LocalRunner) (services : GoMap ComposeService)
      (name : String)
      → generate_docker_compose docker listens d ≡ ok (d1, services)
      → is_there (lookup name services) ≡ in_docker docker d1 name d1.services
  unfolding generate_docker_compose
  generate_docker_compose-in_docker listens d d1 services name h =
      let (d2, _, h1) =
        >>=-eq-ok (reserved_first docker (reserve_all listens d))
          (λ d1. compose_services docker d1 d1.services [] >>= λ services. ok (d1, services)) h in
      let (found, e, h2) =
        >>=-eq-ok (compose_services docker d2 d2.services []) (λ services. ok (d2, services)) h1 in
      let given = compose_services-in_docker d2 d2.services [] found name e in
      subst
        (λ (r : LocalRunner × GoMap ComposeService).
          is_there (lookup name r.1) ≡ in_docker docker r.0 name r.0.services)
        {x = (d2, found)} (ok_inj h2) (given ∙ or_false (in_docker docker d2 name d2.services))
