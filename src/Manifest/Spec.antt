-- ===== src/Manifest/Spec.antt =====
-- What `Validate` promises, apart from how it looks for it.
use builder_playground.Prelude.{
  String, List, [], ◌∷◌, Option, none, some, ◌≡◌, refl, sym, ap, ◌∙◌, ◌↔◌, All, Result, ok, ◌>>◌,
  >>=-eq-ok, Bool-cases, inl, inr, values, ◌==◌, ◌⊕◌, eq_iff,
}
use mathlib.Core.Path.{subst}
use builder_playground.Output.{Output, Stat, found, not_exist, failed, stat}
use builder_playground.Service.{Service, DependsOn, ReadyCheck, get_port, service_healthy}
use builder_playground.Service.FirstPass.{NodeRef, Port}
use builder_playground.Manifest.{
  Manifest, Error, get_service, port_found, target_found, check_ref, check_refs, needs_ready,
  dep_found, check_dep, check_deps, check_services, stat_result, check_paths, check_files, validate,
}

-- A reference resolves: its service is defined and has the port that it names.
abbrev pub RefResolves : List Service → NodeRef → Type 0
RefResolves ss r =
    (t : Service) × (get_service r.service ss ≡ some t)
    × ((p : Port) × (get_port r.port_label t.ports ≡ some p))

-- A dependency can be waited for: its service is defined, and has a ready check if it must be healthy.
abbrev pub DepReady : List Service → DependsOn → Type 0
DepReady ss d =
    (t : Service) × (get_service d.name ss ≡ some t)
    × (d.condition ≡ service_healthy → (c : ReadyCheck) × (t.ready_check ≡ some c))

abbrev pub ServiceIsValid : List Service → Service → Type 0
ServiceIsValid ss s = All (RefResolves ss) s.node_refs × All (DepReady ss) s.depends_on

abbrev pub FilesAreFound : Output → Service → Type 0
FilesAreFound out s = All (λ p. stat out p ≡ found) (values s.files_mapped)

abbrev pub IsValid : Manifest → Type 0
IsValid m = All (ServiceIsValid m.services) m.services × All (FilesAreFound m.ctx.output) m.services

>>_iff :
    {a b : Result Error (Unit {0})} {P Q : Type 0}
    → (a ≡ ok tt) ↔ P
    → (b ≡ ok tt) ↔ Q
    → ((a >> b) ≡ ok tt) ↔ (P × Q)
>>_iff {a} {b} (f, f') (g, g') = (
  λ h. let (x, h', k) = >>=-eq-ok a (λ _. b) h in (f h', g k),
  λ (p, q). ap (λ x. x >> b) (f' p) ∙ g' q,
)

some_inj : {A : Type 0} {a b : A} → some a ≡ some b → a ≡ b
some_inj e = cc

module _ (ss : List Service) (name : String) where
  port_found_iff :
      (r : NodeRef) (o : Option Port) → (port_found name r o ≡ ok tt) ↔ ((p : Port) × (o ≡ some p))
  port_found_iff r none = (λ h. cc, λ (p, e). cc)
  port_found_iff r (some p) = (λ h. (p, refl), λ _. refl)

  check_ref_iff : (r : NodeRef) → (check_ref ss name r ≡ ok tt) ↔ RefResolves ss r
  unfolding check_ref
  check_ref_iff r = found_iff (get_service r.service ss)
    where
      found_iff :
          (o : Option Service)
          → (target_found name r o ≡ ok tt) ↔ (
              (t : Service) × (o ≡ some t)
              × ((p : Port) × (get_port r.port_label t.ports ≡ some p)))
      found_iff none = (λ h. cc, λ (t, e, _). cc)
      found_iff (some t) =
          let both = port_found_iff r (get_port r.port_label t.ports) in
          (λ h. (t, refl, both.0 h), λ (t', e, (p, k)). both.1 (p, cc))

  needs_ready_iff :
      (d : DependsOn) (o : Option ReadyCheck)
      → (needs_ready name d o ≡ ok tt)
        ↔ (d.condition ≡ service_healthy → (c : ReadyCheck) × (o ≡ some c))
  needs_ready_iff d none = (
    λ h e. elim (Bool-cases (d.condition == service_healthy)) [
      | inl t ↦ (let bad = rw t at h in cc)
      | inr f ↦ (let same = (eq_iff d.condition service_healthy).1 e in cc)
    ],
    λ k. elim (Bool-cases (d.condition == service_healthy)) [
      | inl t ↦ (let (c, e) = k ((eq_iff d.condition service_healthy).0 t) in cc)
      | inr f ↦ rw f refl
    ],
  )
  needs_ready_iff d (some c) = (λ _ _. (c, refl), λ _. refl)

  check_dep_iff : (d : DependsOn) → (check_dep ss name d ≡ ok tt) ↔ DepReady ss d
  unfolding check_dep
  check_dep_iff d = found_iff (get_service d.name ss)
    where
      found_iff :
          (o : Option Service)
          → (dep_found name d o ≡ ok tt) ↔ (
              (t : Service) × (o ≡ some t)
              × (d.condition ≡ service_healthy → (c : ReadyCheck) × (t.ready_check ≡ some c)))
      found_iff none = (λ h. cc, λ (t, e, _). cc)
      found_iff (some t) =
          let both = needs_ready_iff d t.ready_check in
          (
            λ h. (t, refl, both.0 h),
            λ (t', e, k). both.1 (
                subst
                  (λ (s : Service).
                    d.condition ≡ service_healthy → (c : ReadyCheck) × (s.ready_check ≡ some c))
                  (sym (some_inj e)) k),
          )

  check_refs_iff : (rs : List NodeRef) → (check_refs ss name rs ≡ ok tt) ↔ All (RefResolves ss) rs
  unfolding check_refs
  check_refs_iff [] = (λ _. tt, λ _. refl)
  check_refs_iff (r ∷ rs) = >>_iff (check_ref_iff r) (check_refs_iff rs)

  check_deps_iff : (ds : List DependsOn) → (check_deps ss name ds ≡ ok tt) ↔ All (DepReady ss) ds
  unfolding check_deps
  check_deps_iff [] = (λ _. tt, λ _. refl)
  check_deps_iff (d ∷ ds) = >>_iff (check_dep_iff d) (check_deps_iff ds)

check_services_iff :
    (ss rest : List Service) → (check_services ss rest ≡ ok tt) ↔ All (ServiceIsValid ss) rest
unfolding check_services
check_services_iff ss [] = (λ _. tt, λ _. refl)
check_services_iff ss (s ∷ rest) =
    >>_iff (>>_iff (check_refs_iff ss s.name s.node_refs) (check_deps_iff ss s.name s.depends_on))
      (check_services_iff ss rest)

stat_result_iff : (name p : String) (s : Stat) → (stat_result name p s ≡ ok tt) ↔ (s ≡ found)
stat_result_iff name p found = (λ _. refl, λ _. refl)
stat_result_iff name p not_exist = (λ h. cc, λ h. cc)
stat_result_iff name p failed = (λ h. cc, λ h. cc)

check_paths_iff :
    (out : Output) (name : String) (ps : List String)
    → (check_paths out name ps ≡ ok tt) ↔ All (λ p. stat out p ≡ found) ps
unfolding check_paths
check_paths_iff out name [] = (λ _. tt, λ _. refl)
check_paths_iff out name (p ∷ ps) =
    >>_iff (stat_result_iff name (out.dst ⊕ "/" ⊕ p) (stat out p)) (check_paths_iff out name ps)

check_files_iff :
    (out : Output) (ss : List Service) → (check_files out ss ≡ ok tt) ↔ All (FilesAreFound out) ss
unfolding check_files
check_files_iff out [] = (λ _. tt, λ _. refl)
check_files_iff out (s ∷ ss) =
    >>_iff (check_paths_iff out s.name (values s.files_mapped)) (check_files_iff out ss)

-- `Validate` returns no error exactly when every reference of every service names a defined service
-- and a port of it, every dependency names a defined service, with a ready check if it must be
-- healthy, and every mounted path is found under the output directory.
pub validate_iff : (m : Manifest) → (validate m ≡ ok tt) ↔ IsValid m
unfolding validate
validate_iff m =
    let services = check_services_iff m.services m.services in
    let files = check_files_iff m.ctx.output m.services in
    let both = >>_iff (>>_iff services files) files in (λ h. (both.0 h).0, λ v. both.1 (v, v.1))
