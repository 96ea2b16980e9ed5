-- ===== src/Manifest/Shapes.antt =====
-- What `Validate` looks at in a service: its shape, without arguments, environment and labels.
use builder_playground.Prelude.{
  String, Bool, true, false, Option, none, some, List, [], ◌∷◌, find, any, ◌≡◌, refl, sym, ap, ◌⊕◌,
  ◌∙◌, All, Result, ok, err, ◌>>◌, values, ◌==◌, if◌then◌else◌, Bool-cases, inl, inr,
}
use builder_playground.Output.{Output, found, stat}
use builder_playground.Service.{Service, DependsOn, ReadyCheck, service_healthy, get_port}
use builder_playground.Service.FirstPass.{Port, NodeRef}
use builder_playground.Manifest.{
  Manifest, Error, not_defined, no_such_port, no_ready_check, get_service, check_ref, check_refs,
  port_found, target_found, needs_ready, dep_found, stat_result, check_dep, check_deps,
  check_services, check_paths, check_files, validate,
}

pub record Shape : Type 0 where
  pub name : String
  pub ports : List String
  pub refs : List (String × String)
  pub deps : List DependsOn
  pub ready : Bool
  pub files : List String

abbrev pub is_set {ℓ} : {A : Type ℓ} → Option A → Bool
is_set none = false
is_set (some _) = true

abbrev pub port_names : List Port → List String
port_names [] = []
port_names (p ∷ ps) = p.name ∷ port_names ps

abbrev pub ref_names : List NodeRef → List (String × String)
ref_names [] = []
ref_names (r ∷ rs) = (r.service, r.port_label) ∷ ref_names rs

abbrev pub view : Service → Shape
view s = record {
  name = s.name;
  ports = port_names s.ports;
  refs = ref_names s.node_refs;
  deps = s.depends_on;
  ready = is_set s.ready_check;
  files = values s.files_mapped;
}

abbrev pub views : List Service → List Shape
views [] = []
views (s ∷ ss) = view s ∷ views ss

abbrev pub shape_target : String → String → String → Option Shape → Result Error (Unit {0})
shape_target name service label none = err (not_defined name service)
shape_target name service label (some t) =
    if any (λ p. p == label) t.ports then ok tt else err (no_such_port name service label)

abbrev pub shape_ref : List Shape → String → String → String → Result Error (Unit {0})
shape_ref shapes name service label =
    shape_target name service label (find (λ (s : Shape). s.name == service) shapes)

abbrev pub shape_refs : List Shape → String → List (String × String) → Result Error (Unit {0})
shape_refs shapes name [] = ok tt
shape_refs shapes name ((service, label) ∷ rs) =
    shape_ref shapes name service label >> shape_refs shapes name rs

abbrev pub shape_dep_found : String → DependsOn → Option Shape → Result Error (Unit {0})
shape_dep_found name dep none = err (not_defined name dep.name)
shape_dep_found name dep (some t) =
    if t.ready
    then ok tt
    else if dep.condition == service_healthy
    then err (no_ready_check name dep.name)
    else ok tt

abbrev pub shape_dep : List Shape → String → DependsOn → Result Error (Unit {0})
shape_dep shapes name dep =
    shape_dep_found name dep (find (λ (s : Shape). s.name == dep.name) shapes)

abbrev pub shape_deps : List Shape → String → List DependsOn → Result Error (Unit {0})
shape_deps shapes name [] = ok tt
shape_deps shapes name (d ∷ ds) = shape_dep shapes name d >> shape_deps shapes name ds

abbrev pub shape_services : List Shape → List Shape → Result Error (Unit {0})
shape_services shapes [] = ok tt
shape_services shapes (s ∷ rest) =
    shape_refs shapes s.name s.refs >> shape_deps shapes s.name s.deps >> shape_services shapes rest

abbrev pub map_view : Option Service → Option Shape
map_view none = none
map_view (some s) = some (view s)

pub find-views :
    (n : String) (ss : List Service)
    → find (λ (s : Shape). s.name == n) (views ss) ≡ map_view (get_service n ss)
unfolding get_service
find-views n [] = refl
find-views n (s ∷ ss) = elim (Bool-cases (s.name == n)) [
  | inl e ↦ rw e refl
  | inr e ↦ rw e (find-views n ss)
]

pub any-port_names :
    (label : String) (ps : List Port)
    → any (λ p. p == label) (port_names ps) ≡ is_set (get_port label ps)
unfolding get_port
any-port_names label [] = refl
any-port_names label (p ∷ ps) = elim (Bool-cases (p.name == label)) [
  | inl e ↦ rw e refl
  | inr e ↦ rw e (any-port_names label ps)
]

port_found-eq :
    (name : String) (r : NodeRef) (o : Option Port)
    → port_found name r o
      ≡ (if is_set o then ok tt else err (no_such_port name r.service r.port_label))
port_found-eq name r none = refl
port_found-eq name r (some p) = refl

target_found-eq :
    (name : String) (r : NodeRef) (o : Option Service)
    → target_found name r o ≡ shape_target name r.service r.port_label (map_view o)
target_found-eq name r none = refl
target_found-eq name r (some t) =
    port_found-eq name r (get_port r.port_label t.ports)
    ∙ ap (λ b. if b then ok tt else err (no_such_port name r.service r.port_label))
        (sym (any-port_names r.port_label t.ports))

check_ref-eq :
    (ss : List Service) (name : String) (r : NodeRef)
    → check_ref ss name r ≡ shape_ref (views ss) name r.service r.port_label
unfolding check_ref
check_ref-eq ss name r =
    target_found-eq name r (get_service r.service ss)
    ∙ ap (shape_target name r.service r.port_label) (sym (find-views r.service ss))

dep_found-eq :
    (name : String) (d : DependsOn) (o : Option Service)
    → dep_found name d o ≡ shape_dep_found name d (map_view o)
dep_found-eq name d none = refl
dep_found-eq name d (some t) = needs_ready-eq t.ready_check
  where
    needs_ready-eq :
        (o : Option ReadyCheck)
        → needs_ready name d o ≡ (
            if is_set o
            then ok tt
            else if d.condition == service_healthy
            then err (no_ready_check name d.name)
            else ok tt)
    needs_ready-eq none = refl
    needs_ready-eq (some c) = refl

check_dep-eq :
    (ss : List Service) (name : String) (d : DependsOn)
    → check_dep ss name d ≡ shape_dep (views ss) name d
unfolding check_dep
check_dep-eq ss name d =
    dep_found-eq name d (get_service d.name ss)
    ∙ ap (shape_dep_found name d) (sym (find-views d.name ss))

check_refs-eq :
    (ss : List Service) (name : String) (rs : List NodeRef)
    → check_refs ss name rs ≡ shape_refs (views ss) name (ref_names rs)
unfolding check_refs
check_refs-eq ss name [] = refl
check_refs-eq ss name (r ∷ rs) =
    ap (λ x. x >> check_refs ss name rs) (check_ref-eq ss name r)
    ∙ ap (λ x. shape_ref (views ss) name r.service r.port_label >> x) (check_refs-eq ss name rs)

check_deps-eq :
    (ss : List Service) (name : String) (ds : List DependsOn)
    → check_deps ss name ds ≡ shape_deps (views ss) name ds
unfolding check_deps
check_deps-eq ss name [] = refl
check_deps-eq ss name (d ∷ ds) =
    ap (λ x. x >> check_deps ss name ds) (check_dep-eq ss name d)
    ∙ ap (λ x. shape_dep (views ss) name d >> x) (check_deps-eq ss name ds)

-- The first loop of `Validate` depends on the shapes alone.
pub check_services-eq :
    (ss rest : List Service) → check_services ss rest ≡ shape_services (views ss) (views rest)
unfolding check_services
check_services-eq ss [] = refl
check_services-eq ss (s ∷ rest) =
    ap (λ x. x >> check_deps ss s.name s.depends_on >> check_services ss rest)
      (check_refs-eq ss s.name s.node_refs)
    ∙ ap (λ x. shape_refs (views ss) s.name (ref_names s.node_refs) >> x >> check_services ss rest)
        (check_deps-eq ss s.name s.depends_on)
    ∙ ap
        (λ x.
          shape_refs (views ss) s.name (ref_names s.node_refs)
          >> shape_deps (views ss) s.name s.depends_on
          >> x)
        (check_services-eq ss rest)

-- The paths that the shapes map exist.
abbrev pub FilesExist : Output → List Shape → Type 0
FilesExist out = All (λ (s : Shape). All (λ p. stat out p ≡ found) s.files)

check_paths-ok :
    (out : Output) (name : String) (ps : List String)
    → All (λ p. stat out p ≡ found) ps
    → check_paths out name ps ≡ ok tt
unfolding check_paths
check_paths-ok out name [] h = refl
check_paths-ok out name (p ∷ ps) (e, h) =
    ap (λ x. stat_result name (out.dst ⊕ "/" ⊕ p) x >> check_paths out name ps) e
    ∙ check_paths-ok out name ps h

pub check_files-ok :
    (out : Output) (ss : List Service) → FilesExist out (views ss) → check_files out ss ≡ ok tt
unfolding check_files
check_files-ok out [] h = refl
check_files-ok out (s ∷ ss) (p, h) =
    ap (λ x. x >> check_files out ss) (check_paths-ok out s.name (values s.files_mapped) p)
    ∙ check_files-ok out ss h

pub validate-ok :
    (m : Manifest)
    → shape_services (views m.services) (views m.services) ≡ ok tt
    → FilesExist m.ctx.output (views m.services)
    → validate m ≡ ok tt
unfolding validate
validate-ok m s f =
    ap (λ x. x >> check_files m.ctx.output m.services >> check_files m.ctx.output m.services)
      (check_services-eq m.services m.services ∙ s)
    ∙ ap (λ x. x >> check_files m.ctx.output m.services) (check_files-ok m.ctx.output m.services f)
    ∙ check_files-ok m.ctx.output m.services f

pub validate-err :
    (m : Manifest) {e : Error}
    → shape_services (views m.services) (views m.services) ≡ err e
    → validate m ≡ err e
unfolding validate
validate-err m s =
    ap (λ x. x >> check_files m.ctx.output m.services >> check_files m.ctx.output m.services)
      (check_services-eq m.services m.services ∙ s)
