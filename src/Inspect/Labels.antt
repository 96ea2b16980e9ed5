-- ===== src/Inspect/Labels.antt =====
-- The ports that playground/inspect.go finds are those of the containers that
-- playground/local_runner.go composes.
use builder_playground.Prelude.{
  ℕ, String, Bool, false, some, List, [], ◌∷◌, ◌≡◌, refl, sym, ap, ◌∙◌, ok, ◌⊕◌, ◌==◌, eq_iff,
  decimal, GoMap, insert, lookup, All, Bool-cases, inl, inr, code, arith,
}
use mathlib.Core.Path.{subst}
use builder_playground.Prelude.Dict.Laws.{lookup-insert, lookup-insert_other}
use builder_playground.Service.{Service, get_port}
use builder_playground.Service.FirstPass.{Port}
use builder_playground.Service.Ports.{Agree, PortsAgree}
use builder_playground.Runner.Compose.{Docker, port_labels, merge_labels, all_labels}
use builder_playground.Inspect.{Client, retrieve_container_details}

-- The label of a port.
abbrev label_of : String → String
label_of name = "port." ⊕ name

label_apart : (a b : String) → (a == b) ≡ false → (label_of a == label_of b) ≡ false
label_apart a b h = elim (Bool-cases (label_of a == label_of b)) [
  | inl e ↦
      (let same : a ≡ b = peel ((eq_iff (label_of a) (label_of b)).0 e) in
        let yes_ = (eq_iff a b).1 same in cc)
  | inr e ↦ e
]
  where
    peel : label_of a ≡ label_of b → a ≡ b
    peel e = cc

-- All ports of the name have the number.
abbrev Named : String → ℕ → List Port → Type 0
Named name n ports = All (λ (p : Port). p.name ≡ name → p.port ≡ n) ports

port_labels-kept :
    (name : String) (n : ℕ) (ports : List Port) (labels : GoMap String)
    → Named name n ports
    → lookup (label_of name) labels ≡ some (decimal n)
    → lookup (label_of name) (port_labels ports labels) ≡ some (decimal n)
unfolding port_labels
port_labels-kept name n [] labels h e = e
port_labels-kept name n (p ∷ ports) labels (k, h) e =
    port_labels-kept name n ports (insert (label_of p.name) (decimal p.port) labels) h
      (elim (Bool-cases (p.name == name)) [
        | inl same ↦
            let eq = (eq_iff p.name name).0 same in
            subst
              (λ x.
                lookup (label_of x) (insert (label_of p.name) (decimal p.port) labels)
                ≡ some (decimal n))
              eq
              (lookup-insert (label_of p.name) (decimal p.port) labels
                ∙ ap (λ m. some (decimal m)) (k eq))
        | inr apart ↦
            lookup-insert_other (label_of p.name) (label_of name) (decimal p.port) labels
              (label_apart p.name name apart)
            ∙ e
      ])

some_inj : {A : Type 0} {a b : A} → some a ≡ some b → a ≡ b
some_inj e = cc

Agree-Named :
    (name : String) (p : Port) (ports : List Port)
    → p.name ≡ name
    → All (Agree p) ports
    → Named name p.port ports
Agree-Named name p [] e h = tt
Agree-Named name p (q ∷ ports) e (a, h) =
    (λ same. sym (a (e ∙ sym same)).0, Agree-Named name p ports e h)

-- The label of a port that the service has is written, and no other port of the name changes it.
port_labels-found :
    (name : String) (ports : List Port) (labels : GoMap String) (q : Port)
    → PortsAgree ports
    → get_port name ports ≡ some q
    → lookup (label_of name) (port_labels ports labels) ≡ some (decimal q.port)
unfolding port_labels get_port
port_labels-found name [] labels q a h = cc
port_labels-found name (p ∷ ports) labels q (ap_, a) h = elim (Bool-cases (p.name == name)) [
  | inl e ↦
      let eq = (eq_iff p.name name).0 e in
      subst
        (λ (x : Port).
          lookup (label_of name) (port_labels (p ∷ ports) labels) ≡ some (decimal x.port))
        (some_inj (rw e at h))
        (port_labels-kept name p.port ports (insert (label_of p.name) (decimal p.port) labels)
          (Agree-Named name p ports eq ap_)
          (subst
            (λ x.
              lookup (label_of x) (insert (label_of p.name) (decimal p.port) labels)
              ≡ some (decimal p.port))
            eq (lookup-insert (label_of p.name) (decimal p.port) labels)))
  | inr e ↦
      port_labels-found name ports (insert (label_of p.name) (decimal p.port) labels) q a
        (rw e at h)
]

-- A label that is none of a port's stays.
port_labels-other :
    (key : String) (ports : List Port) (labels : GoMap String)
    → ((name : String) → (label_of name == key) ≡ false)
    → lookup key (port_labels ports labels) ≡ lookup key labels
unfolding port_labels
port_labels-other key [] labels h = refl
port_labels-other key (p ∷ ports) labels h =
    port_labels-other key ports (insert (label_of p.name) (decimal p.port) labels) h
    ∙ lookup-insert_other (label_of p.name) key (decimal p.port) labels (h p.name)

-- A label that the user does not set stays.
merge_labels-other :
    (key : String) (more labels : GoMap String)
    → All (λ entry. Path Bool (entry.0 == key) false) more
    → lookup key (merge_labels more labels) ≡ lookup key labels
unfolding merge_labels
merge_labels-other key [] labels h = refl
merge_labels-other key ((k, v) ∷ more) labels (e, h) =
    merge_labels-other key more (insert k v labels) h ∙ lookup-insert_other k key v labels e

abbrev head_code : String → ℕ
head_code String.[] = 0
head_code (String.◌∷◌ c s) = code c

no_service : (name : String) → (label_of name == "service") ≡ false
no_service name = elim (Bool-cases (label_of name == "service")) [
  | inl e ↦ absurd (omega (arith, ap head_code ((eq_iff (label_of name) "service").0 e)))
  | inr e ↦ e
]

module _ (docker : Docker) (s : Service) where
  -- For the container that was composed of a service, whose ports agree on one number for each
  -- name, `retrieveContainerDetails` gives the number of the port of a name that the service has;
  -- and the container has the label of the service, by which docker finds it, if the user sets no
  -- label of that key. It is assumed that docker lists just this container for the service, and
  -- shows its labels.
  pub retrieve_container_details-all_labels :
      (client : Client) (id name : String) (q : Port)
      → PortsAgree s.ports
      → All (λ entry. Path Bool (entry.0 == "service") false) docker.labels
      → client.container_list "service" s.name ≡ ok (id ∷ [])
      → client.container_inspect id ≡ ok (all_labels docker s)
      → get_port name s.ports ≡ some q
      → (lookup "service" (all_labels docker s) ≡ some s.name)
        × (retrieve_container_details client s.name name ≡ ok (id, decimal q.port))
  unfolding retrieve_container_details
  retrieve_container_details-all_labels client id name q a free l i g =
      let base =
        ("playground", "true")
        ∷ (("playground.session", docker.session_id) ∷ (("service", s.name) ∷ [])) in
      (
        port_labels-other "service" s.ports (merge_labels docker.labels base) no_service
            ∙ merge_labels-other "service" docker.labels base free,
        rw (l, i, port_labels-found name s.ports (merge_labels docker.labels base) q a g) refl,
      )
