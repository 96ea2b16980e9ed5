-- ===== src/Service/Ports.antt =====
-- The ports of a service: what `WithPort` and the templates of `WithArgs` keep true.
use builder_playground.Prelude.{
  ok_inj, ℕ, String, Bool, true, false, List, [], ◌∷◌, ◌++◌, ◌≡◌, ◌≢◌, All, eqb, eqb_iff, eq_iff,
  Bool-cases, inl, inr, if◌then◌else◌, ok, >>=-eq-ok, ◌==◌,
}
use mathlib.Core.Path.{subst}
use builder_playground.Service.{
  Service, has_port, port_protocol, with_port, with_ports, noted, note_template, note_templates,
  with_args, with_env,
}
use builder_playground.Service.FirstPass.{Port, port_at, apply_template}

-- Two ports of one name have one number, and differ in their protocol.
abbrev pub Agree : Port → Port → Type 0
Agree p q = p.name ≡ q.name → (p.port ≡ q.port) × (p.protocol ≢ q.protocol)

abbrev pub PortsAgree : List Port → Type 0
PortsAgree [] = Unit
PortsAgree (p ∷ ps) = All (Agree p) ps × PortsAgree ps

All-snoc :
    {A : Type 0} (P : A → Type 0) (xs : List A) (x : A) → All P xs → P x → All P (xs ++ x ∷ [])
All-snoc P [] x h p = (p, tt)
All-snoc P (y ∷ xs) x (q, h) p = (q, All-snoc P xs x h p)

PortsAgree-snoc :
    (ps : List Port) (q : Port)
    → PortsAgree ps
    → All (λ p. Agree p q) ps
    → PortsAgree (ps ++ q ∷ [])
PortsAgree-snoc [] q h k = (tt, tt)
PortsAgree-snoc (p ∷ ps) q (a, h) (b, k) = (All-snoc (Agree p) ps q a b, PortsAgree-snoc ps q h k)

-- When the loop of `WithPort` finds no port, the new one agrees with all that are there.
has_port-absent :
    (name : String) (number : ℕ) (protocol : String) (ps : List Port)
    → has_port name number protocol ps ≡ ok false
    → All (λ p. Agree p (port_at name number protocol)) ps
unfolding has_port
has_port-absent name number protocol [] h = tt
has_port-absent name number protocol (p ∷ ps) h = elim (Bool-cases (p.name == name)) [
  | inr e ↦ (
    λ same. (let t = (eq_iff p.name name).1 same in cc),
    has_port-absent name number protocol ps (rw e at h),
  )
  | inl e ↦ elim (Bool-cases (eqb p.port number)) [
    | inr d ↦ (let bad = rw (e, d) at h in cc)
    | inl d ↦ elim (Bool-cases (p.protocol == protocol)) [
      | inl x ↦ (let bad = rw (e, d, x) at h in cc)
      | inr x ↦ (
        λ _. (
          (eqb_iff p.port number).0 d,
          λ same. (let t = (eq_iff p.protocol protocol).1 same in cc),
        ),
        has_port-absent name number protocol ps (rw (e, d, x) at h),
      )
    ]
  ]
]

-- `WithPort` keeps, when it does not panic, the ports of a service in agreement: one name stands
-- for one number, and no port is there twice under the same name and protocol.
with_port-PortsAgree :
    (name : String) (number : ℕ) (protocol_var : List String) (s : Service) {s' : Service}
    → with_port name number protocol_var s ≡ ok s'
    → PortsAgree s.ports
    → PortsAgree s'.ports
unfolding with_port
with_port-PortsAgree name number protocol_var s {s'} h a =
    let (protocol, _, h1) = >>=-eq-ok (port_protocol protocol_var) _ h in
    let (present, absent, h2) = >>=-eq-ok (has_port name number protocol s.ports) _ h1 in
    subst (λ (x : Service). PortsAgree x.ports) (ok_inj h2) (added protocol present absent)
  where
    added :
        (protocol : String) (present : Bool)
        → has_port name number protocol s.ports ≡ ok present
        → PortsAgree
            (if present
              then s
              else record s { ports = s.ports ++ port_at name number protocol ∷ [] }).ports
    added protocol true absent = a
    added protocol false absent =
        PortsAgree-snoc s.ports (port_at name number protocol) a
          (has_port-absent name number protocol s.ports absent)

with_ports-PortsAgree :
    (ps : List Port) (s : Service) {s' : Service}
    → with_ports ps s ≡ ok s'
    → PortsAgree s.ports
    → PortsAgree s'.ports
unfolding with_ports
with_ports-PortsAgree [] s h a = subst (λ (x : Service). PortsAgree x.ports) (ok_inj h) a
with_ports-PortsAgree (p ∷ ps) s h a =
    let (s1, h1, h2) = >>=-eq-ok (with_port p.name p.port (p.protocol ∷ []) s) _ h in
    with_ports-PortsAgree ps s1 h2 (with_port-PortsAgree p.name p.port (p.protocol ∷ []) s h1 a)

note_template-PortsAgree :
    (arg : String) (s : Service) {s' : Service}
    → note_template arg s ≡ ok s'
    → PortsAgree s.ports
    → PortsAgree s'.ports
unfolding note_template noted
note_template-PortsAgree arg s h a =
    let ((text, ports, refs), _, h1) = >>=-eq-ok (apply_template arg) _ h in
    let (s1, h2, h3) = >>=-eq-ok (with_ports ports s) _ h1 in
    subst (λ (x : Service). PortsAgree x.ports) (ok_inj h3) (with_ports-PortsAgree ports s h2 a)

note_templates-PortsAgree :
    (args : List String) (s : Service) {s' : Service}
    → note_templates args s ≡ ok s'
    → PortsAgree s.ports
    → PortsAgree s'.ports
unfolding note_templates
note_templates-PortsAgree [] s h a = subst (λ (x : Service). PortsAgree x.ports) (ok_inj h) a
note_templates-PortsAgree (v ∷ vs) s h a =
    let (s1, h1, h2) = >>=-eq-ok (note_template v s) _ h in
    note_templates-PortsAgree vs s1 h2 (note_template-PortsAgree v s h1 a)

-- `WithArgs`, which adds the ports that its templates name, keeps, when it does not panic, the
-- ports of a service in agreement: one name stands for one number, and no port is there twice under
-- the same name and protocol.
pub with_args-PortsAgree :
    (args : List String) (s : Service) {s' : Service}
    → with_args args s ≡ ok s'
    → PortsAgree s.ports
    → PortsAgree s'.ports
unfolding with_args
with_args-PortsAgree args s h a =
    let (s1, h1, h2) = >>=-eq-ok (note_templates args s) _ h in
    subst (λ (x : Service). PortsAgree x.ports) (ok_inj h2) (note_templates-PortsAgree args s h1 a)

-- `WithEnv`, which adds the ports that the template of its value names, keeps, when it does not
-- panic, the ports of a service in agreement.
with_env-PortsAgree :
    (key value : String) (s : Service) {s' : Service}
    → with_env key value s ≡ ok s'
    → PortsAgree s.ports
    → PortsAgree s'.ports
unfolding with_env
with_env-PortsAgree key value s h a =
    let (s1, h1, h2) = >>=-eq-ok (note_template value s) _ h in
    subst (λ (x : Service). PortsAgree x.ports) (ok_inj h2) (note_template-PortsAgree value s h1 a)
