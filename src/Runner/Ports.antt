-- ===== src/Runner/Ports.antt =====
-- The ports that `reservePort` gives, and those that `generateDockerCompose` gives to the services.
use builder_playground.Prelude.{
  ok_inj, ℕ, zero, suc, ◌+◌, ◌≤◌, ◌<◌, String, Bool, true, false, ◌||◌, List, [], ◌∷◌, ◌++◌, ◌≡◌,
  refl, sym, ap, ◌∙◌, eqb, eqb_iff, ◌≢◌, Bool-cases, inl, inr, ok, ◌>>=◌, >>=-eq-ok, ◌==◌, arith,
}
use mathlib.Core.Path.{subst}
use builder_playground.Service.{Service}
use builder_playground.Service.FirstPass.{Port, tcp, udp}
use builder_playground.Runner.{
  LocalRunner, reserved, bind_addr, first_free, reserve_port, reserve_ports, reserve_services,
  reserve_all,
}

-- No port twice.
abbrev pub Distinct : List ℕ → Type 0
Distinct [] = Unit
Distinct (i ∷ is) = (reserved is i ≡ false) × Distinct is

abbrev pub host_ports : List Port → List ℕ
host_ports [] = []
host_ports (p ∷ ps) = p.host_port ∷ host_ports ps

abbrev pub all_host_ports : List Service → List ℕ
all_host_ports [] = []
all_host_ports (s ∷ ss) = host_ports s.ports ++ all_host_ports ss

-- The first list in front of the second, last item first.
abbrev pub onto : List ℕ → List ℕ → List ℕ
onto [] r = r
onto (i ∷ is) r = onto is (i ∷ r)

onto-append : (is js r : List ℕ) → onto (is ++ js) r ≡ onto js (onto is r)
onto-append [] js r = refl
onto-append (i ∷ is) js r = onto-append is js (i ∷ r)

module _ (listens : String → String → ℕ → Bool) where
  -- A port among the `k` from `i`, not reserved, at which one can listen.
  abbrev pub IsFree : List ℕ → String → String → ℕ → ℕ → ℕ → Type 0
  IsFree ports addr protocol i k n =
      (i ≤ n) × (n < i + k) × (reserved ports n ≡ false) × (listens addr protocol n ≡ true)

  IsFree-suc :
      (ports : List ℕ) (addr protocol : String) (i k n : ℕ)
      → IsFree ports addr protocol (i + 1) k n
      → IsFree ports addr protocol i (suc k) n
  IsFree-suc ports addr protocol i k n (a, b, c, d) = (omega (arith, a), omega (arith, b), c, d)

  first_free-IsFree :
      (k i : ℕ) (protocol : String) (ports : List ℕ) (addr : String) {n : ℕ}
      → first_free listens k i protocol ports addr ≡ ok n
      → IsFree ports addr protocol i k n
  unfolding first_free
  first_free-IsFree zero i protocol ports addr h = cc
  first_free-IsFree (suc k) i protocol ports addr {n} h = elim (Bool-cases (reserved ports i)) [
    | inl e ↦
        IsFree-suc ports addr protocol i k n
          (first_free-IsFree k (i + 1) protocol ports addr (rw e at h))
    | inr e ↦ elim (Bool-cases (protocol == udp || protocol == tcp)) [
      | inr d ↦ (let bad = rw (e, d) at h in cc)
      | inl d ↦ elim (Bool-cases (listens addr protocol i)) [
        | inr f ↦
            IsFree-suc ports addr protocol i k n
              (first_free-IsFree k (i + 1) protocol ports addr (rw (e, d, f) at h))
        | inl f ↦
            subst (IsFree ports addr protocol i (suc k)) (ok_inj (rw (e, d, f) at h))
              (omega arith, omega arith, e, f)
      ]
    ]
  ]

  -- The port that `reservePort` gives lies in the thousand from the start port, was not reserved
  -- before, can be listened on at the address of the runner, and is reserved from then on.
  pub reserve_port_effect :
      (start_port : ℕ) (protocol : String) (d : LocalRunner) {n : ℕ} {d' : LocalRunner}
      → reserve_port listens start_port protocol d ≡ ok (n, d')
      → IsFree d.reserved_ports (bind_addr d.bind_host_ports_locally) protocol start_port 1000 n
        × (d' ≡ record d { reserved_ports = n ∷ d.reserved_ports })
  unfolding reserve_port
  reserve_port_effect start_port protocol d {n} {d'} h =
      let (i, h1, h2) =
        >>=-eq-ok
          (first_free listens 1000 start_port protocol d.reserved_ports
            (bind_addr d.bind_host_ports_locally))
          _ h in
      subst
        (λ (x : ℕ × LocalRunner).
          IsFree d.reserved_ports (bind_addr d.bind_host_ports_locally) protocol start_port 1000 x.0
          × (x.1 ≡ record d { reserved_ports = x.0 ∷ d.reserved_ports }))
        (ok_inj h2) (first_free-IsFree 1000 start_port protocol d.reserved_ports _ h1, refl)

  first_free-total :
      (k i : ℕ) (protocol : String) (ports : List ℕ) (addr : String) (n : ℕ)
      → (protocol == udp || protocol == tcp) ≡ true
      → IsFree ports addr protocol i k n
      → (m : ℕ) × (first_free listens k i protocol ports addr ≡ ok m)
  unfolding first_free
  first_free-total zero i protocol ports addr n p (a, b, c, d) = absurd (omega (arith, a, b))
  first_free-total (suc k) i protocol ports addr n p (a, b, c, d) = elim (Bool-cases (eqb i n)) [
    | inl same ↦ let e = (eqb_iff i n).0 same in (n, rw (e, c, p, d) refl)
    | inr differ ↦
        let above = above_of (λ e. (let bad = (eqb_iff i n).1 e in cc)) in
        let (m, h) = first_free-total k (i + 1) protocol ports addr n p above in
        elim (Bool-cases (reserved ports i)) [
          | inl e ↦ (m, rw e h)
          | inr e ↦ elim (Bool-cases (listens addr protocol i)) [
            | inl f ↦ (i, rw (e, p, f) refl)
            | inr f ↦ (m, rw (e, p, f) h)
          ]
        ]
  ]
    where
      above_of : (i ≢ n) → IsFree ports addr protocol (i + 1) k n
      above_of ne = (omega (arith, a, ne), omega (arith, b), c, d)

  -- `reservePort` of TCP or UDP gives a port, and does not panic, whenever one of the thousand
  -- ports from the start port is neither reserved nor refused by the operating system.
  pub reserve_port-total :
      (start_port : ℕ) (protocol : String) (d : LocalRunner) (n : ℕ)
      → (protocol == udp || protocol == tcp) ≡ true
      → IsFree d.reserved_ports (bind_addr d.bind_host_ports_locally) protocol start_port 1000 n
      → (m : ℕ) × (d' : LocalRunner) × (reserve_port listens start_port protocol d ≡ ok (m, d'))
  unfolding reserve_port
  reserve_port-total start_port protocol d n p free =
      let (m, h) = first_free-total 1000 start_port protocol d.reserved_ports _ n p free in
      (
        m,
        record d { reserved_ports = m ∷ d.reserved_ports },
        ap (λ r. r >>= λ i. ok (i, record d { reserved_ports = i ∷ d.reserved_ports })) h,
      )

  -- What a run of the loops leaves: the ports given, each reserved, and none of them twice.
  abbrev Gave : List ℕ → List ℕ → List ℕ → Type 0
  Gave r is r' = (r' ≡ onto is r) × (Distinct r → Distinct r')

  Gave-append : (r r1 r2 is js : List ℕ) → Gave r is r1 → Gave r1 js r2 → Gave r (is ++ js) r2
  Gave-append r r1 r2 is js (a, f) (b, g) =
      (b ∙ ap (onto js) a ∙ sym (onto-append is js r), λ h. g (f h))

  reserve_port-Gave :
      (start_port : ℕ) (protocol : String) (d : LocalRunner) {i : ℕ} {d' : LocalRunner}
      → reserve_port listens start_port protocol d ≡ ok (i, d')
      → Gave d.reserved_ports (i ∷ []) d'.reserved_ports
  reserve_port-Gave start_port protocol d {i} {d'} h =
      let ((_, _, fresh, _), e) = reserve_port_effect start_port protocol d h in
      let first = ap (λ (r : LocalRunner). r.reserved_ports) e in
      (first, λ g. subst Distinct (sym first) (fresh, g))

  reserve_ports-Gave :
      (ps : List Port) (d : LocalRunner) {qs : List Port} {d' : LocalRunner}
      → reserve_ports listens ps d ≡ ok (qs, d')
      → Gave d.reserved_ports (host_ports qs) d'.reserved_ports
  unfolding reserve_ports
  reserve_ports-Gave [] d {qs} {d'} h =
      subst
        (λ (x : List Port × LocalRunner). Gave d.reserved_ports (host_ports x.0) x.1.reserved_ports)
        (ok_inj h) (refl, λ g. g)
  reserve_ports-Gave (p ∷ ps) d {qs} {d'} h =
      let ((i, d1), h1, k1) = >>=-eq-ok (reserve_port listens p.port p.protocol d) _ h in
      let ((rs, d2), h2, k2) = >>=-eq-ok (reserve_ports listens ps d1) _ k1 in
      subst
        (λ (x : List Port × LocalRunner). Gave d.reserved_ports (host_ports x.0) x.1.reserved_ports)
        (ok_inj k2)
        (Gave-append d.reserved_ports d1.reserved_ports d2.reserved_ports (i ∷ []) (host_ports rs)
          (reserve_port-Gave p.port p.protocol d h1) (reserve_ports-Gave ps d1 h2))

  reserve_services-Gave :
      (ss : List Service) (d : LocalRunner) {ts : List Service} {d' : LocalRunner}
      → reserve_services listens ss d ≡ ok (ts, d')
      → Gave d.reserved_ports (all_host_ports ts) d'.reserved_ports
  unfolding reserve_services
  reserve_services-Gave [] d h =
      subst
        (λ (x : List Service × LocalRunner).
          Gave d.reserved_ports (all_host_ports x.0) x.1.reserved_ports)
        (ok_inj h) (refl, λ g. g)
  reserve_services-Gave (s ∷ ss) d h =
      let ((qs, d1), h1, k1) = >>=-eq-ok (reserve_ports listens s.ports d) _ h in
      let ((ts, d2), h2, k2) = >>=-eq-ok (reserve_services listens ss d1) _ k1 in
      subst
        (λ (x : List Service × LocalRunner).
          Gave d.reserved_ports (all_host_ports x.0) x.1.reserved_ports)
        (ok_inj k2)
        (Gave-append d.reserved_ports d1.reserved_ports d2.reserved_ports (host_ports qs)
          (all_host_ports ts) (reserve_ports-Gave s.ports d h1) (reserve_services-Gave ss d1 h2))

  -- If `reservePort` never panics in the loop over all services, their host ports are reserved on
  -- top of those that were, and if none of those was there twice, no port is there twice
  -- afterwards: no two ports of the manifest share a host port.
  pub reserve_all-Distinct :
      (d : LocalRunner) {d' : LocalRunner}
      → reserve_all listens d ≡ ok d'
      → Distinct d.reserved_ports
      → (d'.reserved_ports ≡ onto (all_host_ports d'.services) d.reserved_ports)
        × Distinct d'.reserved_ports
  unfolding reserve_all
  reserve_all-Distinct d h g =
      let ((ts, d1), h1, k1) = >>=-eq-ok (reserve_services listens d.services d) _ h in
      let (a, f) = reserve_services-Gave d.services d h1 in
      subst
        (λ (x : LocalRunner).
          (x.reserved_ports ≡ onto (all_host_ports x.services) d.reserved_ports)
          × Distinct x.reserved_ports)
        (ok_inj k1) (a, f g)
