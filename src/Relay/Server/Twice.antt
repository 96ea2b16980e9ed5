-- ===== src/Relay/Server/Twice.antt =====
-- What `New` of mev-boost-relay/mev-boost-relay.go leaves behind, and a second relay in one process.
use builder_playground.Prelude.{
  String, Bool, true, false, Option, none, some, ◌≡◌, ◌≢◌, refl, sym, ap, ◌∙◌, Result, ok, err,
  ok_inj, eq_iff, Bool-cases, inl, inr, ◌==◌, ◌⊕◌, decimal,
}
use builder_playground.Artifacts.{trim_0x}
use builder_playground.Relay.{Config}
use builder_playground.Relay.Server.{
  Halt, Process, Outside, Action, after, on_env, stateless, prepare, start_stores,
  start_mock_block_validation_service_server, block_sim_url, RelayApiOpts, make_api, new,
}

-- A step that returns, and the rest from there.
after-eq-ok :
    {S A B : Type 0} (r : Result Halt A × S) (f : A → Action S B) {b : B} {t : S}
    → after r f ≡ (ok b, t)
    → (a : A) × (s : S) × (r ≡ (ok a, s)) × (f a s ≡ (ok b, t))
after-eq-ok (ok a, s) f h = (a, s, refl, h)
after-eq-ok (err e, s) f h = cc

fst-ok :
    {S A : Type 0} {a b : A} {s t : S}
    → ◌≡◌ {A = Result Halt A × S} (ok a, s) (ok b, t)
    → (a ≡ b) × (s ≡ t)
fst-ok h = (ok_inj (ap (λ x. x.0) h), ap (λ x. x.1) h)

module _ (o : Outside) where
  -- What the options of the API say.
  make_api-eq-ok :
      (c : Config) (details : o.EthNetworkDetails) (url : String) {opts : RelayApiOpts o}
      → (make_api o c details url tt).0 ≡ ok opts
      → (opts.listen_addr ≡ c.api_listen_addr ⊕ ":" ⊕ decimal c.api_listen_port)
        × (opts.block_sim_url ≡ url)
  unfolding make_api
  make_api-eq-ok c details url {opts} h = go (o.decode_hex (trim_0x c.api_secret_key)) refl
    where
      with_key :
          (bytes : String)
          → o.decode_hex (trim_0x c.api_secret_key) ≡ ok bytes
          → (k : Result String o.SecretKey) → o.secret_key bytes ≡ k
          → (e : Option String) → o.relay_api ≡ e
          → (opts.listen_addr ≡ c.api_listen_addr ⊕ ":" ⊕ decimal c.api_listen_port)
            × (opts.block_sim_url ≡ url)
      with_key bytes b (err e) k api a = (let bad = rw (b, k) at h in cc)
      with_key bytes b (ok key) k (some e) a = (let bad = rw (b, k, a) at h in cc)
      with_key bytes b (ok key) k none a =
          let made = sym (ok_inj (rw (b, k, a) at h)) in
          (
            ap (λ (x : RelayApiOpts o). x.listen_addr) made,
            ap (λ (x : RelayApiOpts o). x.block_sim_url) made,
          )

      go :
          (r : Result String String)
          → o.decode_hex (trim_0x c.api_secret_key) ≡ r
          → (opts.listen_addr ≡ c.api_listen_addr ⊕ ":" ⊕ decimal c.api_listen_port)
            × (opts.block_sim_url ≡ url)
      go (err e) b = (let bad = rw b at h in cc)
      go (ok bytes) b = with_key bytes b (o.secret_key bytes) refl o.relay_api refl

  -- The mock service is started in a process that has none.
  mock-eq-ok :
      (p : Process) {url : String} {q : Process}
      → start_mock_block_validation_service_server o p ≡ (ok url, q)
      → (p.has_root ≡ false)
        × (q.has_root ≡ true)
        × ((addr : String) × (o.listen ≡ ok addr) × (url ≡ "http://" ⊕ addr))
  unfolding start_mock_block_validation_service_server
  mock-eq-ok p {url} {q} h = go o.listen refl p.has_root refl
    where
      go :
          (r : Result String String)
          → o.listen ≡ r
          → (b : Bool) → p.has_root ≡ b
          → (p.has_root ≡ false)
            × (q.has_root ≡ true)
            × ((addr : String) × (o.listen ≡ ok addr) × (url ≡ "http://" ⊕ addr))
      go (err e) l b root = (let bad = rw l at h in cc)
      go (ok addr) l true root = (let bad = rw (l, root) at h in cc)
      go (ok addr) l false root =
          let (at_url, at_q) = fst-ok (rw (l, root) at h) in
          (root, ap (λ (x : Process). x.has_root) (sym at_q), (addr, l, sym at_url))

  -- The steps of a call that returns, and the processes between them.
  new-eq-ok :
      (c : Config) (p : Process) {opts : RelayApiOpts o} {q : Process}
      → new o c p ≡ (ok opts, q)
      → (details : o.EthNetworkDetails) × (p1 : Process) × (url : String) × (p2 : Process)
        × (p1.has_root ≡ p.has_root)
        × (block_sim_url o c p1 ≡ (ok url, p2))
        × ((make_api o c details url tt).0 ≡ ok opts)
        × (q ≡ p2)
  unfolding new
  new-eq-ok c p h =
      let (details, p1, e1, h1) = after-eq-ok (on_env (prepare o c) p) _ h in
      let (_, p1', e2, h2) = after-eq-ok (stateless (start_stores o) p1) _ h1 in
      let (url, p2, e3, h3) = after-eq-ok (block_sim_url o c p1') _ h2 in
      (
        details,
        p1',
        url,
        p2,
        ap (λ x. x.1.has_root) (sym e2) ∙ ap (λ x. x.1.has_root) (sym e1),
        e3,
        ap (λ x. x.0) h3,
        ap (λ x. x.1) (sym h3),
      )

  -- Whether the mock service was started, and where blocks are validated.
  abbrev pub Validates : Config → Process → Process → String → Type 0
  Validates c p q url =
      (c.validation_server_addr ≡ ""
        → (p.has_root ≡ false)
          × (q.has_root ≡ true)
          × ((addr : String) × (o.listen ≡ ok addr) × (url ≡ "http://" ⊕ addr)))
      × (c.validation_server_addr ≢ ""
          → (url ≡ c.validation_server_addr) × (q.has_root ≡ p.has_root))

  block_sim_url-Validates :
      (c : Config) (p : Process) {url : String} {q : Process}
      → block_sim_url o c p ≡ (ok url, q)
      → Validates c p q url
  unfolding block_sim_url
  block_sim_url-Validates c p {url} {q} h = elim (Bool-cases (c.validation_server_addr == "")) [
    | inl e ↦ (
      λ _. mock-eq-ok p (rw e at h),
      λ other. absurd (other ((eq_iff c.validation_server_addr "").0 e)),
    )
    | inr e ↦
        let (at_url, at_q) = fst-ok (rw e at h) in
        (
          λ same. (let bad = sym e ∙ (eq_iff c.validation_server_addr "").1 same in cc),
          λ _. (sym at_url, ap (λ (x : Process). x.has_root) (sym at_q)),
        )
  ]

  -- When `New` gives a relay, it listens at the address and the port of the configuration; without
  -- a validation server no handler stood in the process before, one stands afterwards, and blocks
  -- go to the address of the mock service; with a validation server blocks go there and no handler
  -- is added.
  pub new-Validates :
      (c : Config) (p : Process) (opts : RelayApiOpts o) (q : Process)
      → new o c p ≡ (ok opts, q)
      → (opts.listen_addr ≡ c.api_listen_addr ⊕ ":" ⊕ decimal c.api_listen_port)
        × Validates c p q opts.block_sim_url
  new-Validates c p opts q h =
      let (details, p1, url, p2, kept, chosen, made, same) = new-eq-ok c p h in
      let (listen, at_url) = make_api-eq-ok c details url made in
      let (mock, remote) = block_sim_url-Validates c p1 chosen in
      let last = ap (λ (x : Process). x.has_root) same in
      (
        listen,
        (
          λ e.
              (let (r, s, (addr, l, u)) = mock e in
                (sym kept ∙ r, last ∙ s, (addr, l, at_url ∙ u))),
          λ e. (let (u, s) = remote e in (at_url ∙ u, last ∙ s ∙ kept)),
        ),
      )

-- After `New` has given a relay without a validation server, a second `New` without one in the same
-- process never gives a relay, whatever the system and the packages answer.
pub new_once :
    (o o' : Outside) (c c' : Config) (p q q' : Process) (opts : RelayApiOpts o)
    (opts' : RelayApiOpts o')
    → new o c p ≡ (ok opts, q)
    → c.validation_server_addr ≡ ""
    → c'.validation_server_addr ≡ ""
    → new o' c' q ≢ (ok opts', q')
new_once o o' c c' p q q' opts opts' h e e' again =
    let (_, (first, _)) = new-Validates o c p opts q h in
    let (_, (second, _)) = new-Validates o' c' q opts' q' again in
    let bad = sym (first e).1 ∙ (second e').0 in cc
