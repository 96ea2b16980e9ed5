-- ===== src/Proxy/Panics.antt =====
-- The panics of the handler of cl-proxy/cl-proxy.go.
use builder_playground.Prelude.{
  ℕ, String, true, false, Option, none, some, List, [], ◌∷◌, ◌≡◌, ◌↔◌, refl, sym, arith, ◌==◌,
  has_prefix, length, eqb, Bool-cases, inl, inr,
}
use builder_playground.Proxy.{
  Net, Config, JsonrpcMessage, Request, Response, failed, answered, Reply, Sent, Copy, skipped,
  crashes, forwards, panicked, handle_request, from_primary, mirrored, copy_of, strip_attributes,
  written, decoded, read_body,
}
use builder_playground.Proxy.Mirror.{fork_choice}
use mathlib.Core.Path.{subst}

-- The answer has a status and a body that can be read.
abbrev pub IsRead : Response → Type 0
IsRead response = (status : ℕ) × (body : String) × (response ≡ answered status (some body))

module _ (net : Net) (config : Config) where
  -- A fork choice update without parameters, of which a copy is to be made.
  abbrev pub Bare : JsonrpcMessage → Type 0
  Bare m =
      (config.secondary == "" ≡ false)
      × (has_prefix m.method "engine_forkchoiceUpdated" ≡ true)
      × (m.params ≡ [])

  abbrev pub to_primary : Request → String → Sent
  to_primary r content = record { dst = config.primary; headers = r.headers; content = content }

  written-apart : (o : Option String) {X : Type 0} → written net config o ≡ crashes → X
  written-apart none h = cc
  written-apart (some content) h = cc

  stripped :
      (m : JsonrpcMessage) (ps : List (Option String))
      → eqb (length ps) 1 ≡ false
      → strip_attributes net config (record m { params = ps }) ≡ crashes
      → ps ≡ []
  stripped m [] e h = refl
  stripped m (p ∷ []) e h = ground arith
  stripped m (p ∷ (q ∷ ps)) e h =
      written-apart (net.marshal (record m { params = p ∷ (none ∷ ps) })) h

  copy_of-crashes :
      (m : JsonrpcMessage) (content : String) → copy_of net config m content ≡ crashes → Bare m
  unfolding copy_of
  copy_of-crashes m content h = elim (Bool-cases (config.secondary == "")) [
    | inl e ↦ (let bad = rw e at h in cc)
    | inr e ↦ elim (Bool-cases (has_prefix m.method "engine_getPayload")) [
      | inl g ↦ (let bad = rw (e, g) at h in cc)
      | inr g ↦ elim (Bool-cases (has_prefix m.method "engine_forkchoiceUpdated")) [
        | inr f ↦ (let bad = rw (e, g, f) at h in cc)
        | inl f ↦ elim (Bool-cases (eqb (length m.params) 1)) [
          | inl l ↦ (let bad = rw (e, g, f, l) at h in cc)
          | inr l ↦ (e, f, stripped m m.params l (rw (e, g, f, l) at h))
        ]
      ]
    ]
  ]

  copy_of_iff :
      (m : JsonrpcMessage) (content : String) → (copy_of net config m content ≡ crashes) ↔ Bare m
  unfolding copy_of
  copy_of_iff m content =
      (copy_of-crashes m content, λ (s, f, e). rw (s, fork_choice m.method f, f, e) refl)

  mirrored_iff :
      (r : Request) (first : Sent) (reply : Reply) (copy : Copy)
      → ((mirrored net config r first reply copy).ending ≡ panicked) ↔ (copy ≡ crashes)
  unfolding mirrored
  mirrored_iff r first reply skipped = (λ h. cc, λ h. cc)
  mirrored_iff r first reply crashes = (λ h. refl, λ h. refl)
  mirrored_iff r first reply (forwards content) = (λ h. cc, λ h. cc)

  from_primary_iff :
      (r : Request) (first : Sent) (m : JsonrpcMessage) (response : Response)
      → ((from_primary net config r first m response).ending ≡ panicked)
        ↔ (IsRead response × Bare m)
  unfolding from_primary
  from_primary_iff r first m failed = (λ h. cc, λ ((_, _, h), _). cc)
  from_primary_iff r first m (answered status none) = (λ h. cc, λ ((_, _, h), _). cc)
  from_primary_iff r first m (answered status (some body)) =
      let reply : Reply = record {
        status = status;
        content_type = "application/json";
        body = body;
      } in
      let end = mirrored_iff r first reply (copy_of net config m first.content) in
      let copy = copy_of_iff m first.content in
      (λ h. ((status, body, refl), copy.0 (end.0 h)), λ (_, b). end.1 (copy.1 b))

  abbrev Panics : Request → String → JsonrpcMessage → Type 0
  Panics r content m = IsRead (net.do_request (to_primary r content)) × Bare m

  decoded_iff :
      (r : Request) (content : String) (o : Option JsonrpcMessage)
      → ((decoded net config r content o).ending ≡ panicked)
        ↔ ((m : JsonrpcMessage) × (o ≡ some m) × Panics r content m)
  unfolding decoded
  decoded_iff r content none = (λ h. cc, λ (_, h, _). cc)
  decoded_iff r content (some m) =
      let both =
        from_primary_iff r (to_primary r content) m (net.do_request (to_primary r content)) in
      (λ h. (m, refl, both.0 h), λ (m', e, p). both.1 (p.0, subst Bare (sym (some_inj e)) p.1))
    where
      some_inj : {A : Type 0} {a b : A} → some a ≡ some b → a ≡ b
      some_inj e = cc

  read_body_iff :
      (r : Request) (o : Option String)
      → ((read_body net config r o).ending ≡ panicked) ↔ (
          (content : String) × (m : JsonrpcMessage) × (o ≡ some content)
          × (net.unmarshal content ≡ some m)
          × Panics r content m)
  unfolding read_body
  read_body_iff r none = (λ h. cc, λ (_, _, h, _, _). cc)
  read_body_iff r (some content) =
      let both = decoded_iff r content (net.unmarshal content) in
      (
        λ h. (let (m, u, p) = both.0 h in (content, m, refl, u, p)),
        λ (content', m, e, u, p). both.1 (
            subst (λ x. (m : JsonrpcMessage) × (net.unmarshal x ≡ some m) × Panics r x m)
              (sym (some_inj e)) (m, u, p)),
      )
    where
      some_inj : {A : Type 0} {a b : A} → some a ≡ some b → a ≡ b
      some_inj e = cc

  -- The handler panics exactly when a body that is posted can be read and decodes to a fork choice
  -- update without parameters, the primary answers it with a body that can be read, and there is a
  -- secondary.
  pub handle_request-panics_iff :
      (r : Request)
      → ((handle_request net config r).ending ≡ panicked) ↔ (
          (r.method == "POST" ≡ true)
          × ((content : String) × (m : JsonrpcMessage) × (r.body ≡ some content)
              × (net.unmarshal content ≡ some m)
              × (IsRead (net.do_request (to_primary r content)) × Bare m)))
  unfolding handle_request
  handle_request-panics_iff r = elim (Bool-cases (r.method == "POST")) [
    | inl e ↦ let both = read_body_iff r r.body in rw e (λ h. (refl, both.0 h), λ (_, h). both.1 h)
    | inr e ↦ rw e (λ h. cc, λ (h, _). cc)
  ]
