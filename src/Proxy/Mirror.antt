-- ===== src/Proxy/Mirror.antt =====
-- What the handler of cl-proxy/cl-proxy.go tells the secondary, and what it answers.
use builder_playground.Prelude.{
  String, Bool, true, false, Option, none, some, List, [], ◌∷◌, ◌≡◌, inl, inr, refl, sym, ap, arith,
  ◌∙◌, if◌then◌else◌, ◌==◌, has_prefix, ◌||◌, All, length, Bool-cases, eqb, eqb_iff, code, String,
}
use builder_playground.Proxy.{
  Net, Config, JsonrpcMessage, Request, Response, failed, answered, Reply, Sent, Copy, skipped,
  crashes, forwards, Handled, handle_request, from_primary, mirrored, copy_of, strip_attributes,
  refused, http_error, written, decoded, read_body,
}

-- The second parameter, which holds the attributes of a block to build, is missing or null.
abbrev pub NoAttributes : List (Option String) → Type 0
NoAttributes (first ∷ (second ∷ more)) = second ≡ some "null"
NoAttributes _ = Unit

-- A message that neither asks for a block nor starts to build one.
abbrev pub BuildsNothing : JsonrpcMessage → Type 0
BuildsNothing m =
    (has_prefix m.method "engine_getPayload" ≡ false)
    × (has_prefix m.method "engine_forkchoiceUpdated" ≡ true → NoAttributes m.params)

-- What reading back what was written makes of the parameters: nil is written as null.
abbrev pub Nulls : List (Option String) → List (Option String) → Type 0
Nulls [] [] = Unit
Nulls (none ∷ ps) (q ∷ qs) = (q ≡ some "null") × Nulls ps qs
Nulls (some p ∷ ps) (q ∷ qs) = Nulls ps qs
Nulls _ _ = ⊥

-- `encoding/json` reads back what it wrote: the method, and a null for each nil parameter.
abbrev pub ReadsBack : Net → Type 0
ReadsBack net =
    (m : JsonrpcMessage) (content : String)
    → net.marshal m ≡ some content
    → (back : JsonrpcMessage) × (net.unmarshal content ≡ some back)
      × (back.method ≡ m.method)
      × Nulls m.params back.params

abbrev pub Harmless : Net → String → Type 0
Harmless net content = (m : JsonrpcMessage) × (net.unmarshal content ≡ some m) × BuildsNothing m

abbrev pub first_sent : List Sent → List Sent
first_sent [] = []
first_sent (s ∷ ss) = s ∷ []

abbrev pub later_sent : List Sent → List Sent
later_sent [] = []
later_sent (s ∷ ss) = ss

prefixes_agree :
    (s p q : String)
    → has_prefix s p ≡ true
    → has_prefix s q ≡ true
    → (has_prefix p q || has_prefix q p) ≡ true
prefixes_agree s String.[] String.[] h k = refl
prefixes_agree s String.[] (String.◌∷◌ e q) h k = refl
prefixes_agree s (String.◌∷◌ d p) String.[] h k = refl
prefixes_agree String.[] (String.◌∷◌ d p) (String.◌∷◌ e q) h k = cc
prefixes_agree (String.◌∷◌ c s) (String.◌∷◌ d p) (String.◌∷◌ e q) h k =
    elim (Bool-cases (eqb (code c) (code d))) [
      | inr x ↦ (let bad = rw x at h in cc)
      | inl x ↦ elim (Bool-cases (eqb (code c) (code e))) [
        | inr y ↦ (let bad = rw y at k in cc)
        | inl y ↦
            let de = sym ((eqb_iff (code c) (code d)).0 x) ∙ (eqb_iff (code c) (code e)).0 y in
            let there = (eqb_iff (code d) (code e)).1 de in
            let back = (eqb_iff (code e) (code d)).1 (sym de) in
            rw (there, back) (prefixes_agree s p q (rw x at h) (rw y at k))
      ]
    ]

pub fork_choice :
    (s : String)
    → has_prefix s "engine_forkchoiceUpdated" ≡ true
    → has_prefix s "engine_getPayload" ≡ false
fork_choice s h = elim (Bool-cases (has_prefix s "engine_getPayload")) [
  | inr e ↦ e
  | inl e ↦ let bad = prefixes_agree s "engine_forkchoiceUpdated" "engine_getPayload" h e in cc
]

module _ (net : Net) (config : Config) where
  -- A copy that is sent is harmless.
  abbrev Fine : Copy → Type 0
  Fine skipped = Unit
  Fine crashes = Unit
  Fine (forwards content) = Harmless net content

  one_param-NoAttributes : (ps : List (Option String)) → eqb (length ps) 1 ≡ true → NoAttributes ps
  one_param-NoAttributes [] e = tt
  one_param-NoAttributes (p ∷ []) e = tt
  one_param-NoAttributes (p ∷ (q ∷ ps)) e = ground arith

  Nulls-NoAttributes :
      (p : Option String) (ps back : List (Option String))
      → Nulls (p ∷ (none ∷ ps)) back
      → NoAttributes back
  Nulls-NoAttributes none ps (a ∷ (b ∷ back)) (_, (e, _)) = e
  Nulls-NoAttributes (some p) ps (a ∷ (b ∷ back)) (e, _) = e
  Nulls-NoAttributes none ps (a ∷ []) (_, h) = absurd h
  Nulls-NoAttributes none ps [] h = absurd h
  Nulls-NoAttributes (some p) ps (a ∷ []) h = absurd h
  Nulls-NoAttributes (some p) ps [] h = absurd h

  written-Fine :
      ReadsBack net
      → (m : JsonrpcMessage) (o : Option String) → net.marshal m ≡ o
      → has_prefix m.method "engine_getPayload" ≡ false
      → ((ps : List (Option String)) → Nulls m.params ps → NoAttributes ps)
      → Fine (written net config o)
  written-Fine back m none e g h = tt
  written-Fine back m (some content) e g h =
      let (m', read, same, nulls) = back m content e in
      (m', read, (ap (λ x. has_prefix x "engine_getPayload") same ∙ g, λ u. h m'.params nulls))

  strip_attributes-Fine :
      ReadsBack net
      → (m : JsonrpcMessage) (ps : List (Option String))
      → has_prefix m.method "engine_getPayload" ≡ false
      → Fine (strip_attributes net config (record m { params = ps }))
  strip_attributes-Fine back m [] g = tt
  strip_attributes-Fine back m (p ∷ []) g = tt
  strip_attributes-Fine back m (p ∷ (q ∷ ps)) g =
      let m' = record m { params = p ∷ (none ∷ ps) } in
      written-Fine back m' (net.marshal m') refl g (Nulls-NoAttributes p ps)

  copy_of-Fine :
      ReadsBack net
      → (m : JsonrpcMessage) (content : String) → net.unmarshal content ≡ some m
      → Fine (copy_of net config m content)
  unfolding copy_of
  copy_of-Fine back m content read = elim (Bool-cases (config.secondary == "")) [
    | inl e ↦ rw e tt
    | inr e ↦ rw e (elim (Bool-cases (has_prefix m.method "engine_getPayload")) [
      | inl g ↦ rw g tt
      | inr g ↦ rw g (elim (Bool-cases (has_prefix m.method "engine_forkchoiceUpdated")) [
        | inr f ↦ rw f (m, read, (g, λ u. (let bad = rw f at u in cc)))
        | inl f ↦ rw f (elim (Bool-cases (eqb (length m.params) 1)) [
          | inl l ↦ rw l (m, read, (g, λ u. one_param-NoAttributes m.params l))
          | inr l ↦ rw l (strip_attributes-Fine back m m.params g)
        ])
      ])
    ])
  ]

  abbrev Told : Request → Handled → Type 0
  Told r h =
      All (λ s. (s.dst ≡ config.primary) × (r.body ≡ some s.content)) (first_sent h.sent)
      × All (λ s. (s.dst ≡ config.secondary) × Harmless net s.content) (later_sent h.sent)

  mirrored-Told :
      (r : Request) (first : Sent) (reply : Reply) (copy : Copy)
      → first.dst ≡ config.primary
      → r.body ≡ some first.content
      → Fine copy
      → Told r (mirrored net config r first reply copy)
  unfolding mirrored
  mirrored-Told r first reply skipped d b h = (((d, b), tt), tt)
  mirrored-Told r first reply crashes d b h = (((d, b), tt), tt)
  mirrored-Told r first reply (forwards content) d b h = (((d, b), tt), ((refl, h), tt))

  from_primary-Told :
      ReadsBack net
      → (r : Request) (first : Sent) (m : JsonrpcMessage) (response : Response)
      → first.dst ≡ config.primary
      → r.body ≡ some first.content
      → net.unmarshal first.content ≡ some m
      → Told r (from_primary net config r first m response)
  unfolding from_primary
  from_primary-Told back r first m failed d b e = (((d, b), tt), tt)
  from_primary-Told back r first m (answered status none) d b e = (((d, b), tt), tt)
  from_primary-Told back r first m (answered status (some body)) d b e =
      mirrored-Told r first _ _ d b (copy_of-Fine back m first.content e)

  decoded-Told :
      ReadsBack net
      → (r : Request) (content : String) (o : Option JsonrpcMessage) → r.body ≡ some content
      → net.unmarshal content ≡ o
      → Told r (decoded net config r content o)
  unfolding decoded
  decoded-Told back r content none b e = (tt, tt)
  decoded-Told back r content (some m) b e = from_primary-Told back r _ m _ refl b e

  read_body-Told :
      ReadsBack net
      → (r : Request) (o : Option String) → r.body ≡ o
      → Told r (read_body net config r o)
  unfolding read_body
  read_body-Told back r none b = (tt, tt)
  read_body-Told back r (some content) b = decoded-Told back r content _ b refl

  -- The first request that the handler sends is the caller's body, to the primary; each later one
  -- goes to the secondary, and reads back as a message that does not ask for a payload and, if it
  -- updates the fork choice, has no attributes of a block to build: its second parameter is missing
  -- or null. It is assumed that the JSON codec reads back the method of what it wrote, and a null
  -- for each nil parameter.
  pub handle_request-Harmless :
      ReadsBack net
      → (r : Request)
      → All
          (λ s. (s.dst ≡ config.primary) × (r.body ≡ some s.content))
          (first_sent (handle_request net config r).sent)
        × All
            (λ s. (s.dst ≡ config.secondary) × Harmless net s.content)
            (later_sent (handle_request net config r).sent)
  unfolding handle_request
  handle_request-Harmless back r = choose (r.method == "POST")
    where
      choose :
          (b : Bool)
          → Told r (
              if b
              then read_body net config r r.body
              else refused net config (http_error "Method not allowed" 405) [])
      choose true = read_body-Told back r r.body refl
      choose false = (tt, tt)

  mirrored-reply :
      (r : Request) (first : Sent) (reply : Reply) (copy : Copy)
      → (mirrored net config r first reply copy).reply ≡ reply
  unfolding mirrored
  mirrored-reply r first reply skipped = refl
  mirrored-reply r first reply crashes = refl
  mirrored-reply r first reply (forwards content) = refl

module _ (net : Net) (config : Config) (other : String) where
  from_primary-reply :
      (r : Request) (first : Sent) (m : JsonrpcMessage) (response : Response)
      → (from_primary net config r first m response).reply
        ≡ (from_primary net (record config { secondary = other }) r first m response).reply
  unfolding from_primary
  from_primary-reply r first m failed = refl
  from_primary-reply r first m (answered status none) = refl
  from_primary-reply r first m (answered status (some body)) =
      mirrored-reply net config r first _ (copy_of net config m first.content)
      ∙ sym (
          mirrored-reply net (record config { secondary = other }) r first _
            (copy_of net (record config { secondary = other }) m first.content))

  decoded-reply :
      (r : Request) (content : String) (o : Option JsonrpcMessage)
      → (decoded net config r content o).reply
        ≡ (decoded net (record config { secondary = other }) r content o).reply
  unfolding decoded
  decoded-reply r content none = refl
  decoded-reply r content (some m) = from_primary-reply r _ m _

  read_body-reply :
      (r : Request) (o : Option String)
      → (read_body net config r o).reply
        ≡ (read_body net (record config { secondary = other }) r o).reply
  unfolding read_body
  read_body-reply r none = refl
  read_body-reply r (some content) = decoded-reply r content _

  -- The reply that the handler writes does not depend on the address of the secondary, whether
  -- there is one or not.
  pub handle_request-reply :
      (r : Request)
      → (handle_request net config r).reply
        ≡ (handle_request net (record config { secondary = other }) r).reply
  unfolding handle_request
  handle_request-reply r = choose (r.method == "POST")
    where
      choose :
          (b : Bool)
          → (if b
              then read_body net config r r.body
              else refused net config (http_error "Method not allowed" 405) []).reply
            ≡ (if b
                then read_body net (record config { secondary = other }) r r.body
                else refused net
                    (record config { secondary = other })
                    (http_error "Method not allowed" 405)
                    []).reply
      choose true = read_body-reply r r.body
      choose false = refl
