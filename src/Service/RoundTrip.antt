-- ===== src/Service/RoundTrip.antt =====
-- The first pass over the templates that the package writes.
use builder_playground.Prelude.{
  ℕ, zero, code, String, some, List, [], ◌∷◌, ◌++◌, ◌≡◌, ◌≢◌, refl, ap, ◌∙◌, Bool-cases, inl, inr,
  false, eqb, ok, ◌⊕◌, ⊕_assoc, Chars, Chars-⊕, decimal, ◌==◌, arith,
}
use builder_playground.Template.{Token, word, quoted, number, call, text, prepend, scan, execute}
use builder_playground.Template.Laws.{decimal-Chars, IsLiteral, IsQuotable, chars, scan-text}
use builder_playground.Template.Actions.{scan-service_call, scan-port_call}
use builder_playground.Template.Runs.{in_front, execute-chars_then, execute-call}
use builder_playground.Output.{connect_raw}
use builder_playground.Service.Literals.{scan-literal, execute-chars}
use builder_playground.Service.FirstPass.{
  Refs, NodeRef, tcp, port_at, service_fn, port_fn, funcs, unescape, executed, run_template,
  apply_template,
}

-- No ampersand, the first character of the escape of a quote.
abbrev pub IsPlain : String → Type 0
IsPlain = Chars (λ c. c ≢ b'&')

unescape-plain : (v : String) → IsPlain v → unescape zero v ≡ v
unfolding unescape
unescape-plain String.[] h = refl
unescape-plain (String.◌∷◌ c v) (p, h) = elim (Bool-cases (eqb (code c) b'&')) [
  | inl e ↦ ground (arith, p, e)
  | inr e ↦ rw e (ap (String.◌∷◌ c) (unescape-plain v h))
]

-- The fields of a reference that the package writes into a template.
pub record IsWritable (r : NodeRef) : Type 0 where
  pub service_ok : IsQuotable r.service × IsPlain r.service
  pub port_ok : IsQuotable r.port_label × IsPlain r.port_label
  pub protocol_ok : IsQuotable r.protocol × IsPlain r.protocol
  pub user_ok : IsQuotable r.user × IsPlain r.user
  pub service_set : (r.service == "") ≡ false
  pub port_set : (r.port_label == "") ≡ false

abbrev pub template_of : NodeRef → String
template_of r = connect_raw r.service r.port_label r.protocol r.user

abbrev no_refs : Refs
no_refs = record { port_ref = []; node_ref = [] }

abbrev pub service_tokens : NodeRef → List Token
service_tokens r =
    word "Service" ∷ quoted r.service ∷ quoted r.port_label ∷ quoted r.protocol ∷ quoted r.user ∷ []

connect_raw_then :
    (a b c d rest : String)
    → connect_raw a b c d ⊕ rest
      ≡ "{{Service \"" ⊕ a ⊕ "\" \"" ⊕ b ⊕ "\" \"" ⊕ c ⊕ "\" \"" ⊕ d ⊕ "\"}}" ⊕ rest
unfolding connect_raw
connect_raw_then a b c d rest = simp ⊕_assoc

template_of-IsPlain : (r : NodeRef) → IsWritable r → IsPlain (template_of r)
unfolding connect_raw
template_of-IsPlain r w = plain "{{Service \"" _ (omega arith) (
    plain r.service _ w.service_ok.1 (
      plain "\" \"" _ (omega arith) (
        plain r.port_label _ w.port_ok.1 (
          plain "\" \"" _ (omega arith) (
            plain r.protocol _ w.protocol_ok.1
              (plain "\" \"" _ (omega arith) (plain r.user _ w.user_ok.1 (omega arith))))))))
  where
    plain : (s t : String) → IsPlain s → IsPlain t → IsPlain (s ⊕ t)
    plain s t h k = Chars-⊕ (λ c. c ≢ b'&') s t h k

pub scan-template_of :
    (pre post : String) (r : NodeRef)
    → IsLiteral pre
    → IsLiteral post
    → IsWritable r
    → scan text (pre ⊕ template_of r ⊕ post)
      ≡ some (chars pre ++ call (service_tokens r) ∷ chars post)
scan-template_of pre post r h k w =
    scan-text pre _ h
    ∙ ap (λ s. prepend (chars pre) (scan text s)) (connect_raw_then _ _ _ _ post)
    ∙ ap (prepend (chars pre)) (
        scan-service_call r.service r.port_label r.protocol r.user post w.service_ok.0 w.port_ok.0
          w.protocol_ok.0 w.user_ok.0
        ∙ ap (prepend (call (service_tokens r) ∷ [])) (scan-literal post k))

funcs-service_tokens :
    (r : NodeRef)
    → IsWritable r
    → funcs (service_tokens r) no_refs
      ≡ some (template_of r, record { port_ref = []; node_ref = r ∷ [] })
unfolding connect_raw funcs service_fn
funcs-service_tokens r w = rw (w.service_set, w.port_set) refl

execute-service_tokens :
    (r : NodeRef) (post : String)
    → IsWritable r
    → execute funcs (call (service_tokens r) ∷ chars post) no_refs
      ≡ some (template_of r ⊕ post, record { port_ref = []; node_ref = r ∷ [] })
execute-service_tokens r post w =
    execute-call funcs (service_tokens r) (chars post) _ (funcs-service_tokens r w)
    ∙ ap (in_front (template_of r)) (execute-chars post _)

-- The first pass keeps the text of a template with one reference, and finds just this reference, if
-- the texts around it open no action, the fields of the reference can stand between quotes, its
-- service and port are not empty, and nothing holds an ampersand.
pub apply_template-template_of :
    (pre post : String) (r : NodeRef)
    → IsLiteral pre × IsPlain pre
    → IsLiteral post × IsPlain post
    → IsWritable r
    → apply_template (pre ⊕ template_of r ⊕ post) ≡ ok (pre ⊕ template_of r ⊕ post, [], r ∷ [])
unfolding apply_template
apply_template-template_of pre post r (h, hp) (k, kp) w =
    ap run_template (scan-template_of pre post r h k w)
    ∙ ap executed
        (execute-chars_then funcs pre _ _ ∙ ap (in_front pre) (execute-service_tokens r post w))
    ∙ ap (λ s. ok (s, [], r ∷ []))
        (unescape-plain _ (
          Chars-⊕ (λ c. c ≢ b'&') pre (template_of r ⊕ post) hp
            (Chars-⊕ (λ c. c ≢ b'&') (template_of r) post (template_of-IsPlain r w) kp)))

abbrev pub port_template : String → ℕ → String
port_template name n = "{{Port \"" ⊕ name ⊕ "\" " ⊕ decimal n ⊕ "}}"

abbrev port_tokens : String → ℕ → List Token
port_tokens name n = word "Port" ∷ quoted name ∷ number n ∷ []

port_template_then :
    (name : String) (n : ℕ) (rest : String)
    → port_template name n ⊕ rest ≡ "{{Port \"" ⊕ name ⊕ "\" " ⊕ decimal n ⊕ "}}" ⊕ rest
port_template_then name n rest = simp ⊕_assoc

execute-port_tokens :
    (name : String) (n : ℕ) (post : String)
    → execute funcs (call (port_tokens name n) ∷ chars post) no_refs
      ≡ some (
        port_template name n ⊕ post,
        record { port_ref = port_at name n tcp ∷ []; node_ref = [] },
      )
unfolding funcs port_fn
execute-port_tokens name n post =
    execute-call funcs (port_tokens name n) (chars post) _ refl
    ∙ ap (in_front (port_template name n)) (execute-chars post _)

port_template-IsPlain : (name : String) (n : ℕ) → IsPlain name → IsPlain (port_template name n)
port_template-IsPlain name n h =
    Chars-⊕ (λ c. c ≢ b'&') "{{Port \"" _ (omega arith)
      (Chars-⊕ (λ c. c ≢ b'&') name _ h
        (Chars-⊕ (λ c. c ≢ b'&') "\" " _ (omega arith)
          (Chars-⊕ (λ c. c ≢ b'&') (decimal n) "}}"
            (decimal-Chars (λ c. c ≢ b'&') (λ c lo hi. omega arith) n) (omega arith))))

-- The first pass keeps the text of a template with one TCP port, and finds just this port, if the
-- texts around it open no action, the name of the port can stand between quotes, and nothing holds
-- an ampersand.
apply_template-port_template :
    (pre post name : String) (n : ℕ)
    → IsLiteral pre × IsPlain pre
    → IsLiteral post × IsPlain post
    → IsQuotable name × IsPlain name
    → apply_template (pre ⊕ port_template name n ⊕ post)
      ≡ ok (pre ⊕ port_template name n ⊕ post, port_at name n tcp ∷ [], [])
unfolding apply_template
apply_template-port_template pre post name n (h, hp) (k, kp) (q, qp) =
    ap run_template (
      scan-text pre _ h
      ∙ ap (λ s. prepend (chars pre) (scan text s)) (port_template_then name n post)
      ∙ ap (prepend (chars pre)) (
          scan-port_call name n post q
          ∙ ap (prepend (call (port_tokens name n) ∷ [])) (scan-literal post k)))
    ∙ ap executed
        (execute-chars_then funcs pre _ _ ∙ ap (in_front pre) (execute-port_tokens name n post))
    ∙ ap (λ s. ok (s, port_at name n tcp ∷ [], []))
        (unescape-plain _ (
          Chars-⊕ (λ c. c ≢ b'&') pre (port_template name n ⊕ post) hp
            (Chars-⊕ (λ c. c ≢ b'&') (port_template name n) post (port_template-IsPlain name n qp)
              kp)))
