-- ===== src/Runner/Second.antt =====
-- playground/local_runner.go `applyTemplate` and `printAddr`: the second pass, which puts addresses in
-- the place of the references.
use builder_playground.Prelude.{
  ℕ, String, Option, none, some, List, [], ◌∷◌, ◌≡◌, ap, ◌∙◌, if◌then◌else◌, Result, ok, err, ◌>>=◌,
  ◌==◌, ◌⊕◌, decimal, GoMap,
}
use builder_playground.Template.{Token, word, quoted, number, Piece, parse, execute}
use builder_playground.Template.Laws.{IsLiteral, chars}
use builder_playground.Template.Runs.{in_front, execute-chars_then, execute-call, execute-text}
use builder_playground.Service.{Service, get_port}
use builder_playground.Service.FirstPass.{Port, NodeRef}
use builder_playground.Service.RoundTrip.{IsWritable, template_of, service_tokens, scan-template_of}
use builder_playground.Manifest.{get_service}
use builder_playground.Runner.{LocalRunner, is_host_service}

-- `printAddr`
unfoldable pub print_addr : String → String → ℕ → String → String
print_addr protocol service_name port user =
    let protocol_prefix = if protocol == "" then "" else protocol ⊕ "://" in
    if user == ""
    then protocol_prefix ⊕ service_name ⊕ ":" ⊕ decimal port
    else protocol_prefix ⊕ user ⊕ "@" ⊕ service_name ⊕ ":" ⊕ decimal port

module _ (d : LocalRunner) (s : Service) where
  -- The address of a port of a service: the cases A and B, D and C.
  abbrev pub addr : String → String → Service → Port → String
  addr protocol user svc port =
      if is_host_service d s.name
      then print_addr protocol "localhost" port.host_port user
      else if is_host_service d svc.name
      then print_addr protocol "host.docker.internal" port.host_port user
      else print_addr protocol svc.name port.port user

  -- The panics of `MustGetService` and `MustGetPort` are errors of the template, as in `none`.
  abbrev pub addr_of_port : String → String → Service → Option Port → Option (String × Unit {0})
  addr_of_port protocol user svc none = none
  addr_of_port protocol user svc (some port) = some (addr protocol user svc port, tt)

  abbrev pub addr_of : String → String → String → Option Service → Option (String × Unit {0})
  addr_of label protocol user none = none
  addr_of label protocol user (some svc) = addr_of_port protocol user svc (get_port label svc.ports)

  abbrev pub host_port_of : Option Port → Option (String × Unit {0})
  host_port_of none = none
  host_port_of (some port) = some (decimal port.host_port, tt)

  -- `resolvePort`
  unfoldable pub resolve_port : String → ℕ → Option (String × Unit {0})
  unfolding get_port
  resolve_port name default_port =
      if is_host_service d s.name
      then host_port_of (get_port name s.ports)
      else some (decimal default_port, tt)

  unfoldable pub second_funcs : List Token → Unit {0} → Option (String × Unit {0})
  unfolding resolve_port get_service get_port is_host_service print_addr
  second_funcs (word f ∷ (quoted name ∷ (number n ∷ []))) _ =
      if f == "Port"
      then resolve_port name n
      else if f == "PortUDP"
      then resolve_port name n
      else none
  second_funcs (word f ∷ (quoted name ∷ (quoted label ∷ (quoted protocol ∷ (quoted user ∷ [])))))
        _ =
      if f == "Service" then addr_of label protocol user (get_service name d.services) else none
  second_funcs _ _ = none

  abbrev pub text_of : Option (String × Unit {0}) → Result String String
  text_of none = err "failed to execute template"
  text_of (some (text, _)) = ok text

  abbrev pub run_pieces : Option (List Piece) → Result String String
  run_pieces none = err "failed to parse template"
  run_pieces (some ps) = text_of (execute second_funcs ps tt)

  -- `runTemplate`
  unfoldable pub run_second : String → Result String String
  unfolding second_funcs parse execute
  run_second arg = run_pieces (parse arg)

  unfoldable pub run_args : List String → Result String (List String)
  unfolding run_second
  run_args [] = ok []
  run_args (a ∷ rest) = do a' ← run_second a; rest' ← run_args rest; ok (a' ∷ rest')

  unfoldable pub run_env : GoMap String → Result String (GoMap String)
  unfolding run_second
  run_env [] = ok []
  run_env (e ∷ rest) = do v ← run_second e.1; rest' ← run_env rest; ok ((e.0, v) ∷ rest')

  -- `applyTemplate`
  unfoldable pub apply_second : Result String (List String × GoMap String)
  unfolding run_args run_env
  apply_second = do args ← run_args s.args; env ← run_env s.env; ok (args, env)

  second_funcs-service_tokens :
      (r : NodeRef) {t : Service} {p : Port}
      → get_service r.service d.services ≡ some t
      → get_port r.port_label t.ports ≡ some p
      → second_funcs (service_tokens r) tt ≡ some (addr r.protocol r.user t p, tt)
  unfolding second_funcs
  second_funcs-service_tokens r {t} {p} h k =
      ap (addr_of r.port_label r.protocol r.user) h ∙ ap (addr_of_port r.protocol r.user t) k

  -- The second pass puts, in the place of a reference that resolves and whose fields can stand
  -- between quotes, between texts that open no action, the address of the port: on localhost by the
  -- host port if this service runs on the host, on host.docker.internal by the host port if only
  -- the other one does, and else under the name of the other service by its own port.
  pub run_second-template_of :
      (pre post : String) (r : NodeRef) {t : Service} {p : Port}
      → IsLiteral pre
      → IsLiteral post
      → IsWritable r
      → get_service r.service d.services ≡ some t
      → get_port r.port_label t.ports ≡ some p
      → run_second (pre ⊕ template_of r ⊕ post)
        ≡ ok (
            pre
            ⊕ (if is_host_service d s.name
                then print_addr r.protocol "localhost" p.host_port r.user
                else if is_host_service d t.name
                then print_addr r.protocol "host.docker.internal" p.host_port r.user
                else print_addr r.protocol t.name p.port r.user)
            ⊕ post)
  unfolding run_second
  run_second-template_of pre post r {t} {p} h k w found_service found_port =
      ap run_pieces (scan-template_of pre post r h k w)
      ∙ ap text_of (
          execute-chars_then second_funcs pre _ tt
          ∙ ap (in_front pre) (
              execute-call second_funcs (service_tokens r) (chars post) tt
                (second_funcs-service_tokens r found_service found_port)
              ∙ ap (in_front (addr r.protocol r.user t p)) (execute-text second_funcs post tt)))
