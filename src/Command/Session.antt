-- ===== src/Command/Session.antt =====
-- A session of `runIt`, main.go: what is started is stopped.
use builder_playground.Prelude.{
  Stop, fails, panics, String, Bool, true, false, Option, none, some, List, [], ◌∷◌, ◌++◌, ◌≡◌, sym,
  ◌∙◌, Result, ok, err, GoMap, if_cases,
}
use builder_playground.Output.{Output, write_file}
use builder_playground.Context.{unmarshal_level}
use builder_playground.Service.{Service}
use builder_playground.Service.FirstPass.{Panic}
use builder_playground.Manifest.{Manifest, Error, validate}
use builder_playground.Runner.{LocalRunner}
use builder_playground.Runner.Create.{new_local_runner}
use builder_playground.Command.{
  Flags, Recipe, World, Event, wrote, ran, stopped, Exit, returned, crashed, panicked, Trace, emit,
  check_overrides, parse_overrides, prometheus, finished, stop_exit, stopping, abandoned, shown,
  completed, waited, running, created, runner_config, checked, launched, with_service, scraped,
  saved, graphed, validated, applied, built, context, parsed, leveled, run_it,
}

-- Files, and at most one `Run`, after which the only and last thing is `Stop`.
abbrev pub IsTidy : List Event → Type 0
IsTidy [] = Unit
IsTidy (wrote path ∷ events) = IsTidy events
IsTidy (ran ∷ (stopped ∷ [])) = Unit
IsTidy _ = ⊥

-- The same, or without the `Stop`.
abbrev pub MayBeOpen : List Event → Type 0
MayBeOpen [] = Unit
MayBeOpen (wrote path ∷ events) = MayBeOpen events
MayBeOpen (ran ∷ []) = Unit
MayBeOpen (ran ∷ (stopped ∷ [])) = Unit
MayBeOpen _ = ⊥

-- Nothing but files.
abbrev pub OnlyFiles : List Event → Type 0
OnlyFiles [] = Unit
OnlyFiles (wrote path ∷ events) = OnlyFiles events
OnlyFiles _ = ⊥

-- The events by how `runIt` ends: `panicked` is a panic of `NewLocalRunner`, `crashed` any other.
abbrev pub EndsAs : Exit → List Event → Type 0
EndsAs (returned e) events = IsTidy events
EndsAs (crashed p) events = MayBeOpen events
EndsAs (panicked e) events = OnlyFiles events

-- What holds of the events of a session: they fit its end, and a dry run only writes files.
abbrev pub IsSession : Bool → Trace → Type 0
IsSession dry_run trace = EndsAs trace.1 trace.0 × (dry_run ≡ true → OnlyFiles trace.0)

impossible : (b : Bool) {X : Type 0} → b ≡ false → b ≡ true → X
impossible b e d = (let bad = sym e ∙ d in cc)

-- A file that is written first changes nothing.
EndsAs-wrote :
    (path : String) (exit : Exit) (events : List Event)
    → EndsAs exit events
    → EndsAs exit (wrote path ∷ events)
EndsAs-wrote path (returned e) events h = h
EndsAs-wrote path (crashed p) events h = h
EndsAs-wrote path (panicked e) events h = h

IsSession-wrote :
    (dry_run : Bool) (path : String) (trace : Trace)
    → IsSession dry_run trace
    → IsSession dry_run (emit (wrote path) trace)
IsSession-wrote dry_run path trace (h, k) = (EndsAs-wrote path trace.1 trace.0 h, k)

module _ (world : World) (flags : Flags) (recipe : Recipe) where
  abbrev Fine : Trace → Type 0
  Fine trace = IsSession flags.dry_run trace

  -- What may come behind a `Run`.
  abbrev Closes : Trace → Type 0
  Closes trace = EndsAs trace.1 (ran ∷ trace.0)

  stopping-Closes :
      (d : LocalRunner) (exit : Option String → Exit)
      → ((e : Option String) → EndsAs (exit e) (ran ∷ (stopped ∷ [])))
      → Closes (stopping world flags d exit)
  stopping-Closes d exit h = ended (world.stop d)
    where
      ended :
          (r : Result Panic (Option String))
          → EndsAs (stop_exit world flags exit r) (ran ∷ (stopped ∷ []))
      ended (err p) = tt
      ended (ok e) = h e

  abandoned-Closes : (d : LocalRunner) (message : String) → Closes (abandoned world flags d message)
  abandoned-Closes d message = stopping-Closes d (λ _. returned (some message)) (λ _. tt)

  finished-EndsAs : (e : Option String) → EndsAs (finished world flags e) (ran ∷ (stopped ∷ []))
  finished-EndsAs none = tt
  finished-EndsAs (some e) = tt

  shown-Closes :
      (d : LocalRunner) (r : Result Panic (GoMap String)) → Closes (shown world flags recipe d r)
  unfolding shown
  shown-Closes d (err p) = tt
  shown-Closes d (ok _) = stopping-Closes d (finished world flags) finished-EndsAs

  completed-Closes :
      (m : Manifest) (d : LocalRunner) (r : Result Panic (Option String))
      → Closes (completed world flags recipe m d r)
  unfolding completed
  completed-Closes m d (err p) = tt
  completed-Closes m d (ok (some e)) = abandoned-Closes d _
  completed-Closes m d (ok none) =
      shown-Closes d (recipe.output (record m { services = d.services }))

  waited-Closes :
      (m : Manifest) (d : LocalRunner) (r : Result Panic (Option String))
      → Closes (waited world flags recipe m d r)
  unfolding waited
  waited-Closes m d (err p) = tt
  waited-Closes m d (ok (some e)) = abandoned-Closes d _
  waited-Closes m d (ok none) = completed-Closes m d (world.complete_ready d)

  running-Closes :
      (m : Manifest) (r : Result Panic (LocalRunner × Option String))
      → Closes (running world flags recipe m r)
  unfolding running
  running-Closes m (err p) = tt
  running-Closes m (ok (d, some e)) = abandoned-Closes d _
  running-Closes m (ok (d, none)) = waited-Closes m d (world.wait_for_ready d)

  created-EndsAs :
      (m : Manifest) (r : Result Stop LocalRunner)
      → EndsAs (created world flags recipe m r).1 (created world flags recipe m r).0
  unfolding created
  created-EndsAs m (err (fails e)) = tt
  created-EndsAs m (err (panics e)) = tt
  created-EndsAs m (ok d) = running-Closes m (world.run d)

  checked-EndsAs :
      (overrides : GoMap String) (m : Manifest) (r : Result String (Unit {0}))
      → EndsAs
          (checked world flags recipe overrides m r).1
          (checked world flags recipe overrides m r).0
  unfolding checked
  checked-EndsAs overrides m (err e) = tt
  checked-EndsAs overrides m (ok _) =
      created-EndsAs m (new_local_runner world.system (runner_config world flags overrides m))

  launched-Fine :
      (overrides : GoMap String) (m : Manifest) → Fine (launched world flags recipe overrides m)
  unfolding launched
  launched-Fine overrides m =
      if_cases (λ (t : Trace). Fine t) flags.dry_run (λ e. (tt, λ _. tt))
        (λ e. (
          checked-EndsAs overrides m (check_overrides overrides m.services),
          impossible flags.dry_run e,
        ))

  with_service-Fine :
      (overrides : GoMap String) (m : Manifest) (r : Result Panic Service)
      → Fine (with_service world flags recipe overrides m r)
  unfolding with_service
  with_service-Fine overrides m (err p) = (tt, λ _. tt)
  with_service-Fine overrides m (ok s) =
      launched-Fine overrides (record m { services = m.services ++ s ∷ [] })

  scraped-Fine :
      (overrides : GoMap String) (m : Manifest) (r : Result String Output)
      → Fine (scraped world flags recipe overrides m r)
  unfolding scraped
  scraped-Fine overrides m (err e) = (tt, λ _. tt)
  scraped-Fine overrides m (ok out) =
      IsSession-wrote flags.dry_run "prometheus.yaml"
        (with_service world flags recipe overrides m prometheus)
        (with_service-Fine overrides m prometheus)

  saved-Fine :
      (overrides : GoMap String) (m : Manifest) (r : Result String Output)
      → Fine (saved world flags recipe overrides m r)
  unfolding saved
  saved-Fine overrides m (err e) = (tt, λ _. tt)
  saved-Fine overrides m (ok out) =
      if_cases (λ (t : Trace). Fine (emit (wrote "manifest.json") t)) flags.with_prometheus
        (λ _.
          IsSession-wrote flags.dry_run "manifest.json"
            (scraped world flags recipe overrides m (write_file "prometheus.yaml" out))
            (scraped-Fine overrides m (write_file "prometheus.yaml" out)))
        (λ _.
          IsSession-wrote flags.dry_run "manifest.json" (launched world flags recipe overrides m)
            (launched-Fine overrides m))

  graphed-Fine :
      (overrides : GoMap String) (m : Manifest) (r : Result String Output)
      → Fine (graphed world flags recipe overrides m r)
  unfolding graphed
  graphed-Fine overrides m (err e) = (tt, λ _. tt)
  graphed-Fine overrides m (ok out) =
      IsSession-wrote flags.dry_run "graph.dot"
        (saved world flags recipe overrides m (write_file "manifest.json" out))
        (saved-Fine overrides m (write_file "manifest.json" out))

  validated-Fine :
      (overrides : GoMap String) (m : Manifest) (r : Result Error (Unit {0}))
      → Fine (validated world flags recipe overrides m r)
  unfolding validated
  validated-Fine overrides m (err e) = (tt, λ _. tt)
  validated-Fine overrides m (ok _) = graphed-Fine overrides m (write_file "graph.dot" m.ctx.output)

  applied-Fine :
      (overrides : GoMap String) (r : Result Panic Manifest)
      → Fine (applied world flags recipe overrides r)
  unfolding applied
  applied-Fine overrides (err p) = (tt, λ _. tt)
  applied-Fine overrides (ok m) = validated-Fine overrides m (validate m)

  built-Fine :
      (level : String) (overrides : GoMap String) (r : Result String Output)
      → Fine (built world flags recipe level overrides r)
  unfolding built
  built-Fine level overrides (err e) = (tt, λ _. tt)
  built-Fine level overrides (ok out) =
      applied-Fine overrides (recipe.apply (context world flags level out) out)

  parsed-Fine :
      (level : String) (r : Result String (GoMap String)) → Fine (parsed world flags recipe level r)
  unfolding parsed
  parsed-Fine level (err e) = (tt, λ _. tt)
  parsed-Fine level (ok overrides) = built-Fine level overrides (
      world.build (record recipe.artifacts {
        output_dir = flags.output;
        genesis_delay = flags.genesis_delay;
      }))

  leveled-Fine : (r : Result String String) → Fine (leveled world flags recipe r)
  unfolding leveled
  leveled-Fine (err e) = (tt, λ _. tt)
  leveled-Fine (ok level) = parsed-Fine level (parse_overrides flags.with_overrides [])

  -- Whatever the flags, the recipe and the answers of the system are: when `runIt` returns, it
  -- called `Run` at most once, and then `Stop` once, as the last thing, and no `Stop` without a
  -- `Run`; when it panics, the `Stop` may be missing, and if it is `NewLocalRunner` that panics
  -- there was no `Run`; and a dry run only writes files.
  pub run_it-IsSession : IsSession flags.dry_run (run_it world flags recipe)
  unfolding run_it
  run_it-IsSession = leveled-Fine (unmarshal_level flags.log_level)
