-- ===== src/Runner/Session/Ends.antt =====
-- After `Run` of playground/local_runner.go, `Stop` kills what runs on the host.
use builder_playground.Prelude.{
  ℕ, String, Bool, true, Option, none, some, List, [], ◌∷◌, ◌++◌, ◌≡◌, refl, sym, ap, ◌∙◌, ◌↔◌,
  Result, ok, err, if◌then◌else◌, Bool-cases, inl, inr, All, any, not, ok_inj, GoMap,
}
use mathlib.Core.Path.{subst}
use builder_playground.Output.{Output, write_file}
use builder_playground.Service.{Service}
use builder_playground.Runner.{LocalRunner, is_host_service}
use builder_playground.Runner.Host.{run_on_host}
use builder_playground.Runner.Compose.{
  Docker, ComposeService, ComposeError, fails, panics, generate_docker_compose,
}
use builder_playground.Runner.Session.{
  Handle, Launcher, Launched, after_host, run_hosts, composed, wrote, generated, run, StopAct,
  killed, returned, nil_process, first_error, removals, kill_all, stop,
}

-- The services that run on the host, in the order of the manifest.
abbrev pub hosted : LocalRunner → List Service → List String
hosted d [] = []
hosted d (s ∷ ss) =
    let rest = hosted d ss in if is_host_service d s.name then s.name ∷ rest else rest

abbrev names : List Handle → List String
names [] = []
names (h ∷ hs) = h.service ∷ names hs

abbrev pub kills : List String → List StopAct
kills [] = []
kills (name ∷ rest) = killed name ∷ kills rest

module _ (docker : Docker) (launcher : Launcher) (out : Output) where
  -- An error that was sent stays.
  called-sent :
      (name e : String) (r : Result String (String × List String))
      (rest : Option String → List Handle × Option String)
      → (rest (some e)).1 ≡ some e
      → (after_host launcher name r (some e) rest).1 ≡ some e
  called-sent name e (ok command) rest h = h
  called-sent name e (err f) rest h = refl

  run_hosts-sent :
      (d : LocalRunner) (ss : List Service) (e : String)
      → (run_hosts docker launcher out d ss (some e)).1 ≡ some e
  unfolding run_hosts
  run_hosts-sent d [] e = refl
  run_hosts-sent d (s ∷ ss) e = elim (Bool-cases (is_host_service d s.name)) [
    | inl on ↦ rw on (
        called-sent s.name e (run_on_host docker.create_dir out.dst d s)
          (run_hosts docker launcher out d ss) (run_hosts-sent d ss e))
    | inr off ↦ rw off (run_hosts-sent d ss e)
  ]

  -- Without an error there is a handle for each service on the host.
  called-names :
      (name : String) (r : Result String (String × List String))
      (rest : Option String → List Handle × Option String) (expected : List String)
      → ((e : String) → (rest (some e)).1 ≡ some e)
      → ((rest none).1 ≡ none → names (rest none).0 ≡ expected)
      → (after_host launcher name r none rest).1 ≡ none
      → names (after_host launcher name r none rest).0 ≡ name ∷ expected
  called-names name (ok command) rest expected sent good h = ap (λ ns. name ∷ ns) (good h)
  called-names name (err e) rest expected sent good h = (let bad = sym (sent e) ∙ h in cc)

  run_hosts-names :
      (d : LocalRunner) (ss : List Service)
      → (run_hosts docker launcher out d ss none).1 ≡ none
      → names (run_hosts docker launcher out d ss none).0 ≡ hosted d ss
  unfolding run_hosts
  run_hosts-names d [] h = refl
  run_hosts-names d (s ∷ ss) h = elim (Bool-cases (is_host_service d s.name)) [
    | inl on ↦ rw on (
        called-names s.name (run_on_host docker.create_dir out.dst d s)
          (run_hosts docker launcher out d ss) (hosted d ss) (run_hosts-sent d ss)
          (run_hosts-names d ss) (rw on at h))
    | inr off ↦ rw off (run_hosts-names d ss (rw off at h))
  ]

  abbrev Held : Launched → Type 0
  Held l = l.error ≡ none → names l.handles ≡ hosted l.runner l.runner.services

  composed-Held :
      (d : LocalRunner) (e : Option (String × String)) → Held (composed docker launcher out d e)
  composed-Held d (some (e, text)) h = cc
  composed-Held d none h = run_hosts-names d d.services h

  wrote-Held : (d : LocalRunner) (r : Result String Output) → Held (wrote docker launcher out d r)
  wrote-Held d (err e) h = cc
  wrote-Held d (ok out') h = composed-Held d launcher.up_error h

  generated-Held :
      (d : LocalRunner) (r : Result ComposeError (LocalRunner × GoMap ComposeService))
      {l : Launched}
      → generated docker launcher out d r ≡ ok l
      → Held l
  generated-Held d (err (fails e)) h = subst Held (ok_inj h) (λ bad. cc)
  generated-Held d (err (panics p)) h = cc
  generated-Held d (ok (d1, services)) h =
      subst Held (ok_inj h) (wrote-Held d1 (write_file "docker-compose.yaml" out))

-- With processes that started, each is killed.
kill_all-kills :
    (handles : List Handle) (error : Option String)
    → All (λ (h : Handle). h.has_process ≡ true) handles
    → kill_all handles error ≡ (kills (names handles), returned error)
unfolding kill_all
kill_all-kills [] error h = refl
kill_all-kills (handle ∷ handles) error (p, h) = rw (p, kill_all-kills handles error h) refl

module _ (docker : Docker) (launcher : Launcher) (out : Output) where
  -- After a `Run` that returns no error, and if every process on the host has started, `Stop`
  -- removes every container that docker lists for the session and then kills the process of each
  -- service that runs on the host, in the order of the manifest, and returns the first error of the
  -- removals.
  pub stop-run :
      (listens : String → String → ℕ → Bool) (d : LocalRunner) (l : Launched)
      (results : List (String × Option String))
      → run docker launcher out listens d ≡ ok l
      → l.error ≡ none
      → All (λ (h : Handle). h.has_process ≡ true) l.handles
      → stop (ok results) l.handles ≡ (
        removals results ++ kills (hosted l.runner l.runner.services),
        returned (first_error results),
      )
  unfolding run stop
  stop-run listens d l results h e started =
      let held =
        generated-Held docker launcher out d (generate_docker_compose docker listens d) h e in
      rw (kill_all-kills l.handles (first_error results) started, held) refl

-- When docker lists the containers, `Stop` ends in a nil dereference exactly when some process on
-- the host has not started, or could not be.
pub stop-crashes_iff :
    (results : List (String × Option String)) (handles : List Handle)
    → ((stop (ok results) handles).1 ≡ nil_process)
      ↔ (any (λ (h : Handle). not h.has_process) handles ≡ true)
unfolding stop
stop-crashes_iff results handles = crash handles
  where
    crash :
        (handles : List Handle)
        → ((kill_all handles (first_error results)).1 ≡ nil_process)
          ↔ (any (λ (h : Handle). not h.has_process) handles ≡ true)
    crash [] = (λ h. cc, λ h. cc)
    crash (handle ∷ handles) = elim (Bool-cases handle.has_process) [
      | inl e ↦ rw e (crash handles)
      | inr e ↦ rw e (λ _. refl, λ _. refl)
    ]
