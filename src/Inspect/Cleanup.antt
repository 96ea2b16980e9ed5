-- ===== src/Inspect/Cleanup.antt =====
-- The containers that `runTcpFlow` of playground/inspect.go leaves behind.
use builder_playground.Prelude.{
  String, Bool, true, false, Option, none, some, List, [], ◌∷◌, ◌++◌, ◌≡◌, ◌↔◌, ◌⊎◌, inl, inr, refl,
  sym, ap, ◌⊕◌, Result, ok, err, ok_inj,
}
use builder_playground.Inspect.{
  Client, Act, created, started, followed, stopped, removed, Flow, streamed, running, made,
  tcpflow_cmd, run_tcp_flow, stopping, removing,
}
use mathlib.Core.Path.{subst}

-- The container is removed among the acts.
abbrev pub is_removed : List Act → Bool
is_removed [] = false
is_removed (removed id ∷ acts) = true
is_removed (created id ∷ acts) = is_removed acts
is_removed (started id ∷ acts) = is_removed acts
is_removed (followed id ∷ acts) = is_removed acts
is_removed (stopped id ∷ acts) = is_removed acts

-- A container is made, and not removed.
abbrev pub Leaks : Flow → Type 0
Leaks flow =
    (id : String) × (acts : List Act) × (flow.0 ≡ created id ∷ acts) × (is_removed acts ≡ false)

-- The call ends in an error.
abbrev pub Fails : Flow → Type 0
Fails flow = (e : String) × (flow.1 ≡ some e)

-- What `runTcpFlow` leaves behind: a container that was made, when the call fails, or when docker
-- refuses to remove it.
abbrev Spared : Option String → Flow → Type 0
Spared removal flow = Fails flow ⊎ ((e : String) × (removal ≡ some e))

module _ (client : Client) where
  cleaned_iff :
      (id : String) (stop remove : Option String)
      → let acts =
          created id ∷ (started id ∷ (followed id ∷ (stopping id stop ++ removing id remove))) in
        Leaks (acts, none) ↔ Spared remove (acts, none)
  cleaned_iff id none none = (
    λ (_, acts, e, kept). (let bad = ap (λ x. is_removed x) e in cc),
    λ h. elim h [ inl (_, f) ↦ cc | inr (_, f) ↦ cc ],
  )
  cleaned_iff id (some e) none = (
    λ (_, acts, e, kept). (let bad = ap (λ x. is_removed x) e in cc),
    λ h. elim h [ inl (_, f) ↦ cc | inr (_, f) ↦ cc ],
  )
  cleaned_iff id none (some e) = (λ _. inr (e, refl), λ _. (id, _, refl, refl))
  cleaned_iff id (some f) (some e) = (λ _. inr (e, refl), λ _. (id, _, refl, refl))

  streamed_iff :
      (id : String) (logs : Option String)
      → Leaks (streamed client id logs) ↔ Spared (client.remove_error id) (streamed client id logs)
  streamed_iff id (some e) = (λ _. inl (_, refl), λ _. (id, _, refl, refl))
  streamed_iff id none = cleaned_iff id (client.stop_error id) (client.remove_error id)

  running_iff :
      (id : String) (start : Option String)
      → Leaks (running client id start) ↔ Spared (client.remove_error id) (running client id start)
  running_iff id (some e) = (λ _. inl (_, refl), λ _. (id, _, refl, refl))
  running_iff id none = streamed_iff id (client.logs_error id)

  -- `runTcpFlow` leaves a container that it made behind exactly when it made one, and returns an
  -- error or is refused the removal of it.
  pub run_tcp_flow-Leaks :
      (container_id port_name : String)
      → Leaks (run_tcp_flow client container_id port_name) ↔ (
          (id : String) × (client.container_create
              (tcpflow_cmd client port_name)
              ("container:" ⊕ container_id)
            ≡ ok id)
          × (Fails (run_tcp_flow client container_id port_name)
              ⊎ ((e : String) × (client.remove_error id ≡ some e))))
  unfolding run_tcp_flow
  run_tcp_flow-Leaks container_id port_name =
      made_iff
        (client.container_create (tcpflow_cmd client port_name) ("container:" ⊕ container_id))
    where
      made_iff :
          (r : Result String String)
          → Leaks (made client r)
            ↔ ((id : String) × (r ≡ ok id) × Spared (client.remove_error id) (made client r))
      made_iff (err e) = (λ (_, _, h, _). cc, λ (_, h, _). cc)
      made_iff (ok id) =
          let both = running_iff id (client.start_error id) in
          (
            λ h. (id, refl, both.0 h),
            λ (other, e, h). both.1 (
                subst
                  (λ x. Spared (client.remove_error x) (running client id (client.start_error id)))
                  (sym (ok_inj e)) h),
          )
