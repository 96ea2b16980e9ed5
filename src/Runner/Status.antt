-- ===== src/Runner/Status.antt =====
-- `AreReady` of playground/local_runner.go against its specification.
use builder_playground.Prelude.{
  ok_inj, Bool, true, false, Option, none, some, List, [], ◌∷◌, ◌≡◌, refl, sym, ap, ◌↔◌, All,
  if◌then◌else◌, Bool-cases, inl, inr, Result, ok, err, ◌>>=◌, ◌==◌, eq_iff,
}
use mathlib.Core.Path.{subst}
use builder_playground.Service.{Service, ReadyCheck}
use builder_playground.Service.FirstPass.{Panic}
use builder_playground.Manifest.{get_service}
use builder_playground.Runner.{
  Task, LocalRunner, is_host_service, ready_if, task_is_ready, tasks_ready, are_ready,
  task_status_started,
}

-- A task runs on the host, or it has started, and is ready if its service has a ready check.
abbrev pub TaskIsReady : LocalRunner → Task → Type 0
TaskIsReady d t =
    is_host_service d t.name ≡ false
    → (t.status ≡ task_status_started)
      × ((s : Service) × (get_service t.name d.services ≡ some s)
          × ((c : ReadyCheck) → s.ready_check ≡ some c → t.ready ≡ true))

some_inj : {A : Type 0} {a b : A} → some a ≡ some b → a ≡ b
some_inj e = cc

ready_if_iff :
    (o : Option ReadyCheck) (ready : Bool)
    → (ready_if o ready ≡ true) ↔ ((c : ReadyCheck) → o ≡ some c → ready ≡ true)
ready_if_iff none ready = (λ _ c e. cc, λ _. refl)
ready_if_iff (some c) ready = (λ h _ _. h, λ k. k c refl)

task_is_ready_iff :
    (t : Task) (o : Option Service)
    → (task_is_ready t o ≡ ok true) ↔ (
        (s : Service) × (o ≡ some s) × ((c : ReadyCheck) → s.ready_check ≡ some c → t.ready ≡ true))
task_is_ready_iff t none = (λ h. cc, λ (s, e, _). cc)
task_is_ready_iff t (some s) =
    let both = ready_if_iff s.ready_check t.ready in
    (
      λ h. (s, refl, both.0 (ok_inj h)),
      λ (s', e, k). ap ok (
          both.1 (
            subst (λ (x : Service). (c : ReadyCheck) → x.ready_check ≡ some c → t.ready ≡ true)
              (sym (some_inj e)) k)),
    )

-- The part of the loop behind the two early answers.
step_iff :
    (b : Result Panic Bool) (rest : Result Panic Bool)
    → ((b >>= λ x. if x then rest else ok false) ≡ ok true) ↔ ((b ≡ ok true) × (rest ≡ ok true))
step_iff (ok true) rest = (λ h. (refl, h), λ (_, h). h)
step_iff (ok false) rest = (λ h. cc, λ (h, _). cc)
step_iff (err e) rest = (λ h. cc, λ (h, _). cc)

tasks_ready_iff :
    (d : LocalRunner) (ts : List Task) → (tasks_ready d ts ≡ ok true) ↔ All (TaskIsReady d) ts
unfolding tasks_ready
tasks_ready_iff d [] = (λ _. tt, λ _. refl)
tasks_ready_iff d (t ∷ ts) =
    let both = tasks_ready_iff d ts in
    elim (Bool-cases (is_host_service d t.name)) [
      | inl e ↦ (λ h. (λ not_host. cc, both.0 (rw e at h)), λ (_, k). rw e (both.1 k))
      | inr e ↦ elim (Bool-cases (t.status == task_status_started)) [
        | inr f ↦ (
          λ h. (let bad = rw (e, f) at h in cc),
          λ (k, _). (let same = (eq_iff t.status task_status_started).1 (k e).0 in cc),
        )
        | inl f ↦
            let step =
              step_iff (task_is_ready t (get_service t.name d.services)) (tasks_ready d ts) in
            let one = task_is_ready_iff t (get_service t.name d.services) in
            (
              λ h.
                  let (a, b) = step.0 (rw (e, f) at h) in
                  (λ _. ((eq_iff t.status task_status_started).0 f, one.0 a), both.0 b),
              λ (k, ks). rw (e, f) (step.1 (one.1 (k e).1, both.1 ks)),
            )
      ]
    ]

-- `AreReady` answers yes exactly when every task is on the host, or has started and, if its service
-- has a ready check, is ready.
pub are_ready_iff : (d : LocalRunner) → (are_ready d ≡ ok true) ↔ All (TaskIsReady d) d.tasks
unfolding are_ready
are_ready_iff d = tasks_ready_iff d d.tasks
