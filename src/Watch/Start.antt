-- ===== src/Watch/Start.antt =====
-- When `waitForChainAlive` of playground/watchers.go ends.
use builder_playground.Prelude.{
  ℕ, true, false, Option, none, some, List, [], ◌∷◌, ◌≡◌, ◌≢◌, ◌≤◌, ◌∙◌, arith, ◌↔◌, ◌⊎◌, refl, sym,
  inl, inr, Bool-cases,
}
use builder_playground.Watch.{
  Wait, alive, waiting, Choice, timed_out, cancelled, slept, Round, is_ready, after_choice,
  wait_rounds, wait_for_chain_alive,
}

-- The poll finds a head slot, from 1 on.
abbrev pub HasHead : Option ℕ → Type 0
HasHead none = ⊥
HasHead (some head_slot) = 1 ≤ head_slot

is_ready_iff : (o : Option ℕ) → (is_ready o ≡ true) ↔ HasHead o
is_ready_iff none = (λ h. (let bad = h in cc), λ h. absurd h)
is_ready_iff (some head_slot) = ground arith

not_ready : (o : Option ℕ) → ¬ HasHead o → is_ready o ≡ false
not_ready o n = elim (Bool-cases (is_ready o)) [
  | inl e ↦ absurd (n ((is_ready_iff o).0 e))
  | inr e ↦ e
]

no_head : (o : Option ℕ) → is_ready o ≡ false → ¬ HasHead o
no_head o e h = (let bad = sym e ∙ (is_ready_iff o).1 h in cc)

-- Polls that find no head, each followed by a sleep, and then one that finds a head.
pub data Starts : List Round → Type 0 where
  now : (r : Round) (rs : List Round) → HasHead r.head_slot → Starts (r ∷ rs)
  later :
      (r : Round) {rs : List Round}
      → ¬ HasHead r.head_slot
      → r.choice ≡ slept
      → Starts rs
      → Starts (r ∷ rs)

slept_of : (c : Choice) (w : Wait) → after_choice c w ≡ alive → (c ≡ slept) × (w ≡ alive)
slept_of timed_out w h = cc
slept_of cancelled w h = cc
slept_of slept w h = (refl, h)

rounds-Starts : (rs : List Round) → wait_rounds rs ≡ alive → Starts rs
unfolding wait_rounds
rounds-Starts [] h = cc
rounds-Starts (r ∷ rs) h = elim (Bool-cases (is_ready r.head_slot)) [
  | inl e ↦ now r rs ((is_ready_iff r.head_slot).0 e)
  | inr e ↦
      let (c, w) = slept_of r.choice (wait_rounds rs) (rw e at h) in
      later r (no_head r.head_slot e) c (rounds-Starts rs w)
]

Starts-rounds : {rs : List Round} → Starts rs → wait_rounds rs ≡ alive
unfolding wait_rounds
Starts-rounds (now r rs h) = rw ((is_ready_iff r.head_slot).1 h) refl
Starts-rounds (later r n c s) = rw (not_ready r.head_slot n, c) (Starts-rounds s)

-- `waitForChainAlive` returns without an error exactly when the first poll finds a head, or a later
-- one does and each round before it found none and then slept.
pub wait_for_chain_alive_iff :
    (first : Option ℕ) (rounds : List Round)
    → (wait_for_chain_alive first rounds ≡ alive) ↔ (HasHead first ⊎ Starts rounds)
unfolding wait_for_chain_alive
wait_for_chain_alive_iff first rounds = elim (Bool-cases (is_ready first)) [
  | inl e ↦ rw e (λ h. inl ((is_ready_iff first).0 e), λ h. refl)
  | inr e ↦ rw e (
    λ h. inr (rounds-Starts rounds h),
    λ h. elim h [ inl x ↦ absurd (no_head first e x) | inr s ↦ Starts-rounds s ],
  )
]

-- Some round of the list does not sleep.
abbrev pub Stops : List Round → Type 0
Stops [] = ⊥
Stops (r ∷ rs) = (r.choice ≢ slept) ⊎ Stops rs

waiting_of : (c : Choice) (w : Wait) → after_choice c w ≡ waiting → (c ≡ slept) × (w ≡ waiting)
waiting_of timed_out w h = cc
waiting_of cancelled w h = cc
waiting_of slept w h = (refl, h)

rounds-ends : (rs : List Round) → Stops rs → wait_rounds rs ≢ waiting
unfolding wait_rounds
rounds-ends [] s h = s
rounds-ends (r ∷ rs) s h = elim (Bool-cases (is_ready r.head_slot)) [
  | inl e ↦ (let bad = rw e at h in cc)
  | inr e ↦
      let (c, w) = waiting_of r.choice (wait_rounds rs) (rw e at h) in
      elim s [ inl n ↦ n c | inr s ↦ rounds-ends rs s w ]
]

-- `waitForChainAlive` ends if in some round its timeout or the end of its context comes.
pub wait_for_chain_alive-ends :
    (first : Option ℕ) (rounds : List Round)
    → Stops rounds
    → wait_for_chain_alive first rounds ≢ waiting
unfolding wait_for_chain_alive
wait_for_chain_alive-ends first rounds s h = elim (Bool-cases (is_ready first)) [
  | inl e ↦ (let bad = rw e at h in cc)
  | inr e ↦ rounds-ends rounds s (rw e at h)
]
