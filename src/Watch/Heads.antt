-- ===== src/Watch/Heads.antt =====
-- The slots that `watchProposerPayloads` prints and the heads that `watchChainHead` logs, both of
-- playground/watchers.go.
use builder_playground.Prelude.{
  ℕ, String, true, false, Option, none, some, List, [], ◌∷◌, ◌++◌, ◌<◌, ◌≤◌, ◌≡◌, refl, sym, inl,
  inr, Bool-cases, if_cases, All, arith, leb,
}
use mathlib.Core.Path.{subst}
use builder_playground.Watch.{
  BidTraceJson, print_bids, watch_proposer_payloads, HeadEvent, head, call_failed, expired,
  watch_chain_head, Startup, timer, polled, started_up,
}

-- Each number is above the one before it; the first is above `from`, and the last is `to`.
abbrev pub Ascends {ℓ} : {A : Type ℓ} → (A → ℕ) → ℕ → List A → ℕ → Type 0
Ascends key from [] to = from ≡ to
Ascends key from (x ∷ xs) to = (from < key x) × Ascends key (key x) xs to

Ascends-append {ℓ} :
    {A : Type ℓ} (key : A → ℕ) (xs ys : List A) (from mid to : ℕ)
    → Ascends key from xs mid
    → Ascends key mid ys to
    → Ascends key from (xs ++ ys) to
Ascends-append key [] ys from mid to e k = subst (λ m. Ascends key m ys to) (sym e) k
Ascends-append key (x ∷ xs) ys from mid to (p, h) k =
    (p, Ascends-append key xs ys (key x) mid to h k)

Ascends-le {ℓ} :
    {A : Type ℓ} (key : A → ℕ) (xs : List A) (from to : ℕ) → Ascends key from xs to → from ≤ to
Ascends-le key [] from to e = omega (arith, e)
Ascends-le key (x ∷ xs) from to (p, h) = omega (arith, p, Ascends-le key xs (key x) to h)

abbrev pub slot_of : BidTraceJson → ℕ
slot_of bid = bid.slot

abbrev pub UpTo : ℕ → List BidTraceJson → Type 0
UpTo to vals = All (λ val. val.slot ≤ to) vals

abbrev pub AllUpTo : ℕ → List (Option (List BidTraceJson)) → Type 0
AllUpTo to [] = Unit
AllUpTo to (none ∷ polls) = AllUpTo to polls
AllUpTo to (some vals ∷ polls) = UpTo to vals × AllUpTo to polls

UpTo-mono : (vals : List BidTraceJson) {a b : ℕ} → a ≤ b → UpTo a vals → UpTo b vals
UpTo-mono [] l h = tt
UpTo-mono (val ∷ vals) l (p, h) = (omega (arith, l, p), UpTo-mono vals l h)

print_bids-Ascends :
    (vals : List BidTraceJson) (last_slot : ℕ)
    → let printed = print_bids vals last_slot in
      Ascends slot_of last_slot printed.0 printed.1 × UpTo printed.1 vals
unfolding print_bids
print_bids-Ascends [] last_slot = (refl, tt)
print_bids-Ascends (val ∷ vals) last_slot =
    let skipped = print_bids vals last_slot in
    let printed = print_bids vals val.slot in
    let (a, u) = print_bids-Ascends vals last_slot in
    let (b, v) = print_bids-Ascends vals val.slot in
    let above = Ascends-le slot_of skipped.0 last_slot skipped.1 a in
    let over = Ascends-le slot_of printed.0 val.slot printed.1 b in
    if_cases
      (λ (r : List BidTraceJson × ℕ). Ascends slot_of last_slot r.0 r.1 × UpTo r.1 (val ∷ vals))
      (leb val.slot last_slot) (λ e. (a, (ground (arith, above, e), u)))
      (λ e. ((ground (arith, e), b), (over, v)))

-- Over all polls, the slots that `watchProposerPayloads` prints ascend from the slot at the start,
-- and none that was polled is above the last one.
pub watch_proposer_payloads-Ascends :
    (polls : List (Option (List BidTraceJson))) (last_slot : ℕ)
    → let printed = watch_proposer_payloads polls last_slot in
      Ascends slot_of last_slot printed.0 printed.1 × AllUpTo printed.1 polls
unfolding watch_proposer_payloads
watch_proposer_payloads-Ascends [] last_slot = (refl, tt)
watch_proposer_payloads-Ascends (none ∷ polls) last_slot =
    watch_proposer_payloads-Ascends polls last_slot
watch_proposer_payloads-Ascends (some vals ∷ polls) last_slot =
    let now = print_bids vals last_slot in
    let (a, u) = print_bids-Ascends vals last_slot in
    let (b, v) = watch_proposer_payloads-Ascends polls now.1 in
    let later = watch_proposer_payloads polls now.1 in
    (
      Ascends-append slot_of now.0 later.0 last_slot now.1 later.1 a b,
      (UpTo-mono vals (Ascends-le slot_of later.0 now.1 later.1 b) u, v),
    )

-- Each logged head is above the latest one before it, if there was one.
abbrev pub Climbs : Option ℕ → List ℕ → Type 0
Climbs latest [] = Unit
Climbs none (num ∷ nums) = Climbs (some num) nums
Climbs (some latest) (num ∷ nums) = (latest < num) × Climbs (some num) nums

-- Each head that `watchChainHead` logs is above the one before.
watch_chain_head-Climbs :
    (url : String) (events : List HeadEvent) (latest_block : Option ℕ)
    → Climbs latest_block (watch_chain_head url events latest_block).0
unfolding watch_chain_head
watch_chain_head-Climbs url [] latest_block = tt
watch_chain_head-Climbs url (call_failed e ∷ events) latest_block = tt
watch_chain_head-Climbs url (expired ∷ events) latest_block = tt
watch_chain_head-Climbs url (head num ∷ events) none = watch_chain_head-Climbs url events (some num)
watch_chain_head-Climbs url (head num ∷ events) (some latest) = elim (Bool-cases (leb num latest)) [
  | inl e ↦ rw e (watch_chain_head-Climbs url events (some latest))
  | inr e ↦ rw e (ground (arith, e), watch_chain_head-Climbs url events (some num))
]

-- The events of the start without those of its timer.
abbrev pub without_timer : List Startup → List Startup
without_timer [] = []
without_timer (timer ∷ events) = without_timer events
without_timer (polled answered ∷ events) = polled answered ∷ without_timer events

-- The timer at the start of `watchProposerPayloads` never ends its first loop: whether the loop is
-- left is the same without the timer's events.
started_up-without_timer :
    (events : List Startup) → started_up events ≡ started_up (without_timer events)
unfolding started_up
started_up-without_timer [] = refl
started_up-without_timer (timer ∷ events) = started_up-without_timer events
started_up-without_timer (polled true ∷ events) = refl
started_up-without_timer (polled false ∷ events) = started_up-without_timer events
