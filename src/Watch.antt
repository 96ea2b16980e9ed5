-- ===== src/Watch.antt =====
-- playground/watchers.go and playground/watchdog.go: the loops that watch a chain, on the events that
-- they see. A `select` that may take several branches takes the one that its event names.
pub mod Start
pub mod Slots
pub mod Heads
use builder_playground.Prelude.{
  ℕ, String, Bool, true, false, not, Option, none, some, List, [], ◌∷◌, ◌++◌, ◌+◌, ◌-◌, ◌%◌, ◌^◌,
  ◌⊕◌, ◌&&◌, if◌then◌else◌, eqb, leb, ltb, decimal, Result, ok, err, ◌>>=◌,
}

-- What became of a wait: over, failed, or not ended by the events so far.
pub data Wait : Type 0 where
  alive : Wait
  failed : String → Wait
  waiting : Wait

-- The branch that `select` takes after a poll.
pub data Choice : Type 0 where
  timed_out cancelled slept : Choice

-- One round of `waitForChainAlive`: the head slot of `BestSyncStatus`, or none for an error.
pub record Round : Type 0 where
  pub head_slot : Option ℕ
  pub choice : Choice

abbrev pub is_ready : Option ℕ → Bool
is_ready none = false
is_ready (some head_slot) = leb 1 head_slot

-- What a branch of the `select` does; `later` is what the next rounds come to.
abbrev pub after_choice : Choice → Wait → Wait
after_choice timed_out later = failed "beacon client failed to start"
after_choice cancelled later = failed "timeout waiting for chain to start"
after_choice slept later = later

unfoldable pub wait_rounds : List Round → Wait
wait_rounds [] = waiting
wait_rounds (r ∷ rs) =
    let later = wait_rounds rs in
    if is_ready r.head_slot then alive else after_choice r.choice later

-- `waitForChainAlive`: the first poll, then the rounds.
unfoldable pub wait_for_chain_alive : Option ℕ → List Round → Wait
unfolding wait_rounds
wait_for_chain_alive first rounds = if is_ready first then alive else wait_rounds rounds

-- What `validateProposerPayloads` sees: an event, or twenty seconds without one.
pub data Seen : Type 0 where
  payload : ℕ → ℕ → Seen
  silence : Seen

abbrev pub word : ℕ
word = 2 ^ 64

-- Addition and subtraction of uint64.
abbrev pub next_slot : ℕ → ℕ
next_slot slot = (slot + 1) % word

abbrev pub slots_after : ℕ → ℕ → ℕ
slots_after slot parent = (slot + word - parent) % word

-- One event: the slot that is the last one from then on, or the error.
unfoldable pub check_payload : ℕ → ℕ → ℕ → Result String ℕ
check_payload last_slot slot parent =
    if not (eqb last_slot 0) && not (eqb last_slot slot) && not (eqb (next_slot last_slot) slot)
    then err ("slot mismatch, expected " ⊕ decimal (next_slot last_slot) ⊕ ", got " ⊕ decimal slot)
    else if ltb 2 (slots_after slot parent)
    then err ("parent block too big " ⊕ decimal parent)
    else ok slot

-- `validateProposerPayloads`, from a last slot: the last slot while it watches, or its error.
unfoldable pub validate_proposer_payloads : List Seen → ℕ → Result String ℕ
unfolding check_payload
validate_proposer_payloads [] last_slot = ok last_slot
validate_proposer_payloads (silence ∷ seen) last_slot = err "timeout waiting for block"
validate_proposer_payloads (payload slot parent ∷ seen) last_slot =
    check_payload last_slot slot parent >>= validate_proposer_payloads seen

-- The fields of `BidTraceV2JSON` that are printed.
pub record BidTraceJson : Type 0 where
  pub slot : ℕ
  pub builder_pubkey : String
  pub block_number : ℕ

-- What the first loop of `watchProposerPayloads` sees: its timer, or a poll with or without an error.
pub data Startup : Type 0 where
  timer : Startup
  polled : Bool → Startup

-- Whether that loop is left: the `break` of the timer's branch leaves the `select` only.
unfoldable pub started_up : List Startup → Bool
started_up [] = false
started_up (timer ∷ events) = started_up events
started_up (polled answered ∷ events) =
    let later = started_up events in if answered then true else later

-- The bids that one poll prints, and the last slot after it.
unfoldable pub print_bids : List BidTraceJson → ℕ → List BidTraceJson × ℕ
print_bids [] last_slot = ([], last_slot)
print_bids (val ∷ vals) last_slot =
    let skipped = print_bids vals last_slot in
    let printed = print_bids vals val.slot in
    if leb val.slot last_slot then skipped else (val ∷ printed.0, printed.1)

-- `watchProposerPayloads` after its start: a poll that fails is skipped.
unfoldable pub watch_proposer_payloads :
    List (Option (List BidTraceJson)) → ℕ → List BidTraceJson × ℕ
unfolding print_bids
watch_proposer_payloads [] last_slot = ([], last_slot)
watch_proposer_payloads (none ∷ polls) last_slot = watch_proposer_payloads polls last_slot
watch_proposer_payloads (some vals ∷ polls) last_slot =
    let printed = print_bids vals last_slot in
    let later = watch_proposer_payloads polls printed.1 in (printed.0 ++ later.0, later.1)

-- What `watchChainHead` sees: the number of the head, an error of the call, or its timeout.
pub data HeadEvent : Type 0 where
  head : ℕ → HeadEvent
  call_failed : String → HeadEvent
  expired : HeadEvent

-- `num <= *latestBlock`
abbrev pub is_old : Option ℕ → ℕ → Bool
is_old none num = false
is_old (some latest_block) num = leb num latest_block

-- The loop of `watchChainHead`: the heads that it logs, and the error that ends it.
unfoldable pub watch_chain_head : String → List HeadEvent → Option ℕ → List ℕ × Option String
watch_chain_head url [] latest_block = ([], none)
watch_chain_head url (call_failed e ∷ events) latest_block = ([], some e)
watch_chain_head url (expired ∷ events) latest_block =
    ([], some ("chain head for " ⊕ url ⊕ " not advancing"))
watch_chain_head url (head num ∷ events) latest_block =
    let same = watch_chain_head url events latest_block in
    let later = watch_chain_head url events (some num) in
    if is_old latest_block num then same else (num ∷ later.0, later.1)

-- `RunWatchdog`, on the watchdogs in the order in which they end: one that ends without an error
-- sends nothing, and without any error the call waits.
unfoldable pub run_watchdog : List (String × Option String) → Option String
run_watchdog [] = none
run_watchdog ((name, none) ∷ ends) = run_watchdog ends
run_watchdog ((name, some e) ∷ ends) =
    some ("failed to run watchdog: " ⊕ "service " ⊕ name ⊕ " watchdog failed: " ⊕ e)

-- `CompleteReady`: `none` is a component without `Ready`.
unfoldable pub complete_ready : List (Option (Option String)) → Option String
complete_ready [] = none
complete_ready (none ∷ instances) = complete_ready instances
complete_ready (some none ∷ instances) = complete_ready instances
complete_ready (some (some e) ∷ instances) = some e

-- The result that `watchGroup.wait` takes from the channel, whatever it is: the first that comes.
unfoldable pub wait_group : List (Option String) → Option (Option String)
wait_group [] = none
wait_group (first ∷ results) = some first
