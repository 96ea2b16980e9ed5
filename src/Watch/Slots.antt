-- ===== src/Watch/Slots.antt =====
-- The order of the slots that `validateProposerPayloads` of playground/watchers.go accepts.
use builder_playground.Prelude.{
  ok_inj, ℕ, Bool, true, false, not, ◌&&◌, List, [], ◌∷◌, ◌+◌, ◌%◌, ◌<◌, ◌≤◌, ◌≡◌, ◌↔◌, ◌⊎◌, refl,
  ap, ◌∙◌, ◌>>=◌, String, if◌then◌else◌, All, arith, eqb, ltb, ok, err, >>=-eq-ok,
}
use mathlib.Core.Path.{subst}
use builder_playground.Watch.{
  Seen, payload, silence, word, next_slot, slots_after, check_payload, validate_proposer_payloads,
}

-- The slot of an event against the last one, if there was one: the same or the next.
abbrev pub Follows : ℕ → ℕ → Type 0
Follows last_slot slot = (last_slot ≡ 0) ⊎ (last_slot ≡ slot) ⊎ (slot ≡ (last_slot + 1) % word)

-- The slot is at most two after the number of the parent block.
abbrev pub Near : ℕ → ℕ → Type 0
Near slot parent = (k : ℕ) × (k ≤ 2) × (slot ≡ (parent + k) % word)

pub data Orderly : ℕ → List Seen → ℕ → Type 0 where
  done : (last_slot : ℕ) → Orderly last_slot [] last_slot
  more :
      {last_slot slot parent end : ℕ} {seen : List Seen}
      → Follows last_slot slot
      → Near slot parent
      → Orderly slot seen end
      → Orderly last_slot (payload slot parent ∷ seen) end

-- The numbers of an event are of type uint64.
abbrev pub IsUint64 : Seen → Type 0
IsUint64 (payload slot parent) = (slot < word) × (parent < word)
IsUint64 silence = Unit

slots_after_iff :
    (slot parent : ℕ)
    → slot < word
    → parent < word
    → (ltb 2 (slots_after slot parent) ≡ false) ↔ Near slot parent
slots_after_iff slot parent s p = (
  λ h. (slots_after slot parent, ground arith, omega (arith, s, p)),
  λ (k, l, e). ground (arith, e, l),
)

same_or_next_iff :
    (last_slot slot : ℕ)
    → ((not (eqb last_slot 0) && not (eqb last_slot slot) && not (eqb (next_slot last_slot) slot))
        ≡ false)
      ↔ Follows last_slot slot
same_or_next_iff last_slot slot = ground arith

both_ok :
    (a b : Bool) (e f : String) (slot end : ℕ)
    → ((if a then err e else if b then err f else ok slot) ≡ ok end)
      ↔ ((a ≡ false) × (b ≡ false) × (slot ≡ end))
both_ok true b e f slot end = (λ h. cc, λ (x, _, _). cc)
both_ok false true e f slot end = (λ h. cc, λ (_, x, _). cc)
both_ok false false e f slot end = (λ h. (refl, refl, cc), λ (_, _, x). ap ok x)

check_payload_iff :
    (last_slot slot parent end : ℕ)
    → slot < word
    → parent < word
    → (check_payload last_slot slot parent ≡ ok end)
      ↔ (Follows last_slot slot × Near slot parent × (slot ≡ end))
unfolding check_payload
check_payload_iff last_slot slot parent end s p =
    let f = same_or_next_iff last_slot slot in
    let n = slots_after_iff slot parent s p in
    let both =
      both_ok
        (not (eqb last_slot 0) && not (eqb last_slot slot) && not (eqb (next_slot last_slot) slot))
        (ltb 2 (slots_after slot parent)) _ _ slot end in
    (λ h. (let (a, b, e) = both.0 h in (f.0 a, n.0 b, e)), λ (a, b, e). both.1 (f.1 a, n.1 b, e))

accepted-Orderly :
    (seen : List Seen) (last_slot end : ℕ)
    → All IsUint64 seen
    → validate_proposer_payloads seen last_slot ≡ ok end
    → Orderly last_slot seen end
unfolding validate_proposer_payloads
accepted-Orderly [] last_slot end w h = subst (Orderly last_slot []) (ok_inj h) (done last_slot)
accepted-Orderly (silence ∷ seen) last_slot end w h = cc
accepted-Orderly (payload slot parent ∷ seen) last_slot end ((s, p), w) h =
    let (next, e, rest) =
      >>=-eq-ok (check_payload last_slot slot parent) (validate_proposer_payloads seen) h in
    let (f, n, same) = (check_payload_iff last_slot slot parent next s p).0 e in
    more f n (accepted-Orderly seen slot end w (ap (validate_proposer_payloads seen) same ∙ rest))

Orderly-accepted :
    {seen : List Seen} {last_slot end : ℕ}
    → Orderly last_slot seen end
    → All IsUint64 seen
    → validate_proposer_payloads seen last_slot ≡ ok end
unfolding validate_proposer_payloads
Orderly-accepted (done last_slot) w = refl
Orderly-accepted (more {last_slot} {slot} {parent} {end} {seen} f n o) ((s, p), w) =
    ap (λ r. r >>= validate_proposer_payloads seen)
      ((check_payload_iff last_slot slot parent slot s p).1 (f, n, refl))
    ∙ Orderly-accepted o w

-- `validateProposerPayloads`, on events whose numbers fit in 64 bits, still watches after them,
-- with a certain last slot, exactly when there was no silence, each slot is the last one or its
-- successor, unless the last one is 0, each slot is at most two after the number of its parent
-- block, and the last slot is that of the last event.
pub validate_proposer_payloads_iff :
    (seen : List Seen) (end : ℕ)
    → All IsUint64 seen
    → (validate_proposer_payloads seen 0 ≡ ok end) ↔ Orderly 0 seen end
validate_proposer_payloads_iff seen end w =
    (accepted-Orderly seen 0 end w, λ o. Orderly-accepted o w)
