-- ===== src/Relay/Payloads.antt =====
-- The delivered payloads in the database of mev-boost-relay/mev-boost-relay.go.
use builder_playground.Prelude.{
  Bool, true, false, not, List, [], ◌∷◌, ◌≡◌, ◌≢◌, ◌↔◌, refl, sym, ◌∙◌, if◌then◌else◌, ◌==◌, ◌&&◌,
  eqb, eqb_iff, eq_iff, Bool-cases, inl, inr,
}
use builder_playground.Relay.{
  Packages, InmemoryDb, DeliveredPayloadEntry, GetPayloadsFilters, filter_payload, unfiltered,
  get_recent_delivered_payloads,
}

-- An entry agrees with each filter that is set.
abbrev pub Matches : GetPayloadsFilters → DeliveredPayloadEntry → Type 0
Matches filters entry =
    (filters.block_number ≢ 0 → entry.block_number ≡ filters.block_number)
    × (filters.builder_pubkey ≢ "" → entry.builder_pubkey ≡ filters.builder_pubkey)

-- A list and its entries that match, in their order.
pub data Selected (filters : GetPayloadsFilters)
    : List DeliveredPayloadEntry → List DeliveredPayloadEntry → Type 0 where
  nothing : Selected filters [] []
  taken :
      (entry : DeliveredPayloadEntry) {entries chosen : List DeliveredPayloadEntry}
      → Matches filters entry
      → Selected filters entries chosen
      → Selected filters (entry ∷ entries) (entry ∷ chosen)
  left_out :
      (entry : DeliveredPayloadEntry) {entries chosen : List DeliveredPayloadEntry}
      → ¬ Matches filters entry
      → Selected filters entries chosen
      → Selected filters (entry ∷ entries) chosen

unless_iff :
    (unset agrees : Bool) {U S : Type 0}
    → (unset ≡ true) ↔ U
    → (agrees ≡ true) ↔ S
    → ((not unset && not agrees) ≡ false) ↔ (¬ U → S)
unless_iff true agrees u s = (λ h n. absurd (n (u.0 refl)), λ h. refl)
unless_iff false true u s = (λ h n. s.0 refl, λ h. refl)
unless_iff false false u s = (λ h. cc, λ h. sym (s.1 (h λ x. (let bad = u.1 x in cc))))

both_pass :
    (a b : Bool)
    → ((if a then true else if b then true else false) ≡ false) ↔ ((a ≡ false) × (b ≡ false))
both_pass true b = (λ h. cc, λ (h, _). h)
both_pass false true = (λ h. cc, λ (_, h). h)
both_pass false false = (λ h. (refl, refl), λ h. refl)

filter_payload_iff :
    (entry : DeliveredPayloadEntry) (filters : GetPayloadsFilters)
    → (filter_payload entry filters ≡ false) ↔ Matches filters entry
unfolding filter_payload
filter_payload_iff entry filters =
    let block =
      unless_iff (eqb filters.block_number 0) (eqb entry.block_number filters.block_number)
        (eqb_iff filters.block_number 0) (eqb_iff entry.block_number filters.block_number) in
    let builder =
      unless_iff (filters.builder_pubkey == "") (entry.builder_pubkey == filters.builder_pubkey)
        (eq_iff filters.builder_pubkey "") (eq_iff entry.builder_pubkey filters.builder_pubkey) in
    let both =
      both_pass
        (not (eqb filters.block_number 0) && not (eqb entry.block_number filters.block_number))
        (not (filters.builder_pubkey == "")
          && not (entry.builder_pubkey == filters.builder_pubkey)) in
    (
      λ h. (let (a, b) = both.0 h in (block.0 a, builder.0 b)),
      λ (a, b). both.1 (block.1 a, builder.1 b),
    )

unfiltered-Selected :
    (filters : GetPayloadsFilters) (entries : List DeliveredPayloadEntry)
    → Selected filters entries (unfiltered filters entries)
unfolding unfiltered
unfiltered-Selected filters [] = nothing
unfiltered-Selected filters (entry ∷ entries) = elim (Bool-cases (filter_payload entry filters)) [
  | inl e ↦ rw e (
      left_out entry (λ m. (let bad = sym e ∙ (filter_payload_iff entry filters).1 m in cc))
        (unfiltered-Selected filters entries))
  | inr e ↦
      rw e
        (taken entry ((filter_payload_iff entry filters).0 e) (unfiltered-Selected filters entries))
]

-- `GetRecentDeliveredPayloads` gives just the delivered payloads that agree with the block number
-- and the builder's key of the filters, where these are set, in the order in which they were saved.
get_recent-Selected :
    (pk : Packages) (filters : GetPayloadsFilters) (db : InmemoryDb pk)
    → Selected filters db.delivered_payloads (get_recent_delivered_payloads pk filters db)
unfolding get_recent_delivered_payloads
get_recent-Selected pk filters db = unfiltered-Selected filters db.delivered_payloads
