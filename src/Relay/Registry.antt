-- ===== src/Relay/Registry.antt =====
-- The registrations of validators in the database of mev-boost-relay/mev-boost-relay.go.
use builder_playground.Prelude.{
  String, List, [], ◌∷◌, ◌≡◌, refl, ap, ◌∙◌, if◌then◌else◌, insert, lookup, ◌==◌, Result, ok,
  eq_iff, Bool-cases, inl, inr,
}
use mathlib.Core.Path.{subst}
use builder_playground.Prelude.Dict.Laws.{
  lookup-insert, lookup-insert_other, DistinctKeys, DistinctKeys-insert, KeyedBy, KeyedBy-insert,
}
use builder_playground.Relay.{
  Packages, InmemoryDb, new_inmemory_db, save_validator_registration, registered,
  get_validator_registration,
}

module _ (pk : Packages) where
  -- The registrations are saved one after the other.
  abbrev pub save_all : List pk.ValidatorRegistrationEntry → InmemoryDb pk → InmemoryDb pk
  save_all [] db = db
  save_all (entry ∷ entries) db = save_all entries (save_validator_registration pk entry db)

  -- The last registration of a key in a list, or what was there before.
  abbrev pub latest :
      String
      → List pk.ValidatorRegistrationEntry
      → Result String pk.ValidatorRegistrationEntry
      → Result String pk.ValidatorRegistrationEntry
  latest key [] before = before
  latest key (entry ∷ entries) before =
      latest key entries (if pk.pubkey entry == key then ok entry else before)

  get-save :
      (key : String) (entry : pk.ValidatorRegistrationEntry) (db : InmemoryDb pk)
      → get_validator_registration pk key (save_validator_registration pk entry db)
        ≡ (if pk.pubkey entry == key then ok entry else get_validator_registration pk key db)
  unfolding get_validator_registration save_validator_registration
  get-save key entry db = elim (Bool-cases (pk.pubkey entry == key)) [
    | inl e ↦
        let same = (eq_iff (pk.pubkey entry) key).0 e in
        rw e (
          subst
            (λ k.
              registered pk
                (lookup k (insert (pk.pubkey entry) entry db.validator_registry_entries))
              ≡ ok entry)
            same
            (ap (registered pk)
              (lookup-insert (pk.pubkey entry) entry db.validator_registry_entries)))
    | inr e ↦ rw e (
        ap (registered pk)
          (lookup-insert_other (pk.pubkey entry) key entry db.validator_registry_entries e))
  ]

  -- After any number of registrations are saved, `GetValidatorRegistration` gives for a key the
  -- last of them with this key, and if there is none what it gave before.
  pub get-save_all :
      (key : String) (entries : List pk.ValidatorRegistrationEntry) (db : InmemoryDb pk)
      → get_validator_registration pk key (save_all entries db)
        ≡ latest key entries (get_validator_registration pk key db)
  get-save_all key [] db = refl
  get-save_all key (entry ∷ entries) db =
      get-save_all key entries (save_validator_registration pk entry db)
      ∙ ap (latest key entries) (get-save key entry db)

  -- No key has two registrations, and each is under its own key.
  abbrev pub WellKept : InmemoryDb pk → Type 0
  WellKept db =
      DistinctKeys db.validator_registry_entries × KeyedBy pk.pubkey db.validator_registry_entries

  save-WellKept :
      (entry : pk.ValidatorRegistrationEntry) (db : InmemoryDb pk)
      → WellKept db
      → WellKept (save_validator_registration pk entry db)
  unfolding save_validator_registration
  save-WellKept entry db (d, k) = (
    DistinctKeys-insert (pk.pubkey entry) entry db.validator_registry_entries d,
    KeyedBy-insert pk.pubkey entry db.validator_registry_entries k,
  )

  new-WellKept : WellKept (new_inmemory_db pk)
  unfolding new_inmemory_db
  new-WellKept = (tt, tt)

  kept :
      (entries : List pk.ValidatorRegistrationEntry) (db : InmemoryDb pk)
      → WellKept db
      → WellKept (save_all entries db)
  kept [] db h = h
  kept (entry ∷ entries) db h = kept entries _ (save-WellKept entry db h)

  -- Whatever registrations are saved in a new database, no key has two of them, and each is under
  -- its own key.
  save_all-WellKept :
      (entries : List pk.ValidatorRegistrationEntry)
      → WellKept (save_all entries (new_inmemory_db pk))
  save_all-WellKept entries = kept entries (new_inmemory_db pk) new-WellKept
