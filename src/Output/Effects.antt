-- ===== src/Output/Effects.antt =====
-- What writing to the output folder and drawing enode keys leave behind.
use builder_playground.Prelude.{
  ok_inj, ℕ, ◌<◌, String, Bool, true, false, ◌||◌, some, List, [], ◌∷◌, ◌++◌, ◌≡◌, refl, ap, ◌∙◌,
  sym, any, All, Bool-cases, inl, inr, ok, >>=-eq-ok, ◌==◌, ◌⊕◌, decimal, arith, eq_refl,
}
use mathlib.Core.Path.{subst}
use mathlib.Core.List.{append_assoc}
use builder_playground.Output.{
  Output, found, contains, stat, parents, write_file, EnodeAddr, next_seq, get_enode_addr,
}

contains-right :
    (xs ys : List String) (p : String) → contains ys p ≡ true → contains (xs ++ ys) p ≡ true
contains-right [] ys p h = cc
contains-right (x ∷ xs) ys p h = rw (contains-right xs ys p h) (or-true (x == p))
  where
    or-true : (b : Bool) → (b || true) ≡ true
    or-true true = refl
    or-true false = refl

contains-append :
    (xs ys : List String) (p : String) → contains xs p ≡ true → contains (xs ++ ys) p ≡ true
contains-append [] ys p h = cc
contains-append (x ∷ xs) ys p h = elim (Bool-cases (x == p)) [
  | inl e ↦ rw e refl
  | inr e ↦ rw e (contains-append xs ys p (rw e at h))
]

-- None of the paths is refused.
abbrev Allowed : Output → List String → Type 0
Allowed out ps = All (λ p. contains out.faults p ≡ false) ps

none_refused :
    (out : Output) (ps : List String) → any (contains out.faults) ps ≡ false → Allowed out ps
none_refused out [] h = tt
none_refused out (p ∷ ps) h = elim (Bool-cases (contains out.faults p)) [
  | inl e ↦ (let bad = rw e at h in cc)
  | inr e ↦ (e, none_refused out ps (rw e at h))
]

All-last : (P : String → Type 0) (xs : List String) (p : String) → All P (xs ++ p ∷ []) → P p
All-last P [] p h = h.0
All-last P (x ∷ xs) p h = All-last P xs p h.1

write_file-eq-ok :
    (p : String) (out : Output) {out' : Output}
    → write_file p out ≡ ok out'
    → Allowed out (parents "" p ++ p ∷ [])
      × (out' ≡ record out { files = out.files ++ (parents "" p ++ p ∷ []) })
unfolding write_file
write_file-eq-ok p out h = elim (Bool-cases (any (contains out.faults) (parents "" p ++ p ∷ []))) [
  | inl e ↦ (let bad = rw e at h in cc)
  | inr e ↦ (none_refused out (parents "" p ++ p ∷ []) e, (let good = rw e at h in cc))
]

stat-found :
    (q : String) (out : Output)
    → stat out q ≡ found
    → (contains out.faults q ≡ false) × (contains out.files q ≡ true)
unfolding stat
stat-found q out h = elim (Bool-cases (contains out.faults q)) [
  | inl e ↦ (let bad = rw e at h in cc)
  | inr e ↦ elim (Bool-cases (contains out.files q)) [
    | inl d ↦ (e, d)
    | inr d ↦ (let bad = rw (e, d) at h in cc)
  ]
]

found-stat :
    (q : String) (out : Output)
    → contains out.faults q ≡ false
    → contains out.files q ≡ true
    → stat out q ≡ found
unfolding stat
found-stat q out e d = rw (e, d) refl

-- All paths are found.
abbrev pub AllFound : Output → List String → Type 0
AllFound out ps = All (λ p. stat out p ≡ found) ps

-- Nothing that was found is lost.
abbrev pub Keeps : Output → Output → Type 0
Keeps out out' = (q : String) → stat out q ≡ found → stat out' q ≡ found

-- The paths after some others in a folder are found, if they are not refused.
appended_found :
    (out : Output) (before ps : List String)
    → Allowed out ps
    → AllFound (record out { files = before ++ ps }) ps
appended_found out before [] h = tt
appended_found out before (p ∷ ps) (a, h) = (
  found-stat p (record out { files = before ++ p ∷ ps }) a
      (contains-right before (p ∷ ps) p (rw (eq_refl p) refl)),
  subst (λ files. AllFound (record out { files = files }) ps) (append_assoc before (p ∷ []) ps)
      (appended_found out (before ++ p ∷ []) ps h),
)

-- A file that `WriteFile` wrote is found under its path, and so are the folders around it, and what
-- was found before still is.
pub write_file_effect :
    (p : String) (out : Output) {out' : Output}
    → write_file p out ≡ ok out'
    → AllFound out' (parents "" p ++ p ∷ []) × Keeps out out'
write_file_effect p out {out'} h =
    let (fresh, e) = write_file-eq-ok p out h in
    let paths = parents "" p ++ p ∷ [] in
    let written = record out { files = out.files ++ paths } in
    (
      subst (λ (o : Output). AllFound o paths) (sym e) (appended_found out out.files paths fresh),
      λ q f.
          let (a, b) = stat-found q out f in
          subst (λ (o : Output). stat o q ≡ found) (sym e)
            (found-stat q written a (contains-append out.files paths q b)),
    )

pub write_file-found :
    (p : String) (out : Output) {out' : Output} → write_file p out ≡ ok out' → stat out' p ≡ found
write_file-found p out {out'} h =
    All-last (λ q. stat out' q ≡ found) (parents "" p) p (write_file_effect p out h).0

-- `GetEnodeAddr`, when it does not panic, gives the number after the last one as the private key,
-- which the curve accepts; it remembers that number, and the file that it names holds the key.
pub get_enode_addr_effect :
    (valid : ℕ → Bool) (out : Output) {a : EnodeAddr} {out' : Output}
    → get_enode_addr valid out ≡ ok (a, out')
    → (a.priv_key ≡ next_seq out.enode_addr_seq)
      × (valid a.priv_key ≡ true)
      × (out'.enode_addr_seq ≡ some a.priv_key)
      × (stat out' a.artifact ≡ found)
unfolding get_enode_addr
get_enode_addr_effect valid out {a} {out'} h =
    elim (Bool-cases (valid (next_seq out.enode_addr_seq))) [
      | inr e ↦ (let bad = rw e at h in cc)
      | inl e ↦
          let seq = next_seq out.enode_addr_seq in
          let file = "enode-key-" ⊕ decimal seq ⊕ ".txt" in
          let before = record out { enode_addr_seq = some seq } in
          let (out1, h1, h2) = >>=-eq-ok (write_file file before) _ (rw e at h) in
          let pair = ok_inj h2 in
          let (_, written) = write_file-eq-ok file before h1 in
          subst
            (λ (x : EnodeAddr × Output).
              (x.0.priv_key ≡ seq)
              × (valid x.0.priv_key ≡ true)
              × (x.1.enode_addr_seq ≡ some x.0.priv_key)
              × (stat x.1 x.0.artifact ≡ found))
            pair
            (
              refl,
              e,
              ap (λ (o : Output). o.enode_addr_seq) written,
              write_file-found file before h1,
            )
    ]

-- What was found before a key was drawn still is.
pub get_enode_addr_keeps :
    (valid : ℕ → Bool) (out : Output) {a : EnodeAddr} {out' : Output}
    → get_enode_addr valid out ≡ ok (a, out')
    → (q : String) → stat out q ≡ found
    → stat out' q ≡ found
unfolding get_enode_addr stat
get_enode_addr_keeps valid out {a} {out'} h q f =
    elim (Bool-cases (valid (next_seq out.enode_addr_seq))) [
      | inr e ↦ (let bad = rw e at h in cc)
      | inl e ↦
          let seq = next_seq out.enode_addr_seq in
          let file = "enode-key-" ⊕ decimal seq ⊕ ".txt" in
          let before = record out { enode_addr_seq = some seq } in
          let (out1, h1, h2) = >>=-eq-ok (write_file file before) _ (rw e at h) in
          subst (λ (x : EnodeAddr × Output). stat x.1 q ≡ found) (ok_inj h2)
            ((write_file_effect file before h1).1 q f)
    ]

-- Two enode keys drawn one after the other differ: the second is the larger number.
get_enode_addr-distinct :
    (valid : ℕ → Bool) (out : Output) {a b : EnodeAddr} {out1 out2 : Output}
    → get_enode_addr valid out ≡ ok (a, out1)
    → get_enode_addr valid out1 ≡ ok (b, out2)
    → a.priv_key < b.priv_key
get_enode_addr-distinct valid out {a} {b} {out1} h k =
    let (_, _, kept, _) = get_enode_addr_effect valid out h in
    let (next, _, _, _) = get_enode_addr_effect valid out1 k in
    omega (arith, next ∙ ap next_seq kept)
