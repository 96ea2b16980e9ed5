-- ===== src/Component/Contender/Overrides.antt =====
-- Which default flags of contender survive the user's arguments.
use builder_playground.Prelude.{
  String, Bool, true, false, not, ◌||◌, List, ◌≡◌, refl, any, Bool-cases, inl, inr, ◌==◌, eq_iff,
}
use builder_playground.Output.{connect, connect_raw}
use builder_playground.Component.Contender.{
  Contender, Extra, extras, seen, conflict, defaults, default_args, target,
}

-- An argument is among the defaults that are passed on.
abbrev pub given : String → List Extra → String → Bool
given flag es target_chain = any (λ a. a == flag) (default_args es (defaults target_chain))

absorb : (a b c d : Bool) → (b || false || false || (a || b || c || d)) ≡ (a || b || c || d)
absorb true true c d = refl
absorb false true c d = refl
absorb a false c d = refl

loops_only : (a b : Bool) → (a || b || false || false) ≡ (a || b)
loops_only true b = refl
loops_only false true = refl
loops_only false false = refl

url_only : (a b : Bool) → (a || false || b || false) ≡ (a || b)
url_only true b = refl
url_only false true = refl
url_only false false = refl

self_only : (a : Bool) → (a || false || false || false) ≡ a
self_only true = refl
self_only false = refl

-- A reference to a service is no flag.
connect-eq_flag :
    (target_chain flag : String) → (connect target_chain "http" == (String.◌∷◌ "-" flag)) ≡ false
unfolding connect connect_raw
connect-eq_flag target_chain flag =
    elim (Bool-cases (connect target_chain "http" == (String.◌∷◌ "-" flag))) [
      | inr e ↦ e
      | inl e ↦ let same = (eq_iff (connect target_chain "http") (String.◌∷◌ "-" flag)).0 e in cc
    ]

module _ (es : List Extra) (target_chain : String) where
  -- The defaults that are given, when it is known which of them conflict.
  given-conflict :
      (a b c d : Bool)
      → conflict es "-l" ≡ a
      → conflict es "--min-balance" ≡ b
      → conflict es "-r" ≡ c
      → conflict es "--tps" ≡ d
      → (given "-l" es target_chain ≡ not a)
        × (given "--min-balance" es target_chain ≡ not b)
        × (given "-r" es target_chain ≡ not c)
        × (given "--tps" es target_chain ≡ not d)
  unfolding default_args
  given-conflict false false false false e f g h =
      rw (e, f, g, h) (refl, refl, refl, simp (connect-eq_flag target_chain "-tps"))
  given-conflict true false false false e f g h =
      rw (e, f, g, h)
        (
          simp (connect-eq_flag target_chain "l"),
          refl,
          refl,
          simp (connect-eq_flag target_chain "-tps"),
        )
  given-conflict false true false false e f g h =
      rw (e, f, g, h)
        (
          refl,
          simp (connect-eq_flag target_chain "-min-balance"),
          refl,
          simp (connect-eq_flag target_chain "-tps"),
        )
  given-conflict true true false false e f g h =
      rw (e, f, g, h)
        (
          simp (connect-eq_flag target_chain "l"),
          simp (connect-eq_flag target_chain "-min-balance"),
          refl,
          simp (connect-eq_flag target_chain "-tps"),
        )
  given-conflict false false true false e f g h = rw (e, f, g, h) (refl, refl, refl, refl)
  given-conflict true false true false e f g h = rw (e, f, g, h) (refl, refl, refl, refl)
  given-conflict false true true false e f g h = rw (e, f, g, h) (refl, refl, refl, refl)
  given-conflict true true true false e f g h = rw (e, f, g, h) (refl, refl, refl, refl)
  given-conflict false false false true e f g h =
      rw (e, f, g, h) (refl, refl, refl, rw (connect-eq_flag target_chain "-tps") refl)
  given-conflict true false false true e f g h =
      rw (e, f, g, h)
        (
          simp (connect-eq_flag target_chain "l"),
          refl,
          refl,
          rw (connect-eq_flag target_chain "-tps") refl,
        )
  given-conflict false true false true e f g h =
      rw (e, f, g, h)
        (
          refl,
          simp (connect-eq_flag target_chain "-min-balance"),
          refl,
          rw (connect-eq_flag target_chain "-tps") refl,
        )
  given-conflict true true false true e f g h =
      rw (e, f, g, h)
        (
          simp (connect-eq_flag target_chain "l"),
          simp (connect-eq_flag target_chain "-min-balance"),
          refl,
          rw (connect-eq_flag target_chain "-tps") refl,
        )
  given-conflict false false true true e f g h = rw (e, f, g, h) (refl, refl, refl, refl)
  given-conflict true false true true e f g h = rw (e, f, g, h) (refl, refl, refl, refl)
  given-conflict false true true true e f g h = rw (e, f, g, h) (refl, refl, refl, refl)
  given-conflict true true true true e f g h = rw (e, f, g, h) (refl, refl, refl, refl)

-- Each default flag of contender is passed on exactly when the user gives neither this flag nor one
-- that replaces it: --loops for -l, --rpc-url for -r, and any of the four rates for --tps.
default_args_iff :
    (c : Contender)
    → let es = extras c.extra_args in
      (given "-l" es (target c) ≡ not (seen es "-l" || seen es "--loops"))
      × (given "--min-balance" es (target c) ≡ not (seen es "--min-balance"))
      × (given "-r" es (target c) ≡ not (seen es "-r" || seen es "--rpc-url"))
      × (given "--tps" es (target c)
          ≡ not (
              seen es "--tpb"
              || seen es "--tps"
              || seen es "--txs-per-second"
              || seen es "--txs-per-block"))
unfolding conflict
default_args_iff c =
    let es = extras c.extra_args in
    given-conflict es (target c) _ _ _ _ (loops_only (seen es "-l") (seen es "--loops"))
      (self_only (seen es "--min-balance")) (url_only (seen es "-r") (seen es "--rpc-url"))
      (absorb (seen es "--tpb") (seen es "--tps") (seen es "--txs-per-second")
        (seen es "--txs-per-block"))
