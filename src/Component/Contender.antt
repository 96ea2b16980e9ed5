-- ===== src/Component/Contender.antt =====
-- playground/components.go: the contender component, with its parser of extra arguments.
pub mod Overrides
use builder_playground.Prelude.{
  ℕ, zero, suc, ◌+◌, code, String, Bool, true, false, not, ◌&&◌, ◌||◌, Option, none, some, List, [],
  ◌∷◌, ◌++◌, eqb, ltb, any, if◌then◌else◌, ◌==◌, ◌⊕◌,
}
use builder_playground.Output.{connect}
use builder_playground.Service.{
  Builder, ◌▹◌, when, with_image, with_tag, with_args, depends_on_healthy, depends_on_running,
}
use builder_playground.Context.{ExContext}

-- unicode.IsSpace, on the characters below U+0100.
abbrev pub is_white : ℕ → Bool
is_white c = eqb c 32 || ltb 8 c && ltb c 14 || eqb c 0x85 || eqb c 0xa0

unfoldable pub trim_left : String → String
trim_left String.[] = ""
trim_left (String.◌∷◌ c s) =
    let rest = trim_left s in if is_white (code c) then rest else String.◌∷◌ c s

unfoldable pub trim_right : String → String
trim_right String.[] = ""
trim_right (String.◌∷◌ c s) =
    let rest = trim_right s in if rest == "" && is_white (code c) then "" else String.◌∷◌ c rest

-- strings.TrimSpace
unfoldable pub trim_space : String → String
unfolding trim_left trim_right
trim_space s = trim_right (trim_left s)

abbrev pub one_on : Option ℕ → Option ℕ
one_on none = none
one_on (some i) = some (suc i)

-- The position of the first character that passes a test.
unfoldable pub index_where : (ℕ → Bool) → String → Option ℕ
index_where p String.[] = none
index_where p (String.◌∷◌ c s) =
    let rest = one_on (index_where p s) in if p (code c) then some 0 else rest

-- s[:i] and s[i:]
unfoldable pub before : ℕ → String → String
before zero s = ""
before (suc i) String.[] = ""
before (suc i) (String.◌∷◌ c s) = String.◌∷◌ c (before i s)

unfoldable pub from : ℕ → String → String
from zero s = s
from (suc i) String.[] = ""
from (suc i) (String.◌∷◌ c s) = from i s

unfoldable pub index_ws : String → Option ℕ
unfolding index_where
index_ws s = index_where (λ r. eqb r b' ' || eqb r b'\t') s

pub record Extra : Type 0 where
  pub name : String
  pub val : String
  pub has_val : Bool
  pub used_eq : Bool

-- `eq > 0 && (ws == -1 || eq < ws)`
abbrev pub prefers_eq : ℕ → Option ℕ → Bool
prefers_eq eq none = ltb 0 eq
prefers_eq eq (some ws) = ltb 0 eq && ltb eq ws

abbrev pub split_at : String → ℕ → Bool → Extra
split_at s i used_eq = record {
  name = trim_space (before i s);
  val = trim_space (from (i + 1) s);
  has_val = true;
  used_eq = used_eq;
}

abbrev pub split_ws : String → Option ℕ → Extra
split_ws s none = record { name = s; val = ""; has_val = false; used_eq = false }
split_ws s (some ws) = split_at s ws false

abbrev pub split_kv : String → Option ℕ → Option ℕ → Extra
split_kv s none ws = split_ws s ws
split_kv s (some eq) ws = if prefers_eq eq ws then split_at s eq true else split_ws s ws

unfoldable pub parse_kv : String → Extra
unfolding trim_space index_where index_ws before from
parse_kv arg =
    let s = trim_space arg in
    if s == ""
    then record { name = ""; val = ""; has_val = false; used_eq = false }
    else split_kv s (index_where (λ r. eqb r b'=') s) (index_ws s)

pub record Opt : Type 0 where
  pub name : String
  pub val : String
  pub has_val : Bool

pub record Contender : Type 0 where
  pub extra_args : List String
  pub target_chain : String

-- The loop over `ExtraArgs`: an argument without a name is dropped.
unfoldable pub extras : List String → List Extra
unfolding parse_kv
extras [] = []
extras (a ∷ more) =
    let e = parse_kv a in let rest = extras more in if e.name == "" then rest else e ∷ rest

abbrev pub seen : List Extra → String → Bool
seen es flag = any (λ (e : Extra). e.name == flag) es

abbrev pub is_rate : String → Bool
is_rate flag =
    flag == "--tpb" || flag == "--txs-per-second" || flag == "--tps" || flag == "--txs-per-block"

unfoldable pub conflict : List Extra → String → Bool
conflict es flag =
    seen es flag
    || flag == "-l" && seen es "--loops"
    || flag == "-r" && seen es "--rpc-url"
    || is_rate flag
      && (seen es "--tpb"
          || seen es "--tps"
          || seen es "--txs-per-second"
          || seen es "--txs-per-block")

abbrev pub opt : String → Opt
opt name = record { name = name; val = ""; has_val = false }

abbrev pub opt_val : String → String → Opt
opt_val name val = record { name = name; val = val; has_val = true }

abbrev pub defaults : String → List Opt
defaults target_chain =
    opt "-l"
    ∷ opt_val "--min-balance" "10 ether"
    ∷ opt_val "-r" (connect target_chain "http")
    ∷ opt_val "--tps" "20"
    ∷ []

unfoldable pub default_args : List Extra → List Opt → List String
unfolding conflict
default_args es [] = []
default_args es (d ∷ ds) =
    let rest = default_args es ds in
    if conflict es d.name
    then rest
    else if d.has_val
    then d.name ∷ (d.val ∷ rest)
    else d.name ∷ rest

abbrev pub extra_arg : Extra → List String
extra_arg e =
    if not e.has_val
    then e.name ∷ []
    else if e.used_eq
    then (e.name ⊕ "=" ⊕ e.val) ∷ []
    else e.name ∷ (e.val ∷ [])

unfoldable pub appended_args : List Extra → List String
appended_args [] = []
appended_args (e ∷ es) = extra_arg e ++ appended_args es

abbrev pub target : Contender → String
target c = if c.target_chain == "" then "el" else c.target_chain

unfoldable pub contender_args : Contender → List String
unfolding default_args appended_args extras connect
contender_args c =
    "spam"
    ∷ (default_args (extras c.extra_args) (defaults (target c))
        ++ appended_args (extras c.extra_args))

unfoldable pub run_contender : Contender → ExContext → Builder
unfolding contender_args with_args
run_contender c ctx =
    with_image "flashbots/contender"
    ▹ with_tag "latest"
    ▹ with_args (contender_args c)
    ▹ depends_on_healthy "beacon"
    ▹ when (c.target_chain == "op-geth") (depends_on_running "op-node")
