-- ===== src/Output.antt =====
-- playground/artifacts.go: the output folder (`output`), references between services (`ConnectRaw`
-- and its variants) and the enode keys (`GetEnodeAddr`).
-- A folder is the list of the paths below `dst` that exist. `faults` are the paths at which the
-- operating system refuses a call for another reason than absence.
pub mod Effects
pub mod Data
pub mod Written
pub mod Free
use builder_playground.Prelude.{
  ℕ, ◌+◌, code, String, Bool, Option, none, some, List, [], ◌∷◌, ◌++◌, eqb, any, if◌then◌else◌, ◌⊕◌,
  chr, decimal, Result, ok, err, ◌>>=◌, ◌==◌,
}

pub record Output : Type 0 where
  pub dst : String
  pub home_dir : String
  pub enode_addr_seq : Option ℕ
  pub files : List String
  pub faults : List String

-- What os.Stat answers.
pub data Stat : Type 0 where
  found not_exist failed : Stat

abbrev pub contains : List String → String → Bool
contains paths p = any (λ q. q == p) paths

unfoldable pub stat : Output → String → Stat
stat out p =
    if contains out.faults p then failed else if contains out.files p then found else not_exist

-- The folders that os.MkdirAll(filepath.Dir(path)) makes sure of.
unfoldable pub parents : String → String → List String
parents cur String.[] = []
parents cur (String.◌∷◌ c s) =
    let deeper = parents (cur ⊕ chr c) s in if eqb (code c) b'/' then cur ∷ deeper else deeper

unfoldable pub write_file : String → Output → Result String Output
unfolding parents
write_file p out =
    if any (contains out.faults) (parents "" p ++ p ∷ [])
    then err p
    else ok (record out { files = out.files ++ (parents "" p ++ p ∷ []) })

unfoldable pub connect_raw : String → String → String → String → String
connect_raw service port protocol user =
    "{{Service \"" ⊕ service ⊕ "\" \"" ⊕ port ⊕ "\" \"" ⊕ protocol ⊕ "\" \"" ⊕ user ⊕ "\"}}"

unfoldable pub connect_enode : String → String → String
unfolding connect_raw
connect_enode service id = connect_raw service "rpc" "enode" id

unfoldable pub connect : String → String → String
unfolding connect_raw
connect service port = connect_raw service port "http" ""

unfoldable pub connect_ws : String → String → String
unfolding connect_raw
connect_ws service port = connect_raw service port "ws" ""

pub record EnodeAddr : Type 0 where
  -- The number that the private key stands for, and the file that holds it.
  pub priv_key : ℕ
  pub artifact : String

abbrev pub next_seq : Option ℕ → ℕ
next_seq none = 1
next_seq (some n) = n + 1

-- `valid` says which numbers are private keys of the curve (crypto.ToECDSA).
unfoldable pub get_enode_addr : (ℕ → Bool) → Output → Result String (EnodeAddr × Output)
unfolding write_file decimal
get_enode_addr valid out =
    let seq = next_seq out.enode_addr_seq in
    let file = "enode-key-" ⊕ decimal seq ⊕ ".txt" in
    if valid seq
    then (do
      out' ← write_file file (record out { enode_addr_seq = some seq })
      ok (record { priv_key = seq; artifact = file }, out'))
    else err "failed to convert private key"
