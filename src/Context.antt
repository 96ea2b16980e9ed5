-- ===== src/Context.antt =====
-- playground/manifest.go: the log level, the execution context and what it refers to.
pub mod Levels
use builder_playground.Prelude.{
  none, some, String, Bool, Option, List, Result, ok, err, if◌then◌else◌, ◌==◌,
}
use builder_playground.Output.{Output, connect_enode}

abbrev pub level_debug : String
level_debug = "debug"

abbrev pub level_info : String
level_info = "info"

abbrev pub level_warn : String
level_warn = "warn"

abbrev pub level_error : String
level_error = "error"

abbrev pub level_trace : String
level_trace = "trace"

-- `LogLevel.Unmarshal`: the level, or the text that is no level.
unfoldable pub unmarshal_level : String → Result String String
unmarshal_level s =
    if s == "debug"
    then ok level_debug
    else if s == "info"
    then ok level_info
    else if s == "trace"
    then ok level_trace
    else if s == "warn"
    then ok level_warn
    else if s == "error"
    then ok level_error
    else err s

pub record ContenderContext : Type 0 where
  pub enabled : Bool
  pub extra_args : List String
  pub target_chain : String

pub record BootnodeRef : Type 0 where
  pub service : String
  pub id : String

unfoldable pub connect_bootnode : BootnodeRef → String
unfolding connect_enode
connect_bootnode b = connect_enode b.service b.id

-- `ctx.Bootnode.Connect()` where there is a bootnode.
abbrev pub bootnode_url : Option BootnodeRef → Option String
bootnode_url none = none
bootnode_url (some b) = some (connect_bootnode b)

-- `output` is shared by the manifest: the Go code keeps one pointer in both.
pub record ExContext : Type 0 where
  pub log_level : String
  pub output : Output
  pub bootnode : Option BootnodeRef
  pub contender : ContenderContext
