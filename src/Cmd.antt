-- ===== src/Cmd.antt =====
-- cmd/bqcubbit/main.go: the commands. The clients are made or not, as their arguments say; `Fatalf`
-- and `Exit` are the ends of the program.
pub mod Sync
pub mod Ack
pub mod Runs
mod Examples
use bqcubbit.Base.{
  ℕ, Text, codes, str_eq, Bool, true, false, Option, none, some, List, [], ◌∷◌, if◌then◌else◌,
}
use bqcubbit.Config.{Config, ConfigError, Loaded, loaded, refused}

-- The commands, and how the program ends: with exit status 0, after a usage, or by log.Fatalf.
pub data Command : Type 0 where
  sync_command serve_command verify_command : Command
  ack_command : Text → Command

pub data End : Type 0 where
  success usage_shown unknown_command config_refused no_table_given command_failed : End

abbrev pub end_of : Bool → End
end_of true = success
end_of false = command_failed

-- flag.Arg(i), empty beyond the last.
abbrev pub first_or_empty : List Text → Text
first_or_empty [] = []
first_or_empty (a ∷ as') = a

-- The body of `ack-schema-change`, where a table is given.
unfoldable pub dispatch_ack : (Command → Config → Bool) → Config → Text → End
dispatch_ack run cfg [] = no_table_given
dispatch_ack run cfg (c ∷ cs) = end_of (run (ack_command (c ∷ cs)) cfg)

-- The switch on the first argument; `run` runs a command and says whether it succeeded.
unfoldable pub dispatch : (Command → Config → Bool) → Config → Text → List Text → End
unfolding dispatch_ack
dispatch run cfg name rest =
    if str_eq name (codes "sync")
    then end_of (run sync_command cfg)
    else if str_eq name (codes "serve")
    then end_of (run serve_command cfg)
    else if str_eq name (codes "verify")
    then end_of (run verify_command cfg)
    else if str_eq name (codes "ack-schema-change")
    then dispatch_ack run cfg (first_or_empty rest)
    else unknown_command

unfoldable pub dispatch_loaded : (Command → Config → Bool) → Loaded → Text → List Text → End
unfolding dispatch
dispatch_loaded run (refused e) name rest = config_refused
dispatch_loaded run (loaded cfg) name rest = dispatch run cfg name rest

-- `main`, on the arguments after the flags and what `Load` returns.
unfoldable pub main : (Command → Config → Bool) → Loaded → List Text → End
unfolding dispatch_loaded
main run cfg [] = usage_shown
main run cfg (name ∷ rest) = dispatch_loaded run cfg name rest

-- The path of the database, by the value of BQCUBBIT_STATE.
unfoldable pub state_path : Text → Text
state_path [] = codes "bqcubbit_state.db"
state_path (c ∷ cs) = c ∷ cs
