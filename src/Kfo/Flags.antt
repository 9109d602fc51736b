-- ===== src/Kfo/Flags.antt =====
-- cmd/kfo/main.go: the loop of main over the arguments after "can-i".
pub mod Laws
use kube_freeze_operator.Common.{String, Bool, true, false, ◌||◌, List, [], ◌∷◌, if◌then◌else◌}
use kube_freeze_operator.Common.Texts.{◌==◌}

-- The variables that the loop sets.
pub record Options : Type 0 where
  pub namespace : String
  pub kind : String
  pub action : String
  pub api_url : String
  pub json_output : Bool

abbrev pub no_options : Options
no_options = record { namespace = ""; kind = ""; action = ""; api_url = ""; json_output = false }

-- The variables that a flag with a value sets.
pub data Setting : Type 0 where
  namespace_setting kind_setting action_setting api_url_setting : Setting

-- The cases of the switch.
pub data Flag : Type 0 where
  setting_flag : Setting → Flag
  json_flag help_flag unknown_flag : Flag

-- How the loop ends: `index_out_of_range` is the panic of `args[i]`.
pub data Parsed : Type 0 where
  parsed : Options → Parsed
  asked_usage : Parsed
  met_unknown : String → Parsed
  index_out_of_range : Parsed

unfoldable pub read_flag : String → Flag
read_flag arg =
    if arg == "--namespace" || arg == "-n"
    then setting_flag namespace_setting
    else if arg == "--kind" || arg == "-k"
    then setting_flag kind_setting
    else if arg == "--action" || arg == "-a"
    then setting_flag action_setting
    else if arg == "--api-url"
    then setting_flag api_url_setting
    else if arg == "--json"
    then json_flag
    else if arg == "-h" || arg == "--help"
    then help_flag
    else unknown_flag

abbrev pub set_option : Setting → String → Options → Options
set_option namespace_setting value o = record o { namespace = value }
set_option kind_setting value o = record o { kind = value }
set_option action_setting value o = record o { action = value }
set_option api_url_setting value o = record o { api_url = value }

-- The loop from the arguments that are left; a flag with a value takes two of them.
unfoldable pub parse_args : List String → Options → Parsed
parse_args [] o = parsed o
parse_args (arg ∷ []) o = elim (read_flag arg) [
  | setting_flag s ↦ index_out_of_range
  | json_flag ↦ parsed (record o { json_output = true })
  | help_flag ↦ asked_usage
  | unknown_flag ↦ met_unknown arg
]
parse_args (arg ∷ value ∷ more) o = elim (read_flag arg) [
  | setting_flag s ↦ parse_args more (set_option s value o)
  | json_flag ↦ parse_args (value ∷ more) (record o { json_output = true })
  | help_flag ↦ asked_usage
  | unknown_flag ↦ met_unknown arg
]
