-- ===== src/Kfo/Flags/Laws.antt =====
-- What the argument loop of cmd/kfo/main.go makes of a command line that is written out from settings.
use kube_freeze_operator.Common.{◌≡◌, refl, String, true, List, [], ◌∷◌, ◌++◌}
use kube_freeze_operator.Kfo.Flags.{
  Options, Setting, namespace_setting, kind_setting, action_setting, api_url_setting,
  index_out_of_range, set_option, parse_args, read_flag, setting_flag, json_flag,
}

-- A word of a command line: a flag with its value, by its long or its short name, or --json.
pub data Word : Type 0 where
  long_form short_form : Setting → String → Word
  json_word : Word

abbrev pub long_name : Setting → String
long_name namespace_setting = "--namespace"
long_name kind_setting = "--kind"
long_name action_setting = "--action"
long_name api_url_setting = "--api-url"

-- --api-url has no short name.
abbrev pub short_name : Setting → String
short_name namespace_setting = "-n"
short_name kind_setting = "-k"
short_name action_setting = "-a"
short_name api_url_setting = "--api-url"

abbrev pub write : List Word → List String
write [] = []
write (long_form s value ∷ ws) = long_name s ∷ value ∷ write ws
write (short_form s value ∷ ws) = short_name s ∷ value ∷ write ws
write (json_word ∷ ws) = "--json" ∷ write ws

-- What the words mean: a later one overrides an earlier one.
abbrev pub meaning : List Word → Options → Options
meaning [] o = o
meaning (long_form s value ∷ ws) o = meaning ws (set_option s value o)
meaning (short_form s value ∷ ws) o = meaning ws (set_option s value o)
meaning (json_word ∷ ws) o = meaning ws (record o { json_output = true })

read_flag-long : (s : Setting) → read_flag (long_name s) ≡ setting_flag s
unfolding read_flag
read_flag-long namespace_setting = refl
read_flag-long kind_setting = refl
read_flag-long action_setting = refl
read_flag-long api_url_setting = refl

read_flag-short : (s : Setting) → read_flag (short_name s) ≡ setting_flag s
unfolding read_flag
read_flag-short namespace_setting = refl
read_flag-short kind_setting = refl
read_flag-short action_setting = refl
read_flag-short api_url_setting = refl

read_flag-json : read_flag "--json" ≡ json_flag
unfolding read_flag
read_flag-json = refl

parse_args-json :
    (rest : List String) (o : Options)
    → parse_args ("--json" ∷ rest) o ≡ parse_args rest (record o { json_output = true })
unfolding parse_args
parse_args-json [] o = rw (parse_args, read_flag-json)
parse_args-json (arg ∷ rest) o = rw (parse_args, read_flag-json)

-- The argument loop reads back what is written: over the words of any flags, each setting in its long or
-- its short form with its value, and --json, it goes on with whatever follows them, from the options
-- that the flags mean, a later setting over an earlier one.
pub parse_args-write :
    (ws : List Word) (rest : List String) (o : Options)
    → parse_args (write ws ++ rest) o ≡ parse_args rest (meaning ws o)
unfolding parse_args
parse_args-write [] rest o = refl
parse_args-write (long_form s value ∷ ws) rest o =
    rw (parse_args, read_flag-long s) (parse_args-write ws rest (set_option s value o))
parse_args-write (short_form s value ∷ ws) rest o =
    rw (parse_args, read_flag-short s) (parse_args-write ws rest (set_option s value o))
parse_args-write (json_word ∷ ws) rest o =
    rw (parse_args-json (write ws ++ rest) o)
      (parse_args-write ws rest (record o { json_output = true }))

-- A command line that ends with a flag without its value, after any settings, panics: the loop reads
-- past the end of the arguments.
pub parse_args-panics :
    (ws : List Word) (s : Setting) (o : Options)
    → (parse_args (write ws ++ long_name s ∷ []) o ≡ index_out_of_range)
      × (parse_args (write ws ++ short_name s ∷ []) o ≡ index_out_of_range)
unfolding parse_args
parse_args-panics ws s o = (
  rw (parse_args-write ws (long_name s ∷ []) o, parse_args, read_flag-long s),
  rw (parse_args-write ws (short_name s ∷ []) o, parse_args, read_flag-short s),
)
