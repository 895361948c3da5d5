-- ===== src/Msquic/Program.antt =====
-- iut/msquic/src/main.cpp, and the opening of the library in common.cpp. The arguments are without the
-- name of the program; what is printed is left out.
use nesquic.Prelude.{
  ℕ, Bool, true, false, ◌||◌, ◌==◌, if◌then◌else◌, Option, none, some, List, [], ◌∷◌, ◌++◌, Outcome,
  ok, ◌>>=◌,
}
use nesquic.Text.{Text, codes, eq_text}
use nesquic.Msquic.Library.{MsQuic}
use nesquic.Msquic.Client.{run_client}
use nesquic.Msquic.Listener.{run_server}
use nesquic.Msquic.Server
use nesquic.Msquic.Client

pub record Args : Type 0 where
  pub cert : Text
  pub key : Text
  pub blob : Text

pub data Flag : Type 0 where
  cert_flag : Flag
  key_flag : Flag
  blob_flag : Flag
  ignored_with_value : Flag
  ignored : Flag
  unknown : Flag
  positional : Flag

is_either : Text → Text → Text → Bool
is_either short long arg = eq_text arg short || eq_text arg long

-- `!arg.empty() && arg[0] == '-'`
is_option : Text → Bool
is_option [] = false
is_option (c ∷ cs) = c == 45

unfoldable pub flag_of : Text → Flag
unfolding is_either is_option
flag_of arg =
    if is_either (codes "-c") (codes "--cert") arg
    then cert_flag
    else if is_either (codes "-k") (codes "--key") arg
    then key_flag
    else if is_either (codes "-b") (codes "--blob") arg
    then blob_flag
    else if is_either (codes "-l") (codes "--lib") arg
        || (is_either (codes "-j") (codes "--job") arg
            || is_either (codes "-L") (codes "--labels") arg)
    then ignored_with_value
    else if eq_text arg (codes "--unencrypted")
    then ignored
    else if is_option arg
    then unknown
    else positional

-- The loop over the arguments, `none` where it returns 2.
unfoldable pub parse_args : List Text → Args → List Text → Option (Args × List Text)
parse_args [] args positionals = some (args, positionals)
parse_args (arg ∷ []) args positionals = elim (flag_of arg) [
  | cert_flag ↦ none
  | key_flag ↦ none
  | blob_flag ↦ none
  | ignored_with_value ↦ some (args, positionals)
  | ignored ↦ some (args, positionals)
  | unknown ↦ none
  | positional ↦ some (args, positionals ++ (arg ∷ []))
]
parse_args (arg ∷ (v ∷ rest)) args positionals = elim (flag_of arg) [
  | cert_flag ↦ parse_args rest (record args { cert = v }) positionals
  | key_flag ↦ parse_args rest (record args { key = v }) positionals
  | blob_flag ↦ parse_args rest (record args { blob = v }) positionals
  | ignored_with_value ↦ parse_args rest args positionals
  | ignored ↦ parse_args (v ∷ rest) args positionals
  | unknown ↦ none
  | positional ↦ parse_args (v ∷ rest) args (positionals ++ (arg ∷ []))
]

abbrev pub no_args : Args
no_args = record { cert = []; key = []; blob = [] }

abbrev pub is_empty : Text → Bool
is_empty [] = true
is_empty (c ∷ cs) = false

abbrev pub front_or : Text → List Text → Text
front_or default [] = default
front_or default (p ∷ ps) = p

module _ (msquic : MsQuic) (stoi : Text → Outcome ℕ) (client_calls : List Client.Callback)
    (server_calls : List Server.Callback) where
  open msquic use {World, open_library, registration_open, registration_close, close_library}

  registered : Bool × World → Bool × World
  registered (true, w) = (true, w)
  registered (false, w) = (false, close_library w)

  library_opened : Bool × World → Bool × World
  library_opened (true, w) = registered (registration_open w)
  library_opened (false, w) = (false, w)

  open_msquic : World → Bool × World
  open_msquic w = library_opened (open_library w)

  -- After `open_msquic` has returned true.
  close_msquic : World → World
  close_msquic w = close_library (registration_close w)

  with_msquic : (World → Outcome (ℕ × World)) → Bool × World → Outcome (ℕ × World)
  with_msquic body (false, w) = ok (1, w)
  with_msquic body (true, w) = do (rc, w') ← body w; ok (rc, close_msquic w')

  client_main : Args → List Text → World → Outcome (ℕ × World)
  client_main args positionals w =
      if is_empty args.cert || is_empty args.blob
      then ok (2, w)
      else with_msquic
          (run_client msquic stoi client_calls args.cert args.blob
            (front_or (codes "https://127.0.0.1:4433") positionals))
          (open_msquic w)

  server_main : Args → List Text → World → Outcome (ℕ × World)
  server_main args positionals w =
      if is_empty args.cert || is_empty args.key
      then ok (2, w)
      else with_msquic
          (run_server msquic stoi server_calls args.cert args.key
            (front_or (codes "0.0.0.0:4433") positionals))
          (open_msquic w)

  pub main : List Text → World → Outcome (ℕ × World)
  main [] w = ok (2, w)
  main (mode ∷ rest) w =
      if eq_text mode (codes "client")
      then elim (parse_args rest no_args []) [
        | none ↦ ok (2, w)
        | some (args, positionals) ↦ client_main args positionals w
      ]
      else if eq_text mode (codes "server")
      then elim (parse_args rest no_args []) [
        | none ↦ ok (2, w)
        | some (args, positionals) ↦ server_main args positionals w
      ]
      else ok (2, w)
