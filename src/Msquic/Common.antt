-- ===== src/Msquic/Common.antt =====
-- iut/msquic/src/common.cpp: the configurations. The registration is left out.
use nesquic.Prelude.{ℕ, Bool, true, false, Option, none, some, [], ◌∷◌}
use nesquic.Text.{Text, codes}
use nesquic.Msquic.Library.{MsQuic, Settings, Credential, client_credential, certificate_file}

abbrev pub alpn : Text
alpn = codes "perf"

abbrev pub default_port : ℕ
default_port = 4433

abbrev pub common_settings : Settings
common_settings = record { idle_timeout_ms = 10000; peer_bidi_stream_count = 100 }

-- `if (!args.cert.empty())`
abbrev pub trusted : Text → Option Text
trusted [] = none
trusted (c ∷ cs) = some (c ∷ cs)

module _ (msquic : MsQuic) where
  open msquic use {World, configuration_open, configuration_load_credential, configuration_close}

  loaded : ℕ → Bool × World → Option ℕ × World
  loaded config (true, w) = (some config, w)
  loaded config (false, w) = (none, configuration_close config w)

  with_credential : Credential → Option ℕ × World → Option ℕ × World
  with_credential credential (none, w) = (none, w)
  with_credential credential (some config, w) =
      loaded config (configuration_load_credential config credential w)

  open_configuration : Settings → World → Option ℕ × World
  open_configuration settings w = configuration_open alpn settings w

  unfoldable pub make_client_configuration : Text → World → Option ℕ × World
  unfolding loaded with_credential open_configuration
  make_client_configuration cert w =
      with_credential (client_credential (trusted cert)) (open_configuration common_settings w)

  pub make_server_configuration : Text → Text → World → Option ℕ × World
  make_server_configuration cert key w =
      with_credential (certificate_file cert key) (open_configuration common_settings w)
