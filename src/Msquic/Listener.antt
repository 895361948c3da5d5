-- ===== src/Msquic/Listener.antt =====
-- `run_server` of iut/msquic/src/server.cpp. What the library calls back until a signal comes is a list.
use nesquic.Prelude.{ℕ, ◌%◌, ◌^◌, Bool, true, false, Option, none, some, List, Outcome, ok, ◌>>=◌}
use nesquic.Text.{Text}
use nesquic.Msquic.Library.{MsQuic}
use nesquic.Msquic.Common.{make_server_configuration, alpn, default_port}
use nesquic.Msquic.Server.{Contexts, Callback, callbacks}
use nesquic.Msquic.Client.{at_last_colon}

unfoldable pub parse_listen_port : (Text → Outcome ℕ) → Text → Outcome ℕ
parse_listen_port stoi listen = elim (at_last_colon listen) [
  | none ↦ ok default_port
  | some (host, port) ↦ do n ← stoi port; ok (n % 2 ^ 16)
]

abbrev pub no_contexts : Contexts
no_contexts stream = none

module _ (msquic : MsQuic) (stoi : Text → Outcome ℕ) (calls : List Callback) where
  open msquic use {World, listener_open, listener_start, listener_close, configuration_close}

  closed : ℕ → ℕ → World → World
  closed config listener w = configuration_close config (listener_close listener w)

  listening : ℕ → ℕ → Bool × World → ℕ × World
  listening config listener (false, w) = (1, closed config listener w)
  listening config listener (true, w) =
      (0, closed config listener (callbacks msquic config calls (no_contexts, w)).1)

  listener_opened : ℕ → Text → Option ℕ × World → Outcome (ℕ × World)
  listener_opened config listen (none, w) = ok (1, configuration_close config w)
  listener_opened config listen (some listener, w) = do
    port ← parse_listen_port stoi listen
    ok (listening config listener (listener_start listener alpn port w))

  server_configured : Text → Option ℕ × World → Outcome (ℕ × World)
  server_configured listen (none, w) = ok (1, w)
  server_configured listen (some config, w) = listener_opened config listen (listener_open config w)

  -- By the arguments `cert`, `key` and `listen`.
  pub run_server : Text → Text → Text → World → Outcome (ℕ × World)
  run_server cert key listen w =
      server_configured listen (make_server_configuration msquic cert key w)
