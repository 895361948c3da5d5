-- ===== src/Quinn/Program/Memory.antt =====
-- Libraries in memory on which every call succeeds, over a stream that loses nothing.
use nesquic.Prelude.{leb, length, Bool-cases, inl, inr, refl, leb→le, false, ℕ, some, [], ◌∷◌}
use nesquic.Prelude.Tasks.{Task, pure}
use nesquic.Net.{SocketAddr, v4, v6}
use nesquic.Quinn.Streams.{View, IsStreams, Read}
use nesquic.Quinn.Exchange.{blank, server_end}
use nesquic.Quinn.Crates.{Crates}

abbrev pub memory_crates : Crates View
memory_crates = record {
  Certificate = Unit {0};
  Key = Unit {0};
  Roots = Unit {0};
  ServerCrypto = Unit {0};
  ClientConfig = Unit {0};
  ServerConfig = Unit {0};
  Connecting = Unit {0};
  from_pem_file = λ path v. (some tt, v);
  add_root = λ certificate. some tt;
  client_config = λ roots protocols. some tt;
  to_socket_addrs = λ host port v. (some (v4 0 port ∷ []), v);
  new_client_endpoint = λ v. (some tt, v);
  set_default_client_config = λ config v. v;
  connect = λ addr host v. (some tt, v);
  established = λ connecting v. (some tt, blank);
  pem_file_iter = λ path v. (some (some tt ∷ []), v);
  key_from_pem_file = λ path v. (some tt, v);
  with_single_cert = λ certs key. some tt;
  server_config = λ crypto protocols. some tt;
  new_server_endpoint = λ config v. (some tt, v);
  local_addr = λ v. (some (v6 0 4433), v);
}

abbrev pub bind_any : SocketAddr → Task View (Unit {0})
bind_any addr = pure tt

abbrev pub still : View → ℕ × View
still v = (0, v)

pub server_end-Read :
    (limit : ℕ) (v : View)
    → Read limit v (server_end.read_to_end limit v).0 (server_end.read_to_end limit v).1
server_end-Read limit v = elim (Bool-cases (leb (length v.incoming) limit)) [
  | inl fits ↦ rw fits (refl, leb→le _ _ fits, refl)
  | inr over ↦ rw over refl
]

abbrev pub server_laws : IsStreams server_end
server_laws = record {
  view = λ v. v;
  read_law = server_end-Read;
  write_law = λ bytes v. refl;
  finish_law = λ v. refl;
}

-- A peer that has sent two bytes.
abbrev pub two_sent : View
two_sent = record { incoming = (0 ∷ 0 ∷ []); written = []; finished = false }
