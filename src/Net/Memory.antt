-- ===== src/Net/Memory.antt =====
-- A socket in memory.
use nesquic.Prelude.{some, none, true, false, refl}
use nesquic.Net.{Sockets, SocketView, IsSockets, is_ipv6}

-- Sockets on which every call succeeds.
abbrev pub memory_sockets : Sockets
memory_sockets = record {
  World = SocketView;
  create = λ addr v. (
    some tt,
    record { family_v6 = is_ipv6 addr; only_v6 = true; bound = none; nonblocking = false },
  );
  set_only_v6 = λ b v. (some tt, record v { only_v6 = b });
  bind = λ addr v. (some tt, record v { bound = some addr });
  set_nonblocking = λ b v. (some tt, record v { nonblocking = b });
  init_state = λ v. (some tt, v);
  from_std = λ v. (some tt, v);
  local_addr = λ v. (v.bound, v);
}

abbrev pub memory_sockets-IsSockets : IsSockets memory_sockets
memory_sockets-IsSockets = record {
  view = λ v. v;
  system_only_v6 = true;
  create_law = λ addr v. refl;
  set_only_v6_law = λ b v. refl;
  bind_law = λ addr v. refl;
  set_nonblocking_law = λ b v. refl;
}

abbrev pub unset : SocketView
unset = record { family_v6 = false; only_v6 = true; bound = none; nonblocking = false }
