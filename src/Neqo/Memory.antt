-- ===== src/Neqo/Memory.antt =====
-- A transport in memory, which shows that `IsTransport` can hold: each stream has a flow-control
-- credit, and a call hands out what is there.
use nesquic.Prelude.{
  ℕ, ◌-◌, ◌≡◌, ◌≢◌, ◌⊎◌, refl, Bool, true, false, Option, none, some, List, [], ◌++◌, length, take,
  drop, min, ◌==◌, ◌&&◌, arith, ap, if◌then◌else◌, length-take, ◌%◌, sym, ◌/◌, take-append-drop,
  ◌∷◌,
}
use nesquic.Neqo.Transport.{Transport, View, IsTransport, Received, Sent, Closed}
use mathlib.Core.Path.{subst}

pub record Cell : Type 0 where
  pub seen : View
  pub credit : ℕ

abbrev pub Cells : Type 0
Cells = ℕ → ℕ → Cell

unfoldable pub update : ℕ → ℕ → Cell → Cells → Cells
update c i x w d j = if d == c && j == i then x else w d j

update_self : (c i : ℕ) (x : Cell) (w : Cells) → update c i x w c i ≡ x
unfolding update
update_self c i x w = ground arith

update_other :
    (c i : ℕ) (x : Cell) (w : Cells) (d j : ℕ) → (c ≢ d) ⊎ (i ≢ j) → update c i x w d j ≡ w d j
unfolding update
update_other c i x w d j ne = ground arith

unfoldable pub recv : ℕ → Cell → Option (List ℕ × Bool) × Cell
recv n x = (
  some (take n x.seen.inbox, false),
  record x { seen = record x.seen { inbox = drop n x.seen.inbox } },
)

-- A send side that is open takes what the credit allows.
send_when : Bool → List ℕ → Cell → Option ℕ × Cell
send_when false bytes x = (none, x)
send_when true bytes x =
    let n = min x.credit (length bytes) in
    (
      some n,
      record x {
        seen = record x.seen { outbox = x.seen.outbox ++ take n bytes };
        credit = x.credit - n;
      },
    )

unfoldable pub send : List ℕ → Cell → Option ℕ × Cell
unfolding send_when
send bytes x = send_when x.seen.can_send bytes x

close_when : Bool → Cell → Cell
close_when false x = x
close_when true x = record x { seen = record x.seen { can_send = false; finished = true } }

unfoldable pub close : Cell → Cell
unfolding close_when
close x = close_when x.seen.can_send x

abbrev pub memory : Transport
memory = record {
  World = Cells;
  is_client_initiated = λ i. i % 2 == 0;
  is_bidi = λ i. i / 2 % 2 == 0;
  active_connections = λ w. 1 ∷ [];
  next_event = λ c w. (none, w);
  stream_recv = λ c i n w. ((recv n (w c i)).0, update c i (recv n (w c i)).1 w);
  stream_send = λ c i bytes w. ((send bytes (w c i)).0, update c i (send bytes (w c i)).1 w);
  stream_close_send = λ c i w. (some tt, update c i (close (w c i)) w);
  send_ticket = λ c w. (some tt, w);
}

recv_lem : (n : ℕ) (x : Cell) → Received n x.seen (recv n x).0 (recv n x).1.seen
unfolding recv
recv_lem n x =
    (omega (arith, length-take n x.seen.inbox), sym (take-append-drop n x.seen.inbox), refl)

send_when-Sent :
    (open_ : Bool) (bytes : List ℕ) (x : Cell)
    → x.seen.can_send ≡ open_
    → Sent bytes x.seen (send_when open_ bytes x).0 (send_when open_ bytes x).1.seen
unfolding send_when
send_when-Sent false bytes x e = (e, refl)
send_when-Sent true bytes x e = (e, omega arith, refl)

send_lem : (bytes : List ℕ) (x : Cell) → Sent bytes x.seen (send bytes x).0 (send bytes x).1.seen
unfolding send
send_lem bytes x = send_when-Sent x.seen.can_send bytes x refl

close_when-Closed :
    (open_ : Bool) (x : Cell) → x.seen.can_send ≡ open_ → Closed x.seen (close_when open_ x).seen
unfolding close_when
close_when-Closed false x e = (λ on. cc, λ _. refl)
close_when-Closed true x e = (λ _. refl, λ off. cc)

close_lem : (x : Cell) → Closed x.seen (close x).seen
unfolding close
close_lem x = close_when-Closed x.seen.can_send x refl

abbrev view : ℕ → ℕ → Cells → View
view c i w = (w c i).seen

pub recv_law :
    (c i n : ℕ) (w : Cells)
    → Received n (view c i w) (recv n (w c i)).0 (view c i (update c i (recv n (w c i)).1 w))
recv_law c i n w =
    subst (λ (x : Cell). Received n (view c i w) (recv n (w c i)).0 x.seen)
      (sym (update_self c i (recv n (w c i)).1 w)) (recv_lem n (w c i))

pub send_law :
    (c i : ℕ) (bytes : List ℕ) (w : Cells)
    → Sent bytes
        (view c i w)
        (send bytes (w c i)).0
        (view c i (update c i (send bytes (w c i)).1 w))
send_law c i bytes w =
    subst (λ (x : Cell). Sent bytes (view c i w) (send bytes (w c i)).0 x.seen)
      (sym (update_self c i (send bytes (w c i)).1 w)) (send_lem bytes (w c i))

pub close_law :
    (c i : ℕ) (w : Cells) → Closed (view c i w) (view c i (update c i (close (w c i)) w))
close_law c i w =
    subst (λ (x : Cell). Closed (view c i w) x.seen) (sym (update_self c i (close (w c i)) w))
      (close_lem (w c i))

pub frame_law :
    (c i : ℕ) (x : Cell) (d j : ℕ) (w : Cells)
    → (c ≢ d) ⊎ (i ≢ j)
    → view d j (update c i x w) ≡ view d j w
frame_law c i x d j w ne = ap (λ (y : Cell). y.seen) (update_other c i x w d j ne)

abbrev pub memory-IsTransport : IsTransport memory
memory-IsTransport = record {
  view = view;
  recv_law = recv_law;
  send_law = send_law;
  close_law = close_law;
  recv_frame = λ c i n d j w. frame_law c i _ d j w;
  send_frame = λ c i bytes d j w. frame_law c i _ d j w;
  close_frame = λ c i d j w. frame_law c i _ d j w;
  event_frame = λ c d j w. refl;
  ticket_frame = λ c d j w. refl;
}
