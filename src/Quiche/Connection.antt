-- ===== src/Quiche/Connection.antt =====
-- What iut/quiche uses of a connection of the crate quiche and of the one-shot channels of tokio,
-- and the documented behaviour.
use nesquic.Prelude.{
  ℕ, Bool, List, Option, ◌≡◌, some, ◌≤◌, length, ◌++◌, take, ◌<◌, ◌==◌, false, none, true,
}

-- A call returns `none` for `Err`, and the state after it. `stream_recv` has a buffer of 32 KiB, and
-- `stream_send` always has `fin` set.
pub record Connection : Type 1 where
  pub World : Type 0
  pub is_server : World → Bool
  pub readable : World → List ℕ
  pub stream_recv : ℕ → World → Option (List ℕ × Bool) × World
  pub stream_send : ℕ → List ℕ → World → Option ℕ × World
  -- sends `()` to the receiver of a request
  pub notify : ℕ → World → Option (Unit {0}) × World

-- What a call says of a stream `j`, from the state before it to the one after it: `unread` counts
-- the bytes, and the end of the stream, that have arrived and were not read, and `outbox` is what
-- was taken for sending.
module _ {W : Type 0} (unread : W → ℕ → ℕ) (outbox : W → ℕ → List ℕ) where
  -- Reading sends nothing, and a read that succeeds takes something.
  abbrev pub Received : ℕ → W → Option (List ℕ × Bool) → W → Type 0
  Received i w none w' = (j : ℕ) → (unread w' j ≤ unread w j) × (outbox w' j ≡ outbox w j)
  Received i w (some _) w' =
      (unread w' i < unread w i)
      × ((j : ℕ) → (unread w' j ≤ unread w j) × (outbox w' j ≡ outbox w j))

  -- At most what was offered is taken, in order; a call that fails takes nothing.
  abbrev pub Sent : ℕ → List ℕ → W → Option ℕ → W → Type 0
  Sent i bytes w none w' = (j : ℕ) → outbox w' j ≡ outbox w j
  Sent i bytes w (some n) w' =
      (n ≤ length bytes)
      × (outbox w' i ≡ outbox w i ++ take n bytes)
      × ((j : ℕ) → (j == i) ≡ false → outbox w' j ≡ outbox w j)

pub record IsConnection (c : Connection) : Type 1 where
  pub unread : c.World → ℕ → ℕ
  pub outbox : c.World → ℕ → List ℕ
  pub role_law : (i : ℕ) (w : c.World) → c.is_server (c.stream_recv i w).1 ≡ c.is_server w
  pub recv_law :
      (i : ℕ) (w : c.World) → Received unread outbox i w (c.stream_recv i w).0 (c.stream_recv i w).1
  pub send_law :
      (i : ℕ) (bytes : List ℕ) (w : c.World)
      → Sent unread outbox i bytes w (c.stream_send i bytes w).0 (c.stream_send i bytes w).1

-- What a call leaves as it was: of which streams the end was read, and which receivers were sent to.
abbrev pub Unseen : {W : Type 0} → (W → ℕ → Bool) → (W → ℕ → Bool) → W → W → Type 0
Unseen ended told w w' =
    ((j : ℕ) → ended w j ≡ true → ended w' j ≡ true)
    × ((t : ℕ) → told w' t ≡ true → told w t ≡ true)

abbrev pub SeenEnd : {W : Type 0} → (W → ℕ → Bool) → ℕ → Option (List ℕ × Bool) → W → Type 0
SeenEnd ended i none w' = Unit
SeenEnd ended i (some (bytes, done)) w' = done ≡ true → ended w' i ≡ true

-- The documented behaviour of a connection and of the one-shot channels, seen from a client. Only a
-- send to a receiver makes it sent to, and a stream whose end was read stays so.
pub record IsChannelled (c : Connection) : Type 1 where
  pub ended : c.World → ℕ → Bool
  pub told : c.World → ℕ → Bool
  pub recv_role : (i : ℕ) (w : c.World) → c.is_server (c.stream_recv i w).1 ≡ c.is_server w
  pub recv_unseen : (i : ℕ) (w : c.World) → Unseen ended told w (c.stream_recv i w).1
  pub recv_end : (i : ℕ) (w : c.World) → SeenEnd ended i (c.stream_recv i w).0 (c.stream_recv i w).1
  pub send_role :
      (i : ℕ) (bytes : List ℕ) (w : c.World)
      → c.is_server (c.stream_send i bytes w).1 ≡ c.is_server w
  pub send_unseen :
      (i : ℕ) (bytes : List ℕ) (w : c.World) → Unseen ended told w (c.stream_send i bytes w).1
  pub notify_role : (t : ℕ) (w : c.World) → c.is_server (c.notify t w).1 ≡ c.is_server w
  pub notify_ended :
      (t : ℕ) (w : c.World) (j : ℕ) → ended w j ≡ true → ended (c.notify t w).1 j ≡ true
