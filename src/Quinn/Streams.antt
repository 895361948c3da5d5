-- ===== src/Quinn/Streams.antt =====
-- What iut/quinn uses of a bidirectional stream of the crate quinn, and the documented behaviour.
use nesquic.Prelude.{ℕ, ◌≤◌, ◌≡◌, Bool, true, Option, none, some, List, ◌++◌, length}

-- A call returns `none` for `Err`, and the state of the stream after it.
pub record Streams : Type 1 where
  pub World : Type 0
  -- all that the peer sends, up to a limit
  pub read_to_end : ℕ → World → Option (List ℕ) × World
  -- `write_all` and `write_chunk`
  pub write : List ℕ → World → Option (Unit {0}) × World
  pub finish : World → Option (Unit {0}) × World

-- What an observer sees of a stream: what the peer has sent up to its end, what was written, and
-- whether that was finished.
pub record View : Type 0 where
  pub incoming : List ℕ
  pub written : List ℕ
  pub finished : Bool

abbrev pub Read : ℕ → View → Option (List ℕ) → View → Type 0
Read limit v none v' = v' ≡ v
Read limit v (some bytes) v' = (bytes ≡ v.incoming) × (length bytes ≤ limit) × (v' ≡ v)

-- A failed write may have written a part.
abbrev pub Written : List ℕ → View → Option (Unit {0}) → View → Type 0
Written bytes v none v' = v'.finished ≡ v.finished
Written bytes v (some _) v' = v' ≡ record v { written = v.written ++ bytes }

abbrev pub Finished : View → Option (Unit {0}) → View → Type 0
Finished v none v' = v' ≡ v
Finished v (some _) v' = v' ≡ record v { finished = true }

pub record IsStreams (s : Streams) : Type 1 where
  pub view : s.World → View
  pub read_law :
      (limit : ℕ) (w : s.World)
      → Read limit (view w) (s.read_to_end limit w).0 (view (s.read_to_end limit w).1)
  pub write_law :
      (bytes : List ℕ) (w : s.World)
      → Written bytes (view w) (s.write bytes w).0 (view (s.write bytes w).1)
  pub finish_law : (w : s.World) → Finished (view w) (s.finish w).0 (view (s.finish w).1)
