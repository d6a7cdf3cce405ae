-- ===== src/Client/Stream.antt =====
-- evm-ingestion-client/client.go: `Stream`, over any number of connections.
use l1_data_tools.Common.{ℕ, Bool, List, [], ◌∷◌, ◌++◌, none, some, Bytes, if◌then◌else◌}
use l1_data_tools.Storage.Batch.{Zstd}
use l1_data_tools.Client.{Json, Block, read_pack, take_pack}

-- How one connection goes: it is refused, or it brings these frames and then an error; or the context
-- is done before it, or after its frames.
pub data Dial : Type 0 where
  refused : Dial
  opened : List Bytes → Dial
  done_before : Dial
  done_after : List Bytes → Dial

-- How `Stream` returns, if it does.
pub data Ended : Type 0 where
  streaming : Ended
  cancelled : Ended
  connect_failed : Ended
  read_failed : Ended
  handler_failed : Ended

module _ (j : Json) where
  -- The packs that the handler was called with, the position, and the end.
  pub record Streamed : Type 0 where
    pub packs : List (List (Block j))
    pub position : ℕ
    pub ended : Ended

  abbrev pub before : List (Block j) → Streamed → Streamed
  before pack rest = record rest { packs = pack ∷ rest.packs }

  -- The handler is called for a pack that is not empty; `later` is the rest of the loop.
  unfoldable pub handle : (List (Block j) → Bool) → ℕ → List (Block j) × ℕ → Streamed → Streamed
  handle handler current ([], next) later = later
  handle handler current (b ∷ pack, next) later =
      if handler (b ∷ pack)
      then before (b ∷ pack) later
      else record { packs = (b ∷ pack) ∷ []; position = current; ended = handler_failed }

  -- After a connection: `read_failed` goes on with the next one, if that is wanted.
  unfoldable pub resume : Bool → Streamed → (ℕ → Streamed) → Streamed
  resume reconnect s again = elim s.ended [
    | read_failed ↦
        (if reconnect
          then record (again s.position) { packs = s.packs ++ (again s.position).packs }
          else s)
    | other ↦ s
  ]

module _ (z : Zstd) (j : Json) (handler : List (Block j) → Bool) where
  -- The loop over the frames of a connection, and what comes after them.
  unfoldable pub read_loop : Ended → List Bytes → ℕ → Streamed j
  unfolding handle
  read_loop last [] current = record { packs = []; position = current; ended = last }
  read_loop last (frame ∷ frames) current = elim (read_pack z j frame) [
    | none ↦ record { packs = []; position = current; ended = read_failed }
    | some blocks ↦
        handle j handler current (take_pack j current blocks)
          (read_loop last frames (take_pack j current blocks).1)
  ]

  -- `dials` says, for each connection, how it goes if it asks for the blocks from a number on.
  unfoldable pub stream : Bool → List (ℕ → Dial) → ℕ → Streamed j
  unfolding read_loop resume
  stream reconnect [] current = record { packs = []; position = current; ended = streaming }
  stream reconnect (dial ∷ dials) current = elim (dial current) [
    | done_before ↦ record { packs = []; position = current; ended = cancelled }
    | refused ↦
        (if reconnect
          then stream reconnect dials current
          else record { packs = []; position = current; ended = connect_failed })
    | opened frames ↦
        resume j reconnect (read_loop read_failed frames current) (λ n. stream reconnect dials n)
    | done_after frames ↦
        resume j reconnect (read_loop cancelled frames current) (λ n. stream reconnect dials n)
  ]
