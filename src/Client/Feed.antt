-- ===== src/Client/Feed.antt =====
-- Server and client together: what the handler of a connected client gets.
use l1_data_tools.Common.{
  ℕ, ◌+◌, ◌-◌, ◌≤◌, ◌<◌, ◌≡◌, refl, sym, ap, ap₂, ◌∙◌, true, List, [], ◌∷◌, ◌++◌, none, some, arith,
  Bytes, u64, add64, length, min, ltb,
}
use native.Mathlib.Decide.{dec_le}
use l1_data_tools.Storage.Batch.{Zstd, newline, jsonl, batch_size, batch_start}
use l1_data_tools.Storage.Batch.Bounds.{batch_start_closed}
use l1_data_tools.Storage.Interface.{Storage}
use l1_data_tools.Api.{frame, wait, stream_round, send_block, send_batch}
use l1_data_tools.Client.{Json, Block, read_pack, take_pack}
use l1_data_tools.Client.Pack.{
  texts, blocks, blocks-append, IsBlock, read_pack-texts, take_pack-blocks,
}

module _ (z : Zstd) (st : Storage) (j : Json) where
  -- One connection, a round for each state that the server finds the storage in: the server sends
  -- from its position, the client takes the pack at its own. A frame that the client cannot read
  -- ends the connection. The result is what the handler got, and the client's position.
  unfoldable pub session : List st.State → ℕ → ℕ → List (Block j) × ℕ
  session [] server client = ([], client)
  session (s ∷ states) server client = elim (stream_round z st server s) [
    | wait ↦ session states server client
    | frame f next ↦ elim (read_pack z j f) [
      | none ↦ ([], client)
      | some pack ↦
          (let (got, client') = take_pack j client pack in
            let (more, end) = session states next client' in (got ++ more, end))
    ]
  ]

module _ (z : Zstd) (st : Storage) (j : Json) (text_of : ℕ → Bytes) (block_of : ℕ → Block j) where
  -- The storage has block `n` of the chain, by itself or in its batch.
  pub data Holds (tip : ℕ) (s : st.State) (n : ℕ) : Type 0 where
    single : st.get_block n s ≡ some (text_of n) → Holds tip s n
    batched :
        (f : Bytes)
        → st.get_block n s ≡ none
        → st.get_batch_compressed (batch_start n) s ≡ some f
        → 0 < length f
        → z.decode f ≡ some (jsonl (texts j text_of block_of (batch_start n) batch_size))
        → batch_start n + 99 ≤ tip
        → Holds tip s n

  -- The storage has the blocks 1 to `tip`, and nothing for the next.
  pub record Serves (tip : ℕ) (s : st.State) : Type 0 where
    pub holds : (n : ℕ) → 1 ≤ n → n ≤ tip → Holds tip s n
    pub no_block : st.get_block (tip + 1) s ≡ none
    pub no_batch : st.get_batch_compressed (batch_start (tip + 1)) s ≡ none

  -- States in which the chain only grows, from `low` on, up to `top` at most.
  abbrev pub Growing : ℕ → ℕ → List st.State → Type 0
  Growing top low [] = Unit
  Growing top low (s ∷ states) =
      (tip : ℕ) × (low ≤ tip) × (tip ≤ top) × Serves tip s × Growing top tip states

  -- A round at a block that the storage has: the frame's blocks from the position on are the next
  -- blocks of the chain, and both positions move behind them.
  pub record Sent (tip : ℕ) (s : st.State) (c : ℕ) : Type 0 where
    pub f : Bytes
    pub next : ℕ
    pub pack : List (Block j)
    pub sends : stream_round z st c s ≡ frame f next
    pub reads : read_pack z j f ≡ some pack
    pub takes : take_pack j c pack ≡ (blocks j text_of block_of c (next - c), next)
    pub moves : c < next
    pub stays : next ≤ tip + 1

  send_single :
      (s : st.State) (c : ℕ) (d : Bytes)
      → 0 < length d
      → c + 1 < u64
      → st.get_block c s ≡ some d
      → stream_round z st c s ≡ frame (z.encode_all (d ++ newline ∷ [])) (c + 1)
  unfolding stream_round
  send_single s c d full fits e =
      let filled : ltb 0 (length d) ≡ true = ground arith in
      let next : add64 c 1 ≡ c + 1 = omega arith in rw (e, send_block) (rw filled (rw next refl))

  send_batched :
      (s : st.State) (c : ℕ) (f : Bytes)
      → 0 < length f
      → batch_start c + 100 < u64
      → st.get_block c s ≡ none
      → st.get_batch_compressed (batch_start c) s ≡ some f
      → stream_round z st c s ≡ frame f (batch_start c + 100)
  unfolding stream_round
  send_batched s c f full fits e b =
      let filled : ltb 0 (length f) ≡ true = ground arith in
      let next : add64 (batch_start c) batch_size ≡ batch_start c + 100 = omega arith in
      rw (e, send_block) (rw (b, send_batch) (rw filled (rw next refl)))

  jsonl_one : (c : ℕ) → jsonl (texts j text_of block_of c 1) ≡ text_of c ++ newline ∷ []
  unfolding jsonl texts
  jsonl_one c = refl

  module _ (top : ℕ) (fits : top + 200 < u64)
      (chain : (n : ℕ) → 1 ≤ n → n ≤ top → IsBlock j text_of block_of z n) where
    pub send :
        (tip : ℕ) (s : st.State) (c : ℕ)
        → tip ≤ top
        → 1 ≤ c
        → c ≤ tip
        → Holds tip s c
        → Sent tip s c
    send tip s c ht lo hi (single e) = record {
      f = z.encode_all (text_of c ++ newline ∷ []);
      next = c + 1;
      pack = blocks j text_of block_of c 1;
      sends = send_single s c (text_of c) (chain c lo (omega arith)).line.filled (omega arith) e;
      reads =
          read_pack-texts z j text_of block_of c 1 _
            (λ i lo' hi'. chain i (omega arith) (omega arith))
            (z.decode-encode_all _ ∙ ap some (sym (jsonl_one c)));
      takes =
          take_pack-blocks j text_of block_of c 1 c (omega arith) (omega arith) (omega arith)
            (λ i lo' hi'. (chain i (omega arith) (omega arith)).numbered);
      moves = omega arith;
      stays = omega arith;
    }
    send tip s c ht lo hi (batched f e b full text whole) =
        let closed = batch_start_closed c lo (omega arith) in
        record {
          f = f;
          next = batch_start c + 100;
          pack = blocks j text_of block_of (batch_start c) 100;
          sends = send_batched s c f full (omega arith) e b;
          reads =
              read_pack-texts z j text_of block_of (batch_start c) 100 f
                (λ i lo' hi'. chain i (omega arith) (omega arith)) text;
          takes =
              take_pack-blocks j text_of block_of (batch_start c) 100 c (omega arith) (omega arith)
                (omega arith) (λ i lo' hi'. (chain i (omega arith) (omega arith)).numbered);
          moves = omega arith;
          stays = omega arith;
        }

    -- At the tip the server waits.
    waits : (tip : ℕ) (s : st.State) → Serves tip s → stream_round z st (tip + 1) s ≡ wait
    unfolding stream_round
    waits tip s h = rw (h.no_block, send_block) (rw (h.no_batch, send_batch) refl)

    pub waits_at :
        (tip : ℕ) (s : st.State) (c : ℕ) → Serves tip s → c ≡ tip + 1 → stream_round z st c s ≡ wait
    waits_at tip s c h e = ap (λ n. stream_round z st n s) e ∙ waits tip s h

    -- What a connection delivers: some number of blocks, in order, and the position behind them.
    pub record Delivered (states : List st.State) (c low : ℕ) : Type 0 where
      pub count : ℕ
      pub result : session z st j states c c ≡ (blocks j text_of block_of c count, c + count)
      pub enough : min (length states) (low + 1 - c) ≤ count
      pub bounded : c + count ≤ top + 1

    feed-cons :
        (tip : ℕ) (s : st.State) (states : List st.State) (c : ℕ) (sent : Sent tip s c)
        → (rest : Delivered states sent.next tip)
        → session z st j (s ∷ states) c c ≡ (
          blocks j text_of block_of c (sent.next - c + rest.count),
          c + (sent.next - c + rest.count),
        )
    unfolding session
    feed-cons tip s states c sent rest =
        let k = sent.next - c in
        let there : sent.next ≡ c + k = omega (arith, sent.moves) in
        let both : blocks j text_of block_of c k ++ blocks j text_of block_of sent.next rest.count
            ≡ blocks j text_of block_of c (k + rest.count) =
          ap (λ n. blocks j text_of block_of c k ++ blocks j text_of block_of n rest.count) there
          ∙ blocks-append j text_of block_of c k rest.count in
        rw (sent.sends, session)
          (rw (sent.reads, session)
            (rw sent.takes (rw rest.result (ap₂ (λ l n. (l, n)) both (omega (arith, sent.moves))))))

    -- A client that connects at block `c`, at most one past the tip, gets the blocks from `c` on,
    -- consecutive and without a gap or a double, whatever mix of single blocks and batches the
    -- storage holds in each round; and at least one in each round while there are any. In each round
    -- the storage serves the chain up to some tip, which never falls; the blocks of the chain are
    -- lines of JSON with their numbers, and the numbers are away from the wrap-around.
    pub feed_in_order :
        (states : List st.State) (low c : ℕ)
        → Growing top low states
        → low ≤ top
        → 1 ≤ c
        → c ≤ low + 1
        → Delivered states c low
    unfolding session blocks
    feed_in_order [] low c h hl lo hi = record {
      count = 0;
      result = ap (λ n. ([], n)) (omega arith);
      enough = omega arith;
      bounded = omega arith;
    }
    feed_in_order (s ∷ states) low c (tip, up, ht, serves, later) hl lo hi = elim (dec_le c tip) [
      | yes below ↦
          let sent = send tip s c ht lo below (serves.holds c lo below) in
          let rest =
            feed_in_order states tip sent.next later ht (omega (arith, sent.moves)) sent.stays in
          record {
            count = sent.next - c + rest.count;
            result = feed-cons tip s states c sent rest;
            enough = omega (arith, sent.moves, rest.enough);
            bounded = omega (arith, sent.moves, rest.bounded);
          }
      | no above ↦
          let rest = feed_in_order states tip c later ht lo (omega arith) in
          record {
            count = rest.count;
            result = rw (waits_at tip s c serves (omega arith), session) rest.result;
            enough = omega (arith, rest.enough);
            bounded = rest.bounded;
          }
    ]
