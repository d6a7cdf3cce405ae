-- ===== src/Client/Example/Order.antt =====
-- On evm-ingestion-client/example/main.go: the example against the server of evm-ingestion/api/server.go,
-- over any number of connections.
use l1_data_tools.Common.{
  ℕ, ◌+◌, ◌-◌, ◌≤◌, ◌<◌, ◌≡◌, refl, ap, ◌∙◌, List, [], ◌∷◌, Option, none, some, arith, Bytes, u64,
  add64, sub64, length, min, >>=-eq-some, map, subst,
}
use native.Mathlib.Decide.{dec_le}
use l1_data_tools.Storage.Batch.{Zstd, newline}
use l1_data_tools.Storage.Interface.{Storage}
use l1_data_tools.Storage.Keys.{split}
use l1_data_tools.Client.{Json, Block, read_pack, take_pack, not_below}
use l1_data_tools.Client.Pack.{blocks, IsBlock}
use l1_data_tools.Client.Feed.{Sent, Growing, send, waits_at}
use l1_data_tools.Client.Reconnect.{server_frames, Links, rounds_of}
use l1_data_tools.Client.Example.{
  Totals, Progress, going, broken, each_line, each_frame, reconnect, run_example,
}
use l1_data_tools.Client.Example.Steady.{Counts, each_line-parse, each_block-Counts}

-- What a connection brings, if it asks for the blocks from a number on: nothing, or what the server
-- sends in its rounds.
abbrev pub brings : (z : Zstd) (st : Storage) → Option (List st.State) → ℕ → Option (List Bytes)
brings z st none from = none
brings z st (some states) from = some (server_frames z st states from)

module _ (z : Zstd) (st : Storage) (j : Json) (transactions : j.Value → ℕ) (text_of : ℕ → Bytes)
    (block_of : ℕ → Block j) (top : ℕ) (fits : top + 200 < u64)
    (chain : (n : ℕ) → 1 ≤ n → n ≤ top → IsBlock j text_of block_of z n) where
  each_frame-going :
      (f text : Bytes) (frames : List Bytes) (c next : ℕ) (s s' : Totals)
      → z.decode f ≡ some text
      → each_line z j transactions (split text newline) c s ≡ going next s'
      → each_frame z j transactions (f ∷ frames) c s ≡ each_frame z j transactions frames next s'
  unfolding each_frame
  each_frame-going f text frames c next s s' e e' = rw (e, each_frame) (rw (e', each_frame) refl)

  -- A frame that the server sends is taken as a whole.
  Sent-Counts :
      (from tip c : ℕ) (st' : st.State) (frames : List Bytes) (s : Totals)
      → tip ≤ top
      → 1 ≤ c
      → (sent : Sent z st j text_of block_of tip st' c) → Counts z j transactions from c s
      → (s' : Totals) × (each_frame z j transactions (sent.f ∷ frames) c s
          ≡ each_frame z j transactions frames sent.next s')
        × Counts z j transactions from sent.next s'
  unfolding read_pack take_pack
  Sent-Counts from tip c st' frames s ht lo sent counts =
      let (text, decoded, parsed) = >>=-eq-some (z.decode sent.f) _ sent.reads in
      let kept : not_below j c sent.pack ≡ blocks j text_of block_of c (sent.next - c) =
        ap (λ (p : List (Block j) × ℕ). p.0) sent.takes in
      let (s', goes, counts') =
        each_block-Counts z j transactions text_of block_of from c c sent.pack (sent.next - c) s
          (omega arith) kept
          (λ i lo' hi'. (chain i (omega arith) (omega (arith, sent.moves, sent.stays))).numbered)
          (omega (arith, sent.moves, sent.stays)) counts in
      let there : c + (sent.next - c) ≡ sent.next = omega (arith, sent.moves) in
      (
        s',
        each_frame-going sent.f text frames c sent.next s s' decoded (
            each_line-parse z j transactions (split text newline) sent.pack c s parsed
            ∙ goes
            ∙ ap (λ n. going n s') there),
        subst (λ n. Counts z j transactions from n s') there counts',
      )

  -- A connection ends with an error of reading, and the blocks before some position are counted.
  record Brought (from low c rounds : ℕ) (r : Progress) : Type 0 where
    next : ℕ
    stats : Totals
    ended : r ≡ broken stats
    counts : Counts z j transactions from next stats
    enough : c + min rounds (low + 1 - c) ≤ next
    bounded : next ≤ top + 1

  connection-Brought :
      (states : List st.State) (from low c : ℕ) (s : Totals)
      → Growing z st j text_of block_of top low states
      → low ≤ top
      → 1 ≤ c
      → c ≤ low + 1
      → Counts z j transactions from c s
      → Brought from low c
          (length states)
          (each_frame z j transactions (server_frames z st states c) c s)
  unfolding server_frames
  connection-Brought [] from low c s h hl lo hi counts = record {
    next = c;
    stats = s;
    ended = unfold each_frame in refl;
    counts = counts;
    enough = omega arith;
    bounded = omega arith;
  }
  connection-Brought (x ∷ states) from low c s (tip, up, ht, serves, later) hl lo hi counts =
      elim (dec_le c tip) [
        | yes below ↦
            let sent =
              send z st j text_of block_of top fits chain tip x c ht lo below
                (serves.holds c lo below) in
            let frames = server_frames z st states sent.next in
            let (s', goes, counts') = Sent-Counts from tip c x frames s ht lo sent counts in
            let rest =
              connection-Brought states from tip sent.next s' later ht (omega (arith, sent.moves))
                sent.stays counts' in
            let whole : server_frames z st (x ∷ states) c ≡ sent.f ∷ frames =
              rw (sent.sends, server_frames) refl in
            record {
              next = rest.next;
              stats = rest.stats;
              ended = ap (λ l. each_frame z j transactions l c s) whole ∙ goes ∙ rest.ended;
              counts = rest.counts;
              enough = omega (arith, sent.moves, rest.enough);
              bounded = rest.bounded;
            }
        | no above ↦
            let rest = connection-Brought states from tip c s later ht lo (omega arith) counts in
            let whole : server_frames z st (x ∷ states) c ≡ server_frames z st states c =
              rw
                (
                  waits_at z st j text_of block_of top fits chain tip x c serves (omega arith),
                  server_frames,
                )
                refl in
            record {
              next = rest.next;
              stats = rest.stats;
              ended = ap (λ l. each_frame z j transactions l c s) whole ∙ rest.ended;
              counts = rest.counts;
              enough = omega (arith, rest.enough);
              bounded = rest.bounded;
            }
      ]

module _ (z : Zstd) (st : Storage) (j : Json) (transactions : j.Value → ℕ) (text_of : ℕ → Bytes)
    (block_of : ℕ → Block j) (top : ℕ) (fits : top + 200 < u64)
    (chain : (n : ℕ) → 1 ≤ n → n ≤ top → IsBlock j text_of block_of z n) where
  reconnect-broken :
      (dial : ℕ → Option (List Bytes)) (dials : List (ℕ → Option (List Bytes)))
      (frames : List Bytes) (s s' : Totals)
      → dial (add64 s.last_block 1) ≡ some frames
      → each_frame z j transactions frames (add64 s.last_block 1) s ≡ broken s'
      → reconnect z j transactions (dial ∷ dials) s ≡ reconnect z j transactions dials s'
  unfolding reconnect
  reconnect-broken dial dials frames s s' e e' = rw (e, reconnect) (rw (e', reconnect) refl)

  -- The program goes on, and the blocks before some position are counted.
  pub record Followed (from c enough : ℕ) (r : Option Totals) : Type 0 where
    pub next : ℕ
    pub stats : Totals
    pub runs : r ≡ some stats
    pub counts : Counts z j transactions from next stats
    pub far : c + enough ≤ next

  reconnect-Followed :
      (links : List (Option (List st.State))) (from low c : ℕ) (s : Totals)
      → Links z st j text_of block_of top fits chain low links
      → low ≤ top
      → 1 ≤ c
      → c ≤ low + 1
      → Counts z j transactions from c s
      → Followed from c
          (min (rounds_of z st j text_of block_of top fits chain links) (low + 1 - c))
          (reconnect z j transactions (map (brings z st) links) s)
  unfolding reconnect
  reconnect-Followed [] from low c s h hl lo hi counts = record {
    next = c;
    stats = s;
    runs = refl;
    counts = counts;
    far = omega arith;
  }
  reconnect-Followed (none ∷ links) from low c s h hl lo hi counts =
      let rest = reconnect-Followed links from low c s h hl lo hi counts in
      record {
        next = rest.next;
        stats = rest.stats;
        runs = rest.runs;
        counts = rest.counts;
        far = rest.far;
      }
  reconnect-Followed (some states ∷ links) from low c s (tip, up, ht, grows, later) hl lo hi
        counts =
      let position : add64 s.last_block 1 ≡ c = omega (arith, counts.last) in
      let here =
        connection-Brought z st j transactions text_of block_of tip (omega (arith, fits))
          (λ n a b. chain n a (omega arith)) states from low c s grows up lo hi counts in
      let rest =
        reconnect-Followed links from tip here.next here.stats later ht (omega (arith, here.enough))
          here.bounded here.counts in
      record {
        next = rest.next;
        stats = rest.stats;
        runs =
            reconnect-broken (brings z st (some states)) (map (brings z st) links)
              (server_frames z st states c) s here.stats
              (ap (λ n. some (server_frames z st states n)) position)
              (ap (λ n. each_frame z j transactions (server_frames z st states c) n s) position
                ∙ here.ended)
            ∙ rest.runs;
        counts = rest.counts;
        far = omega (arith, here.enough, rest.far);
      }

  -- The example, started from a block that is saved or the next, against the server, over any number of
  -- connections that are refused or break after some rounds: it never ends itself over the order
  -- of the blocks. Its last block is the one before some position, its total is the number of blocks
  -- from the first to there, and the position moves by one at least in each round while there are any
  -- blocks. In each round the storage serves the chain up to some tip, which never falls; the blocks of
  -- the chain are lines of JSON with their numbers, away from the wrap-around.
  pub run_example-Followed :
      (links : List (Option (List st.State))) (low from : ℕ)
      → Links z st j text_of block_of top fits chain low links
      → low ≤ top
      → 1 ≤ from
      → from ≤ low + 1
      → Followed from from
          (min (rounds_of z st j text_of block_of top fits chain links) (low + 1 - from))
          (run_example z j transactions from (map (brings z st) links))
  unfolding run_example
  run_example-Followed links low from h hl lo hi =
      reconnect-Followed links from low from
        (record { last_block = sub64 from 1; total_blocks = 0; total_txs = 0 }) h hl lo hi
        (record { last = omega arith; total = omega arith; positive = lo })
