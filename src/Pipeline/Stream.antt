-- ===== src/Pipeline/Stream.antt =====
-- The whole of the program: a client of evm-ingestion-client/client.go that reads from the server of
-- evm-ingestion/api/server.go while the loop and the compactor write.
use l1_data_tools.Common.{
  ℕ, ◌+◌, ◌-◌, ◌≤◌, ◌<◌, ◌≡◌, sym, ap, ◌∙◌, inl, inr, List, [], ◌∷◌, Option, none, some, arith,
  Bytes, u64, Option-cases, subst,
}
use l1_data_tools.Storage.Batch.{Zstd, batch_start}
use l1_data_tools.Storage.Batch.Bounds.{batch_start_closed}
use l1_data_tools.Storage.Interface.{Storage, IsStorage}
use l1_data_tools.Storage.Compactor.ReadBack.{batch_start_room}
use l1_data_tools.Ingestion.{Codec}
use l1_data_tools.Client.{Json, Block}
use l1_data_tools.Client.Pack.{IsBlock}
use l1_data_tools.Client.Feed.{Serves, single, batched, Growing}
use l1_data_tools.Client.Reconnect.{Links, InOrder, stream-InOrder}
use l1_data_tools.Pipeline.{Config, Steps, here, next, IsFresh}
use l1_data_tools.Pipeline.Sound.{IsReady, IsSound}
use l1_data_tools.Pipeline.Moves.{Step-IsSound, Step-current}

module _ (z : Zstd) (st : Storage) (c : Codec) (text_of : ℕ → Bytes) (top : ℕ) where
  -- The storage as the server finds it in each round of a connection, while the program goes on.
  abbrev pub Seen : Config st → List st.State → Config st → Type 0
  Seen p [] q = Steps z st c text_of top p q
  Seen p (s ∷ states) q =
      (r : Config st) × Steps z st c text_of top p r × (s ≡ r.ingest.store) × Seen r states q

  -- The connections of a client: refused, or with what the server finds in each of their rounds.
  abbrev pub Watched : Config st → List (Option (List st.State)) → Type 0
  Watched p [] = Unit
  Watched p (none ∷ links) = (q : Config st) × Steps z st c text_of top p q × Watched q links
  Watched p (some states ∷ links) = (q : Config st) × Seen p states q × Watched q links

pub narrow : (top : ℕ) → top + 1400 < u64 → top + 200 < u64
narrow top fits = omega arith

module _ (z : Zstd) (st : Storage) (laws : IsStorage st) (c : Codec) (j : Json)
    (text_of : ℕ → Bytes) (block_of : ℕ → Block j) (top : ℕ) (fits : top + 1400 < u64) where
  abbrev Sound : Config st → Type 0
  Sound p = IsSound z st j text_of block_of p.ingest.store p.phase p.ingest.current

  -- The storage serves what the loop has saved.
  IsSound-Serves :
      (p : Config st)
      → p.ingest.current ≤ top + 1
      → Sound p
      → Serves z st j text_of block_of (p.ingest.current - 1) p.ingest.store
  IsSound-Serves p hi h = record {
    holds = λ n lo le. elim (Option-cases (st.get_block n p.ingest.store)) [
      | inr (d, there) ↦ single (there ∙ ap some (h.blocks n d (omega arith) there).2)
      | inl gone ↦ elim (h.found n lo (omega (arith, h.positive))) [
        | inl by_itself ↦ cc (sym gone ∙ by_itself)
        | inr (frame, there) ↦
            let f = h.batches (batch_start n) frame (batch_start_room n lo (omega arith)) there in
            batched frame gone there f.full f.decoded (omega (arith, f.behind))
      ]
    ];
    no_block = elim (Option-cases (st.get_block (p.ingest.current - 1 + 1) p.ingest.store)) [
      | inl gone ↦ gone
      | inr (d, there) ↦
          absurd (
            omega
              (arith, h.positive, (h.blocks (p.ingest.current - 1 + 1) d (omega arith) there).1))
    ];
    no_batch =
        elim (Option-cases
          (st.get_batch_compressed (batch_start (p.ingest.current - 1 + 1)) p.ingest.store)) [
            | inl gone ↦ gone
            | inr (frame, there) ↦
                let n = p.ingest.current - 1 + 1 in
                let f =
                  h.batches (batch_start n) frame (batch_start_room n (omega arith) (omega arith))
                    there in
                absurd (
                  omega
                    (arith, h.positive, f.behind, batch_start_closed n (omega arith) (omega arith)))
          ];
  }

  -- The program goes on from `p` to `q`.
  abbrev Ahead : Config st → Config st → Type 0
  Ahead p q = Sound q × (p.ingest.current ≤ q.ingest.current) × (q.ingest.current ≤ top + 1)

  Steps-Ahead :
      (p q : Config st)
      → p.ingest.current ≤ top + 1
      → Sound p
      → Steps z st c text_of top p q
      → Ahead p q
  Steps-Ahead p q hi h here = (h, omega arith, hi)
  Steps-Ahead p q hi h (next r q' steps step) =
      let (sound, up, low) = Steps-Ahead p r hi h steps in
      let (moved, end) =
        Step-current z st laws j text_of block_of c top r q (omega arith) low step in
      (
        Step-IsSound z st laws j text_of block_of c top r q (omega arith) step sound,
        omega arith,
        end,
      )

  -- Each connection finds a storage that serves a growing chain.
  Seen-Growing :
      (p q : Config st) (low : ℕ) (states : List st.State)
      → p.ingest.current ≤ top + 1
      → low + 1 ≤ p.ingest.current
      → Sound p
      → Seen z st c text_of top p states q
      → Growing z st j text_of block_of (q.ingest.current - 1) low states × Ahead p q
  Seen-Growing p q low [] hi lo h steps = (tt, Steps-Ahead p q hi h steps)
  Seen-Growing p q low (s ∷ states) hi lo h (r, steps, same, seen) =
      let (sound, up, low') = Steps-Ahead p r hi h steps in
      let (grows, (end, further, last)) =
        Seen-Growing r q (r.ingest.current - 1) states low' (omega (arith, sound.positive)) sound
          seen in
      (
        (
          r.ingest.current - 1,
          omega arith,
          omega arith,
          subst (Serves z st j text_of block_of (r.ingest.current - 1)) (sym same)
              (IsSound-Serves r low' sound),
          grows,
        ),
        (end, omega arith, last),
      )

  IsFresh-Sound : (p : Config st) → IsFresh st p → Sound p
  IsFresh-Sound p fresh = record {
    blocks = λ n d hn found. cc (sym (fresh.no_block n) ∙ found);
    batches = λ a frame ha found. cc (sym (fresh.no_batch a) ∙ found);
    found = λ n lo hi. absurd (omega (arith, fresh.current));
    ready =
        subst (λ ph. IsReady z st j text_of block_of ph p.ingest.store p.ingest.current)
          (sym fresh.phase) tt;
    positive = omega (arith, fresh.current);
  }

  module _ (chain : (n : ℕ) → 1 ≤ n → n ≤ top → IsBlock j text_of block_of z n) where
    Links-low :
        (low low' : ℕ) (links : List (Option (List st.State)))
        → low ≤ low'
        → Links z st j text_of block_of top (narrow top fits) chain low' links
        → Links z st j text_of block_of top (narrow top fits) chain low links
    Links-low low low' [] le h = tt
    Links-low low low' (none ∷ links) le h = Links-low low low' links le h
    Links-low low low' (some [] ∷ links) le (tip, up, hi, grows, more) =
        (tip, omega arith, hi, tt, more)
    Links-low low low' (some (s ∷ states) ∷ links) le
          (tip, up, hi, (t, a, b, serves, grows), more) =
        (tip, omega arith, hi, (t, omega arith, b, serves, grows), more)

    Watched-Links :
        (p : Config st) (links : List (Option (List st.State)))
        → p.ingest.current ≤ top + 1
        → Sound p
        → Watched z st c text_of top p links
        → Links z st j text_of block_of top (narrow top fits) chain (p.ingest.current - 1) links
    Watched-Links p [] hi h w = tt
    Watched-Links p (none ∷ links) hi h (q, steps, w) =
        let (sound, up, low) = Steps-Ahead p q hi h steps in
        Links-low (p.ingest.current - 1) (q.ingest.current - 1) links (omega arith)
          (Watched-Links q links low sound w)
    Watched-Links p (some states ∷ links) hi h (q, seen, w) =
        let (grows, (sound, up, low)) =
          Seen-Growing p q (p.ingest.current - 1) states hi (omega (arith, h.positive)) h seen in
        (q.ingest.current - 1, omega arith, omega arith, grows, Watched-Links q links low sound w)

    -- From an empty storage on the loop saves the blocks of the chain, and the compactor compacts, each
    -- write at any time between the others and failing or not. A client that reconnects and whose handler
    -- does not fail, from a block on that is saved, or from the next: over any number of connections
    -- that are refused or break after some rounds it gets over all packs consecutive blocks of the
    -- chain, without a gap or a double, at least one in each round while there were any when it
    -- began, and it goes on. The blocks of the chain are lines of JSON with their numbers, away from the
    -- wrap-around.
    pub stream-Program :
        (p q : Config st) (links : List (Option (List st.State))) (n : ℕ)
        → IsFresh st p
        → Steps z st c text_of top p q
        → Watched z st c text_of top q links
        → 1 ≤ n
        → n ≤ q.ingest.current
        → InOrder z st j text_of block_of top (narrow top fits) chain links n (q.ingest.current - 1)
    stream-Program p q links n fresh steps watched lo hi =
        let (sound, up, low) =
          Steps-Ahead p q (omega (arith, fresh.current)) (IsFresh-Sound p fresh) steps in
        stream-InOrder z st j text_of block_of top (narrow top fits) chain links
          (q.ingest.current - 1) n (Watched-Links q links low sound watched) (omega arith) lo
          (omega (arith, sound.positive))
