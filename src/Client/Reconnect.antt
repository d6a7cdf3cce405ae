-- ===== src/Client/Reconnect.antt =====
-- On evm-ingestion-client/client.go and evm-ingestion/api/server.go: a client that connects again and
-- again.
use l1_data_tools.Common.{
  ℕ, ◌+◌, ◌-◌, ◌≤◌, ◌<◌, ◌≡◌, refl, sym, ap, ap₂, ◌∙◌, inl, inr, Bool, true, List, [], ◌∷◌, ◌++◌,
  append_assoc, map, Option, none, some, arith, Bytes, u64, length, min, Option-cases, subst,
}
use l1_data_tools.Storage.Batch.{Zstd}
use l1_data_tools.Storage.Interface.{Storage}
use l1_data_tools.Api.{Round, frame, wait, stream_round}
use l1_data_tools.Client.{Json, Block, read_pack, take_pack}
use l1_data_tools.Client.Pack.{blocks, blocks-append, IsBlock}
use l1_data_tools.Client.Feed.{session, Growing, feed_in_order}
use l1_data_tools.Client.Stream.{
  Dial, refused, opened, streaming, read_failed, Streamed, handle, resume, read_loop, stream,
}
use l1_data_tools.Rpc.Fetcher.Chunks.{flatten}

module _ (z : Zstd) (st : Storage) where
  -- The frames of one connection, a round of the server for each state that it finds the storage in.
  unfoldable pub server_frames : List st.State → ℕ → List Bytes
  server_frames [] server = []
  server_frames (s ∷ states) server = elim (stream_round z st server s) [
    | wait ↦ server_frames states server
    | frame f next ↦ f ∷ server_frames states next
  ]

  -- A connection that is refused, or that the server serves until it breaks.
  abbrev pub dial_of : Option (List st.State) → ℕ → Dial
  dial_of none from = refused
  dial_of (some states) from = opened (server_frames states from)

module _ (z : Zstd) (st : Storage) (j : Json) where
  abbrev accepts : List (Block j) → Bool
  accepts pack = true

  -- The loop of the client does what the session says, and ends with the error.
  record IsSession (r : Streamed j) (p : List (Block j) × ℕ) : Type 0 where
    got : flatten r.packs ≡ p.0
    position : r.position ≡ p.1
    ended : r.ended ≡ read_failed

  IsSession-same :
      (r r' : Streamed j) (p p' : List (Block j) × ℕ)
      → r ≡ r'
      → p ≡ p'
      → IsSession r' p'
      → IsSession r p
  IsSession-same r r' p p' e e' h =
      subst (λ x. IsSession x p) (sym e) (subst (IsSession r') (sym e') h)

  handle-IsSession :
      (current : ℕ) (pack : List (Block j)) (next : ℕ) (later : Streamed j) (p : List (Block j) × ℕ)
      → IsSession later p
      → IsSession (handle j accepts current (pack, next) later) (pack ++ p.0, p.1)
  unfolding handle
  handle-IsSession current [] next later p h = record {
    got = h.got;
    position = h.position;
    ended = h.ended;
  }
  handle-IsSession current (b ∷ pack) next later p h = record {
    got = ap (λ l. (b ∷ pack) ++ l) h.got;
    position = h.position;
    ended = h.ended;
  }

  data RoundCases (r : Round) : Type 0 where
    is_wait : r ≡ wait → RoundCases r
    is_frame : (f : Bytes) (next : ℕ) → r ≡ frame f next → RoundCases r

  round_cases : (r : Round) → RoundCases r
  round_cases wait = is_wait refl
  round_cases (frame f next) = is_frame f next refl

  read_loop-IsSession :
      (states : List st.State) (server client : ℕ)
      → IsSession
          (read_loop z j accepts read_failed (server_frames z st states server) client)
          (session z st j states server client)
  unfolding read_loop server_frames session
  read_loop-IsSession [] server client = record { got = refl; position = refl; ended = refl }
  read_loop-IsSession (s ∷ states) server client = elim (round_cases (stream_round z st server s)) [
    | is_wait e ↦
        let frames : server_frames z st (s ∷ states) server ≡ server_frames z st states server =
          rw (e, server_frames) refl in
        let same : session z st j (s ∷ states) server client ≡ session z st j states server client =
          rw (e, session) refl in
        IsSession-same _ _ _ _ (ap (λ l. read_loop z j accepts read_failed l client) frames) same
          (read_loop-IsSession states server client)
    | is_frame f next e ↦
        let frames : server_frames z st (s ∷ states) server ≡ f ∷ server_frames z st states next =
          rw (e, server_frames) refl in
        subst
          (λ l.
            IsSession (read_loop z j accepts read_failed l client)
              (session z st j (s ∷ states) server client))
          (sym frames)
          (elim (Option-cases (read_pack z j f)) [
            | inl bad ↦
                let failed : read_loop z j accepts read_failed (f ∷ server_frames z st states next)
                      client
                    ≡ record { packs = []; position = client; ended = read_failed } =
                  rw (bad, read_loop) refl in
                let none_got : session z st j (s ∷ states) server client ≡ ([], client) =
                  rw (e, session) (rw (bad, session) refl) in
                IsSession-same _ _ _ _ failed none_got
                  (record { got = refl; position = refl; ended = refl })
            | inr (pack, good) ↦
                let taken = take_pack j client pack in
                let later = session z st j states next taken.1 in
                let handled : read_loop z j accepts read_failed (f ∷ server_frames z st states next)
                      client
                    ≡ handle j accepts client taken (
                        read_loop z j accepts read_failed (server_frames z st states next)
                          taken.1) =
                  rw (good, read_loop) refl in
                let got_more : session z st j (s ∷ states) server client
                    ≡ (taken.0 ++ later.0, later.1) =
                  rw (e, session) (rw (good, session) refl) in
                IsSession-same _ _ _ _ handled got_more (
                  handle-IsSession client taken.0 taken.1 _ later
                    (read_loop-IsSession states next taken.1))
          ])
  ]

flatten-append {ℓ} :
    {A : Type ℓ} → (xss yss : List (List A)) → flatten (xss ++ yss) ≡ flatten xss ++ flatten yss
flatten-append [] yss = refl
flatten-append (xs ∷ xss) yss =
    ap (λ l. xs ++ l) (flatten-append xss yss) ∙ sym (append_assoc xs (flatten xss) (flatten yss))

resume_again :
    (j : Json) (r : Streamed j) (again : ℕ → Streamed j)
    → r.ended ≡ read_failed
    → resume j true r again
      ≡ record (again r.position) { packs = r.packs ++ (again r.position).packs }
unfolding resume
resume_again j r again e = rw (e, resume) refl

module _ (z : Zstd) (st : Storage) (j : Json) (text_of : ℕ → Bytes) (block_of : ℕ → Block j)
    (top : ℕ) (fits : top + 200 < u64)
    (chain : (n : ℕ) → 1 ≤ n → n ≤ top → IsBlock j text_of block_of z n) where
  -- Connections over which the chain only grows, from `low` on, up to `top` at most.
  abbrev pub Links : ℕ → List (Option (List st.State)) → Type 0
  Links low [] = Unit
  Links low (none ∷ links) = Links low links
  Links low (some states ∷ links) =
      (tip : ℕ) × (low ≤ tip)
      × (tip ≤ top)
      × Growing z st j text_of block_of tip low states
      × Links tip links

  -- The rounds of all connections.
  abbrev pub rounds_of : List (Option (List st.State)) → ℕ
  rounds_of [] = 0
  rounds_of (none ∷ links) = rounds_of links
  rounds_of (some states ∷ links) = length states + rounds_of links

  -- What the handler got, over all packs: some number of blocks, in order, and the position behind
  -- them; at least one for each round, while there are any.
  pub record InOrder (links : List (Option (List st.State))) (c low : ℕ) : Type 0 where
    pub count : ℕ
    pub got :
        flatten (stream z j (accepts z st j) true (map (dial_of z st) links) c).packs
        ≡ blocks j text_of block_of c count
    pub position :
        (stream z j (accepts z st j) true (map (dial_of z st) links) c).position ≡ c + count
    pub ended : (stream z j (accepts z st j) true (map (dial_of z st) links) c).ended ≡ streaming
    pub enough : min (rounds_of links) (low + 1 - c) ≤ count

  -- A client that reconnects and whose handler does not fail, from block `c` on, at most one past the
  -- tip, over any number of connections, each of which is refused, or served for some rounds until it
  -- breaks: over all packs the handler gets the blocks from `c` on, consecutive and without a gap or a
  -- double; at least one for each round while there are any; and the client goes on. In each round the
  -- storage serves the chain up to some tip, which never falls; the blocks of the chain are lines of
  -- JSON with their numbers, and the numbers are away from the wrap-around.
  pub stream-InOrder :
      (links : List (Option (List st.State))) (low c : ℕ)
      → Links low links
      → low ≤ top
      → 1 ≤ c
      → c ≤ low + 1
      → InOrder links c low
  unfolding stream blocks
  stream-InOrder [] low c h hl lo hi = record {
    count = 0;
    got = refl;
    position = omega arith;
    ended = refl;
    enough = omega arith;
  }
  stream-InOrder (none ∷ links) low c h hl lo hi =
      let rest = stream-InOrder links low c h hl lo hi in
      record {
        count = rest.count;
        got = rest.got;
        position = rest.position;
        ended = rest.ended;
        enough = rest.enough;
      }
  stream-InOrder (some states ∷ links) low c (tip, up, ht, grows, later) hl lo hi =
      let sent =
        feed_in_order z st j text_of block_of tip (omega (arith, fits))
          (λ n a b. chain n a (omega arith)) states low c grows up lo hi in
      let loop = read_loop-IsSession z st j states c c in
      let rest = stream-InOrder links tip (c + sent.count) later ht (omega arith) sent.bounded in
      let again : ℕ → Streamed j =
        λ n. stream z j (accepts z st j) true (map (dial_of z st) links) n in
      let r : Streamed j =
        read_loop z j (accepts z st j) read_failed (server_frames z st states c) c in
      let there : r.position ≡ c + sent.count =
        loop.position ∙ ap (λ (p : List (Block j) × ℕ). p.1) sent.result in
      let whole : stream z j (accepts z st j) true (map (dial_of z st) (some states ∷ links)) c
          ≡ record (again (c + sent.count)) { packs = r.packs ++ (again (c + sent.count)).packs } =
        resume_again j r again loop.ended
        ∙ ap (λ n. record (again n) { packs = r.packs ++ (again n).packs }) there in
      record {
        count = sent.count + rest.count;
        got =
            ap (λ (x : Streamed j). flatten x.packs) whole
            ∙ flatten-append r.packs (again (c + sent.count)).packs
            ∙ ap₂ (λ l m. l ++ m) (loop.got ∙ ap (λ (p : List (Block j) × ℕ). p.0) sent.result)
                rest.got
            ∙ blocks-append j text_of block_of c sent.count rest.count;
        position = ap (λ (x : Streamed j). x.position) whole ∙ rest.position ∙ omega arith;
        ended = ap (λ (x : Streamed j). x.ended) whole ∙ rest.ended;
        enough = omega (arith, sent.enough, rest.enough);
      }
