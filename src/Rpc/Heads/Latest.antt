-- ===== src/Rpc/Heads/Latest.antt =====
-- On evm-ingestion/rpc/heads.go: the number that the tracker holds after its messages.
use l1_data_tools.Common.{
  ℕ, ◌≤◌, ◌≡◌, ◌⊎◌, inl, inr, refl, List, [], ◌∷◌, Option, none, some, arith, ltb, if◌then◌else◌,
  Option-cases, Bool-cases, ap, sym, ◌∙◌, subst,
}
use l1_data_tools.Rpc.Heads.{
  Answer, Message, announced, read_heads, Connection, run_web_socket, fetch_block_number, start,
}

-- `Hears connections n`: a message of one of the connections announces `n`.
pub data Hears : List Connection → ℕ → Type 0 where
  here :
      {msg : Message} {msgs : List Message} {connections : List Connection} {n : ℕ}
      → announced msg ≡ some n
      → Hears (some (msg ∷ msgs) ∷ connections) n
  next :
      {msg : Message} {msgs : List Message} {connections : List Connection} {n : ℕ}
      → Hears (some msgs ∷ connections) n
      → Hears (some (msg ∷ msgs) ∷ connections) n
  later :
      {connection : Connection} {connections : List Connection} {n : ℕ}
      → Hears connections n
      → Hears (connection ∷ connections) n

-- One message more is as many from a number that is not smaller.
read_heads_step :
    (msg : Message) (msgs : List Message) (latest : ℕ)
    → (next : ℕ) × (read_heads (msg ∷ msgs) latest ≡ read_heads msgs next) × (latest ≤ next)
unfolding read_heads
read_heads_step msg msgs latest = elim (Option-cases (announced msg)) [
  | inl skipped ↦ (latest, (rw (skipped, read_heads) refl), (omega arith))
  | inr (n, e) ↦ (if ltb latest n then n else latest, (rw (e, read_heads) refl), (ground arith))
]

read_heads-announced :
    (msg : Message) (msgs : List Message) (latest n : ℕ)
    → announced msg ≡ some n
    → read_heads (msg ∷ msgs) latest ≡ read_heads msgs (if ltb latest n then n else latest)
unfolding read_heads
read_heads-announced msg msgs latest n e = rw (e, read_heads) refl

read_heads_least : (msgs : List Message) (latest : ℕ) → latest ≤ read_heads msgs latest
unfolding read_heads
read_heads_least [] latest = omega arith
read_heads_least (msg ∷ msgs) latest =
    let (following, same, above) = read_heads_step msg msgs latest in
    omega (arith, same, above, read_heads_least msgs following)

run_least :
    (connections : List Connection) (latest : ℕ) → latest ≤ run_web_socket connections latest
unfolding run_web_socket
run_least [] latest = omega arith
run_least (none ∷ connections) latest = run_least connections latest
run_least (some msgs ∷ connections) latest =
    omega (arith, read_heads_least msgs latest, run_least connections (read_heads msgs latest))

run_reaches :
    (connections : List Connection) (latest n : ℕ)
    → Hears connections n
    → n ≤ run_web_socket connections latest
unfolding run_web_socket
run_reaches [] latest n h = elim h [ ]
run_reaches (some (msg ∷ msgs) ∷ connections) latest n (here e) =
    let raised = if ltb latest n then n else latest in
    let enough : n ≤ raised = ground arith in
    omega (
      arith,
      enough,
      read_heads-announced msg msgs latest n e,
      read_heads_least msgs raised,
      run_least connections (read_heads (msg ∷ msgs) latest),
    )
run_reaches (some (msg ∷ msgs) ∷ connections) latest n (next h) =
    let (following, same, above) = read_heads_step msg msgs latest in
    rw same (run_reaches (some msgs ∷ connections) following n h)
run_reaches (none ∷ connections) latest n (later h) = run_reaches connections latest n h
run_reaches (some msgs ∷ connections) latest n (later h) =
    run_reaches connections (read_heads msgs latest) n h

-- A number that was heard in the messages, or the one before them.
read_source :
    (msgs : List Message) (connections : List Connection) (latest : ℕ)
    → (read_heads msgs latest ≡ latest) ⊎ Hears (some msgs ∷ connections) (read_heads msgs latest)
unfolding read_heads
read_source [] connections latest = inl refl
read_source (msg ∷ msgs) connections latest = elim (Option-cases (announced msg)) [
  | inl skipped ↦
      rw (skipped, read_heads)
        (elim (read_source msgs connections latest) [ inl e ↦ inl e | inr h ↦ inr (next h) ])
  | inr (n, e) ↦
      rw (e, read_heads)
        (elim (Bool-cases (ltb latest n)) [
          | inl larger ↦ rw larger (elim (read_source msgs connections n) [
            | inl same ↦ inr (here (e ∙ ap some (sym same)))
            | inr h ↦ inr (next h)
          ])
          | inr smaller ↦ rw smaller (elim (read_source msgs connections latest) [
            | inl same ↦ inl same
            | inr h ↦ inr (next h)
          ])
        ])
]

run_source :
    (connections : List Connection) (latest : ℕ)
    → (run_web_socket connections latest ≡ latest)
      ⊎ Hears connections (run_web_socket connections latest)
unfolding run_web_socket
run_source [] latest = inl refl
run_source (none ∷ connections) latest = elim (run_source connections latest) [
  | inl e ↦ inl e
  | inr h ↦ inr (later h)
]
run_source (some msgs ∷ connections) latest =
    elim (run_source connections (read_heads msgs latest)) [
      | inl same ↦ elim (read_source msgs connections latest) [
        | inl first ↦ inl (same ∙ first)
        | inr h ↦ inr (subst (Hears (some msgs ∷ connections)) (sym same) h)
      ]
      | inr h ↦ inr (later h)
    ]

-- The tracker starts where `eth_blockNumber` gives a number, and then holds the largest of that and
-- all the numbers that any message announced, over all connections: none is above it, and it is one
-- of them.
pub start_highest :
    (answer : Option Answer) (connections : List Connection) (first n : ℕ)
    → fetch_block_number answer ≡ some first
    → Hears connections n
    → (r : ℕ) × (start answer connections ≡ some r)
      × (first ≤ r)
      × (n ≤ r)
      × ((r ≡ first) ⊎ Hears connections r)
unfolding start
start_highest answer connections first n e h = (
  run_web_socket connections first,
  (rw e refl),
  run_least connections first,
  run_reaches connections first n h,
  run_source connections first,
)
