-- ===== src/Client/Examples.antt =====
-- The example client at a concrete input: a connection that is refused, one that breaks after two rounds,
-- and one with a round.
use l1_data_tools.Common.{
  ℕ, ◌+◌, ◌-◌, ◌<◌, refl, List, [], ◌∷◌, Option, none, some, arith, Bytes, u64, leb, min, map,
  if◌then◌else◌,
}
use l1_data_tools.Storage.Sample.{copy, shelf, Shelf}
use l1_data_tools.Client.Sample.{digits, digit, digit_block, digit_IsBlock}
use l1_data_tools.Client.Feed.{Holds, Serves}
use l1_data_tools.Client.Reconnect.{rounds_of}
use l1_data_tools.Client.Example.{run_example}
use l1_data_tools.Client.Example.Order.{brings, Followed, run_example-Followed}

abbrev chain_to : ℕ → Shelf
chain_to tip = record {
  block = λ n. if leb n tip then some (digit n) else none;
  batch = λ n. none;
  meta = 0;
  first = 1;
  latest = tip;
}

chain_Serves : (tip : ℕ) → Serves copy shelf digits digit digit_block tip (chain_to tip)
chain_Serves tip = record {
  holds = λ n lo hi. Holds.single (ground arith);
  no_block = ground arith;
  no_batch = refl;
}

chain_fits : 3 + 200 < u64
chain_fits = omega arith

abbrev links : List (Option (List Shelf))
links = none ∷ some (chain_to 2 ∷ chain_to 2 ∷ []) ∷ some (chain_to 3 ∷ []) ∷ []

-- Each block has one transaction.
abbrev transactions : Bytes → ℕ
transactions content = 1

run_example-Followed_example :
    Followed copy shelf digits transactions digit digit_block 3 chain_fits digit_IsBlock 1 1
      (min
        (rounds_of copy shelf digits digit digit_block 3 chain_fits digit_IsBlock links)
        (2 + 1 - 1))
      (run_example copy digits transactions 1 (map (brings copy shelf) links))
run_example-Followed_example =
    run_example-Followed copy shelf digits transactions digit digit_block 3 chain_fits digit_IsBlock
      links 2 1
      (
        2,
        omega arith,
        omega arith,
        (
          2,
          omega arith,
          omega arith,
          chain_Serves 2,
          (2, omega arith, omega arith, chain_Serves 2, tt),
        ),
        (3, omega arith, omega arith, (3, omega arith, omega arith, chain_Serves 3, tt), tt),
      )
      (omega arith) (omega arith) (omega arith)
