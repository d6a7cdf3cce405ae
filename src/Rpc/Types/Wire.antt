-- ===== src/Rpc/Types/Wire.antt =====
-- Where the types of evm-ingestion/rpc/types.go are read and written: the answers of the node in
-- evm-ingestion/rpc/fetcher.go, the blocks that evm-ingestion/main.go saves, and the ones that
-- evm-ingestion-client/client.go reads. The text of a document is encoding/json's.
use l1_data_tools.Common.{
  ℕ, ◌≡◌, refl, sym, ap, ◌∙◌, List, [], ◌∷◌, Option, none, some, ◌>>=◌, Bytes, true,
}
use mathlib.Core.Option.{some_inj}
use l1_data_tools.Storage.Batch.{Zstd}
use l1_data_tools.Ingestion.{Codec, parse_block_number}
use l1_data_tools.Client.{Block, parse_line, parse_hex}
use l1_data_tools.Client
use l1_data_tools.Rpc.Fetcher.Call.{Response}
use l1_data_tools.Rpc.Fetcher.Fetch.{Json, TraceResult, TxInfo, hash_of, put}
use l1_data_tools.Rpc.Fetcher.Single.{Receipts, store_receipt}
use l1_data_tools.Rpc.Types.{
  slice, struct, block, receipt, call_trace, trace_result, normalized_block,
}
use l1_data_tools.Rpc.Types.Values.{
  JsonValue, json_null, GoValue, str, address, elements, fielded, Values, nil, cons, marshal,
}
use l1_data_tools.Rpc.Types.Unmarshal.{
  zero_value, value_at, elements_of, decode, unmarshal, strict_unmarshal, Text, whole,
}
use l1_data_tools.Rpc.Types.Typed.{HasType}
use l1_data_tools.Rpc.Types.RoundTrip.{unmarshal-marshal}

-- `nb.Block.Number`
abbrev pub number_of : GoValue → Bytes
number_of (fielded (cons (fielded (cons (str number) fields)) parts)) = number
number_of _ = []

-- `tx.Hash`
abbrev hash_of_tx : GoValue → Bytes
hash_of_tx (fielded (cons (str hash) fields)) = hash
hash_of_tx _ = []

abbrev hashes_of : Values → List Bytes
hashes_of nil = []
hashes_of (cons tx txs) = hash_of_tx tx ∷ hashes_of txs

-- The hashes in `block.Transactions`, its thirteenth field.
abbrev hashes_in : Option GoValue → List Bytes
hashes_in (some (elements txs)) = hashes_of txs
hashes_in _ = []

abbrev tx_hashes_of : GoValue → List Bytes
tx_hashes_of (fielded fields) = hashes_in (value_at fields 12)
tx_hashes_of _ = []

abbrev call_of : GoValue → Option GoValue
call_of (address trace) = some trace
call_of _ = none

abbrev trace_of : GoValue → TraceResult GoValue
trace_of (fielded (cons (str hash) (cons result fields))) = record {
  tx_hash = hash;
  result = call_of result;
}
trace_of _ = record { tx_hash = []; result = none }

abbrev traces_of : Values → List (TraceResult GoValue)
traces_of nil = []
traces_of (cons v vs) = trace_of v ∷ traces_of vs

module _ (parse : Bytes → Text) where
  -- What the fetcher reads.
  abbrev pub answers_json : Json
  answers_json = record {
    Block = GoValue;
    Receipt = GoValue;
    CallTrace = GoValue;
    zero_block = zero_value (struct block);
    tx_hashes = tx_hashes_of;
    read_block = λ t. strict_unmarshal (struct block) (parse t);
    read_receipt = λ t. strict_unmarshal (struct receipt) (parse t);
    read_trace = λ t. strict_unmarshal (struct call_trace) (parse t);
    read_traces = λ t. do
      v ← strict_unmarshal (slice (struct trace_result)) (parse t)
      some (traces_of (elements_of v));
  }

  -- What a client reads.
  abbrev pub client_json : Client.Json
  client_json = record {
    Value = GoValue;
    unmarshal = λ line. unmarshal (struct normalized_block) (parse line);
    number = number_of;
  }

-- What the loop saves.
abbrev pub block_codec : (JsonValue → Bytes) → Codec
block_codec print = record {
  Value = GoValue;
  number = number_of;
  marshal = λ v. some (print (marshal (struct normalized_block) v));
}

-- A normal block that the loop saves, with the number that it checks, is read by a client as the same
-- block with the same number, where encoding/json reads the text of its document as that document.
pub parse_line-marshal :
    (z : Zstd) (parse : Bytes → Text) (print : JsonValue → Bytes) (v : GoValue) (n : ℕ)
    (line : Bytes)
    → HasType true (struct normalized_block) v
    → parse (print (marshal (struct normalized_block) v))
      ≡ whole (marshal (struct normalized_block) v)
    → parse_block_number ((block_codec print).number v) ≡ some n
    → (block_codec print).marshal v ≡ some line
    → parse_line z (client_json parse) line ≡ some (record { number = n; content = v })
unfolding parse_line parse_hex parse_block_number
parse_line-marshal z parse print v n line h text number written =
    let (strict, lax) = unmarshal-marshal (struct normalized_block) v h refl in
    let read : unmarshal (struct normalized_block) (parse line) ≡ some v =
      ap (λ l. unmarshal (struct normalized_block) (parse l)) (sym (some_inj.0 written))
      ∙ ap (unmarshal (struct normalized_block)) text
      ∙ lax in
    rw read (rw number refl)

-- A receipt for which the node answers null is no error: the empty receipt is filed under the hash of
-- the transaction.
pub store_receipt-null :
    (parse : Bytes → Text) (txs : List TxInfo) (resp : Response)
    (receipts : Receipts (answers_json parse))
    → (parse resp.result).value ≡ some json_null
    → store_receipt (answers_json parse) txs resp receipts
      ≡ some (put (hash_of txs resp.id) (zero_value (struct receipt)) receipts)
unfolding store_receipt strict_unmarshal decode zero_value
store_receipt-null parse txs resp receipts e = rw e refl
