-- ===== src/Rpc/Fetcher/Calls/Stale.antt =====
-- On `batchRpcCall` of evm-ingestion/rpc/fetcher.go: what one attempt leaves to the next.
use l1_data_tools.Common.{Bytes, none, some}
use l1_data_tools.Common.Int.{pos}
use l1_data_tools.Rpc.Fetcher.Call.{Request, Response, absent, reported, Element}

-- The elements {"id": …}, with a result or an error.
abbrev pub bare : Request → Element
bare q = record { id = some (pos q.id); error = absent; result = none }

abbrev pub resulting : Request → Bytes → Element
resulting q x = record (bare q) { result = some x }

abbrev pub complaining : Request → Bytes → Element
complaining q message = record (bare q) { error = reported (some message) }

abbrev pub response_to : Request → Bytes → Response
response_to q x = record { id = pos q.id; error = none; result = x }
