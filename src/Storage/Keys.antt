-- ===== src/Storage/Keys.antt =====
-- The database keys of evm-ingestion/storage/pebble.go: `block:%020d`, `batch:%020d-%020d`.
pub mod Order
pub mod Compare
pub mod RoundTrip
use l1_data_tools.Common.{
  ℕ, zero, suc, ◌+◌, ◌-◌, ◌*◌, ◌/◌, ◌%◌, ◌<◌, ◌≡◌, refl, Bool, true, false, ◌&&◌, ◌||◌, List, [],
  ◌∷◌, ◌++◌, Option, none, some, ◌>>=◌, Bytes, codes, bytes_eq, compare_bytes, u64, ltb, leb, ◌==◌,
  if◌then◌else◌,
}

-- `%0kd`: the last k decimal digits, with leading zeros.
unfoldable pub pad : ℕ → ℕ → Bytes
pad zero n = []
pad (suc k) n = pad k (n / 10) ++ (b'0' + n % 10) ∷ []

-- A uint64 has at most 20 digits, so `%020d` never writes more.
unfoldable pub block_key : ℕ → Bytes
block_key block_num = codes "block:" ++ pad 20 block_num

unfoldable pub batch_key : ℕ → ℕ → Bytes
batch_key start end = codes "batch:" ++ (pad 20 start ++ b'-' ∷ pad 20 end)

abbrev pub meta_key : Bytes
meta_key = codes "meta"

abbrev pub is_digit : ℕ → Bool
is_digit c = leb b'0' c && leb c b'9'

-- The digits of `strconv.ParseUint(s, 10, 64)`: an error on another byte and past 2^64 - 1.
unfoldable pub scan_uint : Bytes → ℕ → Option ℕ
scan_uint [] n = some n
scan_uint (c ∷ s) n =
    let m = n * 10 + (c - b'0') in
    let rest = scan_uint s m in if is_digit c && ltb m u64 then rest else none

unfoldable pub parse_uint : Bytes → Option ℕ
parse_uint [] = none
parse_uint (c ∷ s) = scan_uint (c ∷ s) 0

-- What a literal text in the format of `fmt.Sscanf` takes off the input.
pub strip_prefix : Bytes → Bytes → Option Bytes
strip_prefix [] s = some s
strip_prefix (p ∷ ps) [] = none
strip_prefix (p ∷ ps) (c ∷ s) = if p == c then strip_prefix ps s else none

-- The blanks that `%d` skips.
pub skip_space : Bytes → Bytes
skip_space [] = []
skip_space (c ∷ s) = let rest = skip_space s in if c == b' ' || c == b'\t' then rest else c ∷ s

-- The digits that `%020d` reads, at most `width`; what follows stays unread.
pub take_digits : ℕ → Bytes → Bytes
take_digits zero s = []
take_digits (suc width) [] = []
take_digits (suc width) (c ∷ s) = if is_digit c then c ∷ take_digits width s else []

pub parse_block_key : Bytes → Option ℕ
parse_block_key key = do
  rest ← strip_prefix (codes "block:") key
  parse_uint (take_digits 20 (skip_space rest))

-- `strings.Split` by a separator of one byte.
unfoldable pub cut : ℕ → Bytes → Bytes → List Bytes
cut sep [] cur = cur ∷ []
cut sep (c ∷ s) cur = elim (c == sep) [
  | true ↦ cur ∷ cut sep s []
  | false ↦ cut sep s (cur ++ c ∷ [])
]

unfoldable pub split : Bytes → ℕ → List Bytes
unfolding cut
split s sep = cut sep s []

parse_range : List Bytes → Option (ℕ × ℕ)
parse_range (a ∷ b ∷ []) = do start ← parse_uint a; end ← parse_uint b; some (start, end)
parse_range _ = none

parse_parts : List Bytes → Option (ℕ × ℕ)
unfolding parse_range compare_bytes
parse_parts (name ∷ range ∷ []) =
    if bytes_eq name (codes "batch") then parse_range (split range b'-') else none
parse_parts _ = none

pub parse_batch_key : Bytes → Option (ℕ × ℕ)
unfolding parse_parts
parse_batch_key key = parse_parts (split key b':')
