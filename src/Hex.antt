-- ===== src/Hex.antt =====
-- Hexadecimal block numbers: `strconv.ParseUint` of a text behind its prefix `0x`, and `0x%x`.
pub mod RoundTrip
use l1_data_tools.Common.{
  ℕ, zero, suc, ◌+◌, ◌-◌, ◌*◌, ◌/◌, ◌%◌, ◌≡◌, Bool, true, false, ◌&&◌, [], ◌∷◌, ◌++◌, Option, none,
  some, ◌>>=◌, Bytes, codes, u64, ltb, leb, ◌==◌, if◌then◌else◌,
}

abbrev pub hex_digit : ℕ → Option ℕ
hex_digit c =
    if leb b'0' c && leb c b'9'
    then some (c - b'0')
    else if leb b'a' c && leb c b'f'
    then some (c - b'a' + 10)
    else if leb b'A' c && leb c b'F'
    then some (c - b'A' + 10)
    else none

-- One digit more: an error on another byte, and past 2^64 - 1.
unfoldable pub push_digit : ℕ → ℕ → Option ℕ
push_digit n c = elim (hex_digit c) [
  | none ↦ none
  | some d ↦ (if ltb (n * 16 + d) u64 then some (n * 16 + d) else none)
]

unfoldable pub scan_hex : Bytes → ℕ → Option ℕ
scan_hex [] n = some n
scan_hex (c ∷ s) n = push_digit n c >>= scan_hex s

-- `strings.TrimPrefix(s, "0x")`.
unfoldable pub trim_0x : Bytes → Bytes
trim_0x (a ∷ b ∷ s) = if (a == b'0') && (b == b'x') then s else a ∷ b ∷ s
trim_0x s = s

-- `strconv.ParseUint(s, 16, 64)`.
unfoldable pub parse_uint16 : Bytes → Option ℕ
unfolding scan_hex push_digit
parse_uint16 [] = none
parse_uint16 (c ∷ s) = scan_hex (c ∷ s) 0

abbrev pub digit_char : ℕ → ℕ
digit_char d = if ltb d 10 then b'0' + d else b'a' + (d - 10)

-- The digits of `n`, at most `count`; 16 are enough for a uint64.
unfoldable pub print_digits : ℕ → ℕ → Bytes
print_digits zero n = []
print_digits (suc count) n =
    let front = print_digits count (n / 16) in
    if n / 16 == 0 then digit_char (n % 16) ∷ [] else front ++ digit_char (n % 16) ∷ []

-- `fmt.Sprintf("0x%x", n)`.
unfoldable pub print_hex : ℕ → Bytes
unfolding print_digits
print_hex n = codes "0x" ++ print_digits 16 n
