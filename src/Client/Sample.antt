-- ===== src/Client/Sample.antt =====
-- A chain of three blocks, for the examples.
use l1_data_tools.Common.{ℕ, ◌+◌, ◌≤◌, ◌≡◌, refl, [], ◌∷◌, some, arith, Bytes}
use l1_data_tools.Hex.{trim_0x, parse_uint16, scan_hex, push_digit}
use l1_data_tools.Storage.Sample.{copy}
use l1_data_tools.Client.{Json, Block, parse_line, parse_hex}
use l1_data_tools.Client.Pack.{IsBlock}

-- A block is the text of its number, of one digit.
abbrev pub digits : Json
digits = record { Value = Bytes; unmarshal = λ s. some s; number = λ s. s }

abbrev pub digit : ℕ → Bytes
digit n = (b'0' + n) ∷ []

abbrev pub digit_block : ℕ → Block digits
digit_block n = record { number = n; content = digit n }

digit_parsed : (n : ℕ) → 1 ≤ n → n ≤ 3 → parse_line copy digits (digit n) ≡ some (digit_block n)
unfolding parse_line parse_hex trim_0x parse_uint16 scan_hex push_digit
digit_parsed ℕ.zero lo hi = absurd (omega (arith, lo))
digit_parsed (ℕ.suc ℕ.zero) lo hi = refl
digit_parsed (ℕ.suc (ℕ.suc ℕ.zero)) lo hi = refl
digit_parsed (ℕ.suc (ℕ.suc (ℕ.suc ℕ.zero))) lo hi = refl
digit_parsed (ℕ.suc (ℕ.suc (ℕ.suc (ℕ.suc n)))) lo hi = absurd (omega (arith, hi))

pub digit_IsBlock : (n : ℕ) → 1 ≤ n → n ≤ 3 → IsBlock digits digit digit_block copy n
digit_IsBlock n lo hi = record {
  line = record {
    filled = omega arith;
    short = omega arith;
    plain = ((ground arith, ground arith), tt);
  };
  parsed = digit_parsed n lo hi;
  numbered = refl;
}
