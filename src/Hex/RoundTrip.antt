-- ===== src/Hex/RoundTrip.antt =====
-- On the round trip of a block number through `0x%x` and `strconv.ParseUint`.
use l1_data_tools.Common.{
  ℕ, zero, suc, ◌/◌, ◌%◌, ◌<◌, ◌≡◌, ◌≢◌, refl, sym, ap, ◌∙◌, [], ◌∷◌, ◌++◌, Option, none, some,
  ◌>>=◌, arith, Bytes, u64, ◌==◌, Bool-cases, inl, inr,
}
use l1_data_tools.Hex.{
  push_digit, scan_hex, trim_0x, parse_uint16, digit_char, print_digits, print_hex, hex_digit,
}

hex_digit_char : (d : ℕ) → d < 16 → hex_digit (digit_char d) ≡ some d
hex_digit_char d h = ground arith

push_last : (n : ℕ) → n < u64 → push_digit (n / 16) (digit_char (n % 16)) ≡ some n
unfolding push_digit
push_last n h = ground (arith, hex_digit_char (n % 16))

scan_hex-append : (xs ys : Bytes) (n : ℕ) → scan_hex (xs ++ ys) n ≡ (scan_hex xs n >>= scan_hex ys)
unfolding scan_hex
scan_hex-append [] ys n = refl
scan_hex-append (c ∷ xs) ys n = step (push_digit n c) (λ m. scan_hex-append xs ys m)
  where
    step :
        (o : Option ℕ)
        → ((m : ℕ) → scan_hex (xs ++ ys) m ≡ (scan_hex xs m >>= scan_hex ys))
        → (o >>= scan_hex (xs ++ ys)) ≡ ((o >>= scan_hex xs) >>= scan_hex ys)
    step none h = refl
    step (some m) h = h m

-- `n` has at most `count` hexadecimal digits, and one at least is printed.
abbrev Fits : ℕ → ℕ → Type 0
Fits zero n = n ≡ 0
Fits (suc count) n = Fits count (n / 16)

scan_hex-print_digits :
    (count n : ℕ) → Fits count n → n < u64 → scan_hex (print_digits count n) 0 ≡ some n
unfolding print_digits
scan_hex-print_digits zero n f h = unfold scan_hex in ap some (sym f)
scan_hex-print_digits (suc count) n f h = elim (Bool-cases (n / 16 == 0)) [
  | inl last ↦
      let e : n / 16 ≡ 0 = ground arith in
      rw last (
        unfold scan_hex in
        ap (λ o. o >>= scan_hex [])
          (ap (λ k. push_digit k (digit_char (n % 16))) (sym e) ∙ push_last n h))
  | inr more ↦ rw more (
      scan_hex-append (print_digits count (n / 16)) (digit_char (n % 16) ∷ []) 0
      ∙ ap (λ o. o >>= scan_hex (digit_char (n % 16) ∷ []))
          (scan_hex-print_digits count (n / 16) f (omega arith))
      ∙ (unfold scan_hex in ap (λ o. o >>= scan_hex []) (push_last n h)))
]

parse_uint16-scan_hex : (s : Bytes) → s ≢ [] → parse_uint16 s ≡ scan_hex s 0
unfolding parse_uint16
parse_uint16-scan_hex [] h = absurd (h refl)
parse_uint16-scan_hex (c ∷ s) h = refl

append-ne-nil : (xs : Bytes) (c : ℕ) → xs ++ c ∷ [] ≢ []
append-ne-nil [] c = λ e. cc
append-ne-nil (x ∷ xs) c = λ e. cc

print_digits-ne-nil : (count n : ℕ) → print_digits (suc count) n ≢ []
unfolding print_digits
print_digits-ne-nil count n = elim (Bool-cases (n / 16 == 0)) [
  | inl last ↦ rw last (append-ne-nil [] (digit_char (n % 16)))
  | inr more ↦ rw more (append-ne-nil (print_digits count (n / 16)) (digit_char (n % 16)))
]

-- A uint64 that is printed for a request is read back to itself.
pub parse_uint16-print_hex : (n : ℕ) → n < u64 → parse_uint16 (trim_0x (print_hex n)) ≡ some n
unfolding print_hex trim_0x
parse_uint16-print_hex n h =
    parse_uint16-scan_hex (print_digits 16 n) (print_digits-ne-nil 15 n)
    ∙ scan_hex-print_digits 16 n (omega arith) h
