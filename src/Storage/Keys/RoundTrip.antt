-- ===== src/Storage/Keys/RoundTrip.antt =====
-- Printing and parsing the database keys of evm-ingestion/storage/pebble.go.
use l1_data_tools.Common.{
  ℕ, zero, suc, ◌+◌, ◌-◌, ◌*◌, ◌/◌, ◌%◌, ◌<◌, ◌≡◌, refl, sym, ap, ◌∙◌, true, false, [], ◌∷◌, ◌++◌,
  append_assoc, append-nil, some, ◌>>=◌, arith, Bytes, codes, u64, length, All, All-append, ◌==◌,
  ==_refl, compare_bytes,
}
use l1_data_tools.Storage.Keys.{
  pad, block_key, batch_key, is_digit, scan_uint, parse_uint, strip_prefix, skip_space, take_digits,
  parse_block_key, cut, split, parse_batch_key,
}
use l1_data_tools.Storage.Keys.Order.{length-pad}

scan_uint-append :
    (xs ys : Bytes) (n : ℕ) → scan_uint (xs ++ ys) n ≡ (scan_uint xs n >>= scan_uint ys)
unfolding scan_uint
scan_uint-append [] ys n = refl
scan_uint-append (c ∷ xs) ys n = ground (arith, scan_uint-append xs ys (n * 10 + (c - b'0')))

scan_digit : (n : ℕ) → n < u64 → scan_uint ((b'0' + n % 10) ∷ []) (n / 10) ≡ some n
unfolding scan_uint
scan_digit n h = ground arith

abbrev IsNumber : ℕ → ℕ → Type 0
IsNumber zero n = n ≡ 0
IsNumber (suc k) n = IsNumber k (n / 10)

scan_uint-pad : (k n : ℕ) → IsNumber k n → n < u64 → scan_uint (pad k n) 0 ≡ some n
unfolding pad scan_uint
scan_uint-pad zero n h lt = ap some (sym h)
scan_uint-pad (suc k) n h lt =
    scan_uint-append (pad k (n / 10)) _ 0
    ∙ ap (λ o. o >>= scan_uint ((b'0' + n % 10) ∷ [])) (scan_uint-pad k (n / 10) h (omega arith))
    ∙ scan_digit n lt

parse_uint-scan_uint : (s : Bytes) → 0 < length s → parse_uint s ≡ scan_uint s 0
unfolding parse_uint
parse_uint-scan_uint [] h = absurd (omega arith)
parse_uint-scan_uint (c ∷ s) h = refl

-- The padded text of a uint64 parses to it.
pub parse_uint-pad20 : (n : ℕ) → n < u64 → parse_uint (pad 20 n) ≡ some n
parse_uint-pad20 n h =
    parse_uint-scan_uint (pad 20 n) (omega (arith, length-pad 20 n))
    ∙ scan_uint-pad 20 n (omega arith) h

pad-digits : (k n : ℕ) → All (λ c. is_digit c ≡ true) (pad k n)
unfolding pad
pad-digits zero n = tt
pad-digits (suc k) n = All-append _ (pad k (n / 10)) _ (pad-digits k (n / 10)) (ground arith, tt)

take_digits-digits :
    (k : ℕ) (s : Bytes) → length s ≡ k → All (λ c. is_digit c ≡ true) s → take_digits k s ≡ s
unfolding take_digits
take_digits-digits zero [] h d = refl
take_digits-digits zero (c ∷ s) h d = absurd (omega arith)
take_digits-digits (suc k) [] h d = refl
take_digits-digits (suc k) (c ∷ s) h (p, d) =
    rw p (ap (λ t. c ∷ t) (take_digits-digits k s (omega arith) d))

skip_space-digits : (s : Bytes) → All (λ c. is_digit c ≡ true) s → skip_space s ≡ s
unfolding skip_space
skip_space-digits [] d = refl
skip_space-digits (c ∷ s) d = ground (arith, d.0)

-- A block key is parsed to the block's number, for every uint64.
pub parse_block_key-block_key : (n : ℕ) → n < u64 → parse_block_key (block_key n) ≡ some n
unfolding parse_block_key block_key strip_prefix
parse_block_key-block_key n h =
    rw
      (
        skip_space-digits (pad 20 n) (pad-digits 20 n),
        take_digits-digits 20 (pad 20 n) (length-pad 20 n) (pad-digits 20 n),
      )
      (parse_uint-pad20 n h)

pub cut-append :
    (sep : ℕ) (p rest cur : Bytes)
    → All (λ c. (c == sep) ≡ false) p
    → cut sep (p ++ rest) cur ≡ cut sep rest (cur ++ p)
unfolding cut
cut-append sep [] rest cur h = rw append-nil
cut-append sep (c ∷ p) rest cur (hc, h) =
    rw (hc, cut)
      (cut-append sep p rest (cur ++ c ∷ []) h ∙ ap (cut sep rest) (append_assoc cur (c ∷ []) p))

digits-lack :
    (sep : ℕ) (s : Bytes)
    → is_digit sep ≡ false
    → All (λ c. is_digit c ≡ true) s
    → All (λ c. (c == sep) ≡ false) s
digits-lack sep [] h d = tt
digits-lack sep (c ∷ s) h (p, d) = (ground arith, digits-lack sep s h d)

-- Two texts that lack the separator, joined by it, are split into the two.
split-pair :
    (sep : ℕ) (a b : Bytes)
    → All (λ c. (c == sep) ≡ false) a
    → All (λ c. (c == sep) ≡ false) b
    → split (a ++ sep ∷ b) sep ≡ a ∷ b ∷ []
unfolding split
split-pair sep a b ha hb =
    cut-append sep a (sep ∷ b) [] ha
    ∙ (rw (==_refl sep, cut) refl)
    ∙ ap (λ s. a ∷ cut sep s []) (sym (append-nil b))
    ∙ ap (λ l. a ∷ l) (cut-append sep b [] [] hb)

pads-split :
    (start end : ℕ)
    → split (pad 20 start ++ b'-' ∷ pad 20 end) b'-' ≡ pad 20 start ∷ pad 20 end ∷ []
pads-split start end =
    split-pair b'-' (pad 20 start) (pad 20 end) (digits-lack b'-' _ refl (pad-digits 20 start))
      (digits-lack b'-' _ refl (pad-digits 20 end))

batch_key-split :
    (start end : ℕ)
    → split (batch_key start end) b':' ≡ codes "batch" ∷ (pad 20 start ++ b'-' ∷ pad 20 end) ∷ []
unfolding batch_key
batch_key-split start end =
    split-pair b':' (codes "batch") (pad 20 start ++ b'-' ∷ pad 20 end)
      (refl, (refl, (refl, (refl, (refl, tt)))))
      (All-append _ (pad 20 start) _ (digits-lack b':' _ refl (pad-digits 20 start))
        (refl, digits-lack b':' _ refl (pad-digits 20 end)))

-- A batch key is parsed to the batch's first and last block.
pub parse_batch_key-batch_key :
    (start end : ℕ)
    → start < u64
    → end < u64
    → parse_batch_key (batch_key start end) ≡ some (start, end)
unfolding parse_batch_key compare_bytes
parse_batch_key-batch_key start end hs he =
    rw (batch_key-split, pads-split, parse_uint-pad20 start hs, parse_uint-pad20 end he)
