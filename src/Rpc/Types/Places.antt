-- ===== src/Rpc/Types/Places.antt =====
-- The fields of the structs of evm-ingestion/rpc/types.go have different names, and each is found at its
-- place.
use l1_data_tools.Common.{
  ℕ, suc, ◌≡◌, refl, ap, Bool, true, false, List, [], ◌∷◌, ◌++◌, some, ◌>>=◌, arith, bytes_eq,
  bytes_eq_refl, compare_bytes, ◌&&◌, if◌then◌else◌, length,
}
use l1_data_tools.Rpc.Types.{
  StructName, transaction, block, call_trace, trace_result, receipt, log, normalized_block, Field,
  fields,
}
use l1_data_tools.Rpc.Types.Values.{GoValue, Values, nil, cons}
use l1_data_tools.Rpc.Types.Unmarshal.{index_by, field_index, field_at, value_at, put_at}

-- The keys of a struct's fields differ.
abbrev pub apart : Field → List Field → Bool
apart f [] = true
apart f (g ∷ gs) = if bytes_eq f.key g.key then false else apart f gs

abbrev pub fresh : List Field → List Field → Bool
fresh before [] = true
fresh before (f ∷ fs) = apart f before && fresh (before ++ f ∷ []) fs

pub fields-fresh : (name : StructName) → fresh [] (fields name) ≡ true
unfolding fields compare_bytes
fields-fresh transaction = refl
fields-fresh block = refl
fields-fresh call_trace = refl
fields-fresh trace_result = refl
fields-fresh receipt = refl
fields-fresh log = refl
fields-fresh normalized_block = refl

pub both : (a b : Bool) → (a && b) ≡ true → (a ≡ true) × (b ≡ true)
both a b h = ground arith

pub neither : (a b : Bool) → (if a then false else b) ≡ true → (a ≡ false) × (b ≡ true)
neither a b h = ground arith

-- A field is found at its place.
pub index_by-append :
    (before : List Field) (f : Field) (fs : List Field)
    → apart f before ≡ true
    → index_by (bytes_eq f.key) (before ++ f ∷ fs) ≡ some (length before)
unfolding index_by
index_by-append [] f fs h = rw (bytes_eq_refl f.key) refl
index_by-append (g ∷ gs) f fs h =
    let (differ, rest) = neither (bytes_eq f.key g.key) (apart f gs) h in
    rw differ (ap (λ r. r >>= λ i. some (suc i)) (index_by-append gs f fs rest))

pub field_index-append :
    (before : List Field) (f : Field) (fs : List Field)
    → apart f before ≡ true
    → field_index f.key (before ++ f ∷ fs) ≡ some (length before)
unfolding field_index
field_index-append before f fs h = rw (index_by-append before f fs h, field_index) refl

pub field_at-append :
    (before : List Field) (f : Field) (fs : List Field)
    → field_at (before ++ f ∷ fs) (length before) ≡ some f
field_at-append [] f fs = refl
field_at-append (g ∷ gs) f fs = field_at-append gs f fs

abbrev pub append : Values → Values → Values
append nil ws = ws
append (cons v vs) ws = cons v (append vs ws)

abbrev pub count : Values → ℕ
count nil = 0
count (cons v vs) = suc (count vs)

pub value_at-append :
    (vs : Values) (v : GoValue) (ws : Values) → value_at (append vs (cons v ws)) (count vs) ≡ some v
value_at-append nil v ws = refl
value_at-append (cons x vs) v ws = value_at-append vs v ws

pub put_at-append :
    (vs : Values) (v x : GoValue) (ws : Values)
    → put_at (append vs (cons v ws)) (count vs) x ≡ append vs (cons x ws)
put_at-append nil v x ws = refl
put_at-append (cons y vs) v x ws = ap (cons y) (put_at-append vs v x ws)

pub append-snoc :
    (vs : Values) (v : GoValue) (ws : Values)
    → append (append vs (cons v nil)) ws ≡ append vs (cons v ws)
append-snoc nil v ws = refl
append-snoc (cons x vs) v ws = ap (cons x) (append-snoc vs v ws)

pub count-snoc : (vs : Values) (v : GoValue) → count (append vs (cons v nil)) ≡ suc (count vs)
count-snoc nil v = refl
count-snoc (cons x vs) v = ap suc (count-snoc vs v)

pub length-snoc : (fs : List Field) (f : Field) → length (fs ++ f ∷ []) ≡ suc (length fs)
length-snoc [] f = refl
length-snoc (g ∷ fs) f = ap suc (length-snoc fs f)
