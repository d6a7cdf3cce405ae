-- ===== src/Rpc/Types/Typed.antt =====
-- The values of a type of evm-ingestion/rpc/types.go, as a typing judgement.
use l1_data_tools.Common.{
  ℕ, ◌≤◌, ◌<◌, ◌≡◌, Bool, true, false, List, [], ◌∷◌, arith, Bytes, if◌then◌else◌, All,
}
use l1_data_tools.Rpc.Types.{
  StructName, transaction, block, call_trace, trace_result, receipt, log, normalized_block, GoType,
  string, bool, raw_message, pointer, slice, struct, Field, fields,
}
use l1_data_tools.Rpc.Types.Values.{
  JsonValue, GoValue, str, boolean, raw, nothing, address, elements, fielded, Values, nil, cons,
  marshal,
}
use l1_data_tools.Rpc.Types.Unmarshal.{is_null}

-- A slice that is empty and not nil, and a RawMessage that is nil: json.Marshal writes both as
-- something else.
abbrev pub is_empty_slice : GoValue → Bool
is_empty_slice (elements nil) = true
is_empty_slice _ = false

abbrev pub is_nil_raw : GoType → GoValue → Bool
is_nil_raw raw_message nothing = true
is_nil_raw _ _ = false

abbrev pub is_lost : Field → GoValue → Bool
is_lost f v = if f.omitempty then is_empty_slice v else is_nil_raw f.type v

-- The values of a type. With `normal`, those that a document can tell from each other.
mutual
  pub data HasType (normal : Bool) : GoType → GoValue → Type 0 where
    is_string : (s : Bytes) → HasType normal string (str s)
    is_boolean : (b : Bool) → HasType normal bool (boolean b)
    is_raw : (j : JsonValue) → HasType normal raw_message (raw j)
    no_raw : HasType normal raw_message nothing
    no_address : (t : GoType) → HasType normal (pointer t) nothing
    is_address :
        (t : GoType) (v : GoValue)
        → HasType normal t v
        → (normal ≡ true → is_null (marshal t v) ≡ false)
        → HasType normal (pointer t) (address v)
    no_elements : (t : GoType) → HasType normal (slice t) nothing
    are_elements :
        (t : GoType) (vs : Values)
        → HasElements normal t vs
        → HasType normal (slice t) (elements vs)
    is_fielded :
        (name : StructName) (vs : Values)
        → HasFields normal (fields name) vs
        → HasType normal (struct name) (fielded vs)

  pub data HasElements (normal : Bool) : GoType → Values → Type 0 where
    all_elements : (t : GoType) → HasElements normal t nil
    next_element :
        (t : GoType) (v : GoValue) (vs : Values)
        → HasType normal t v
        → (normal ≡ true → is_nil_raw t v ≡ false)
        → HasElements normal t vs
        → HasElements normal t (cons v vs)

  pub data HasFields (normal : Bool) : List Field → Values → Type 0 where
    all_fields : HasFields normal [] nil
    next_field :
        (f : Field) (fs : List Field) (v : GoValue) (vs : Values)
        → HasType normal f.type v
        → (normal ≡ true → is_lost f v ≡ false)
        → HasFields normal fs vs
        → HasFields normal (f ∷ fs) (cons v vs)

-- How deep structs stand in structs.
abbrev pub rank_of : StructName → ℕ
rank_of normalized_block = 2
rank_of _ = 1

abbrev pub rank : GoType → ℕ
rank (struct name) = rank_of name
rank _ = 0

abbrev pub Ranked : ℕ → List Field → Type 0
Ranked r fs = All (λ (f : Field). rank f.type < r) fs

pub fields-Ranked : (name : StructName) → Ranked (rank_of name) (fields name)
unfolding fields
fields-Ranked transaction = omega arith
fields-Ranked block = omega arith
fields-Ranked call_trace = omega arith
fields-Ranked trace_result = omega arith
fields-Ranked receipt = omega arith
fields-Ranked log = omega arith
fields-Ranked normalized_block = omega arith

pub rank_pos : (name : StructName) → 1 ≤ rank_of name
rank_pos normalized_block = omega arith
rank_pos _ = omega arith

pub rank-le : (t : GoType) → rank t ≤ 2
rank-le (struct normalized_block) = omega arith
rank-le (struct _) = omega arith
rank-le _ = omega arith
