-- ===== src/Rpc/Types/Unmarshal.antt =====
-- `StrictUnmarshal` of evm-ingestion/rpc/types.go, and json.Unmarshal, into the types of that file.
use l1_data_tools.Common.{
  ℕ, zero, suc, ◌-◌, Bool, true, false, List, [], ◌∷◌, Option, none, some, ◌>>=◌, Bytes, map,
  bytes_eq, leb, ◌&&◌, if◌then◌else◌,
}
use l1_data_tools.Rpc.Types.{
  GoType, string, bool, raw_message, pointer, slice, struct, Field, fields,
}
use l1_data_tools.Rpc.Types.Values.{
  JsonValue, json_null, json_bool, json_string, json_array, json_object, Items, no_items, item,
  Members, no_members, member, GoValue, str, boolean, raw, nothing, address, elements, fielded,
  Values, nil, cons,
}

-- The zero value. A struct stands in a struct by itself once only, in `NormalizedBlock`.
abbrev pub zero_fields : (GoType → GoValue) → List Field → Values
zero_fields zero_of [] = nil
zero_fields zero_of (f ∷ fs) = cons (zero_of f.type) (zero_fields zero_of fs)

unfoldable pub zero_within : ℕ → GoType → GoValue
zero_within depth string = str []
zero_within depth bool = boolean false
zero_within depth raw_message = nothing
zero_within depth (pointer t) = nothing
zero_within depth (slice t) = nothing
zero_within zero (struct name) = nothing
zero_within (suc depth) (struct name) = fielded (zero_fields (zero_within depth) (fields name))

unfoldable pub zero_value : GoType → GoValue
unfolding zero_within
zero_value t = zero_within 2 t

abbrev pub zero_values : List Field → Values
zero_values [] = nil
zero_values (f ∷ fs) = cons (zero_value f.type) (zero_values fs)

-- `foldName`, on ASCII letters.
abbrev fold : Bytes → Bytes
fold name = map (λ c. if leb b'a' c && leb c b'z' then c - 32 else c) name

-- The index of the field of a key: the one with that very name, else the first whose name differs in
-- case only.
unfoldable pub index_by : (Bytes → Bool) → List Field → Option ℕ
index_by matches [] = none
index_by matches (f ∷ fs) =
    let rest = index_by matches fs in if matches f.key then some 0 else (do i ← rest; some (suc i))

unfoldable pub field_index : Bytes → List Field → Option ℕ
field_index key fs = elim (index_by (bytes_eq key) fs) [
  | some i ↦ some i
  | none ↦ index_by (λ name. bytes_eq (fold key) (fold name)) fs
]

abbrev pub field_at : List Field → ℕ → Option Field
field_at [] i = none
field_at (f ∷ fs) zero = some f
field_at (f ∷ fs) (suc i) = field_at fs i

abbrev pub value_at : Values → ℕ → Option GoValue
value_at nil i = none
value_at (cons v vs) zero = some v
value_at (cons v vs) (suc i) = value_at vs i

abbrev pub put_at : Values → ℕ → GoValue → Values
put_at nil i x = nil
put_at (cons v vs) zero x = cons x vs
put_at (cons v vs) (suc i) x = cons v (put_at vs i x)

abbrev pub elements_of : GoValue → Values
elements_of (elements vs) = vs
elements_of _ = nil

abbrev pub target_of : GoType → GoValue → GoValue
target_of t (address v) = v
target_of t _ = zero_value t

abbrev pub first_or_zero : GoType → Values → GoValue
first_or_zero t nil = zero_value t
first_or_zero t (cons v vs) = v

abbrev pub rest_of : Values → Values
rest_of nil = nil
rest_of (cons v vs) = vs

abbrev pub is_null : JsonValue → Bool
is_null json_null = true
is_null _ = false

-- A document that is decoded into a variable; `none`: an error. With `strict` a key without a field is
-- one, otherwise it is skipped. null leaves what is no pointer, slice or RawMessage as it is; a key
-- that comes again is decoded into what is there.
unfoldable mutual
  pub decode : Bool → GoType → GoValue → JsonValue → Option GoValue
  decode strict raw_message v j = some (raw j)
  decode strict (pointer t) v j =
      let target = (do x ← decode strict t (target_of t v) j; some (address x)) in
      if is_null j then some nothing else target
  decode strict (slice t) v json_null = some nothing
  decode strict (slice t) v (json_array items) = do
    vs ← decode_items strict t (elements_of v) items
    some (elements vs)
  decode strict string v (json_string s) = some (str s)
  decode strict bool v (json_bool b) = some (boolean b)
  decode strict (struct name) (fielded vs) (json_object members) = do
    vs' ← decode_members strict (fields name) vs members
    some (fielded vs')
  decode strict string v json_null = some v
  decode strict bool v json_null = some v
  decode strict (struct name) v json_null = some v
  decode strict t v j = none

  pub decode_items : Bool → GoType → Values → Items → Option Values
  decode_items strict t vs no_items = some nil
  decode_items strict t vs (item j js) = do
    x ← decode strict t (first_or_zero t vs) j
    xs ← decode_items strict t (rest_of vs) js
    some (cons x xs)

  pub decode_members : Bool → List Field → Values → Members → Option Values
  decode_members strict fs vs no_members = some vs
  decode_members strict fs vs (member key j js) = elim (field_index key fs) [
    | none ↦ if strict then none else decode_members strict fs vs js
    | some i ↦ do
      f ← field_at fs i
      v ← value_at vs i
      x ← decode strict f.type v j
      decode_members strict fs (put_at vs i x) js
  ]

-- What encoding/json finds in a text: its first value, `none` where the syntax is wrong, and whether
-- anything but white space follows.
pub record Text : Type 0 where
  pub value : Option JsonValue
  pub followed : Bool

abbrev pub whole : JsonValue → Text
whole j = record { value = some j; followed = false }

-- `json.Unmarshal` into a new variable refuses what follows the first value; `StrictUnmarshal` does not
-- look at it.
unfoldable pub unmarshal : GoType → Text → Option GoValue
unmarshal t text = do
  j ← text.value
  if text.followed then none else decode false t (zero_value t) j

unfoldable pub strict_unmarshal : GoType → Text → Option GoValue
strict_unmarshal t text = do j ← text.value; decode true t (zero_value t) j
