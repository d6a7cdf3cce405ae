-- ===== src/Rpc/Types/Values.antt =====
-- The values of the types of evm-ingestion/rpc/types.go, JSON documents, and json.Marshal.
use l1_data_tools.Common.{Bool, true, false, List, [], ◌∷◌, Bytes, ◌&&◌, if◌then◌else◌}
use l1_data_tools.Rpc.Types.{GoType, pointer, slice, struct, Field, fields}

-- A document that encoding/json reads or writes. A number is kept as its text.
mutual
  pub data JsonValue : Type 0 where
    json_null : JsonValue
    json_bool : Bool → JsonValue
    json_number : Bytes → JsonValue
    json_string : Bytes → JsonValue
    json_array : Items → JsonValue
    json_object : Members → JsonValue

  pub data Items : Type 0 where
    no_items : Items
    item : JsonValue → Items → Items

  pub data Members : Type 0 where
    no_members : Members
    member : Bytes → JsonValue → Members → Members

-- `nothing` is nil, of a pointer, a slice or a RawMessage. A struct has its fields' values in order.
mutual
  pub data GoValue : Type 0 where
    str : Bytes → GoValue
    boolean : Bool → GoValue
    raw : JsonValue → GoValue
    nothing : GoValue
    address : GoValue → GoValue
    elements : Values → GoValue
    fielded : Values → GoValue

  pub data Values : Type 0 where
    nil : Values
    cons : GoValue → Values → Values

-- `isEmptyValue`
abbrev pub is_empty : GoValue → Bool
is_empty (str []) = true
is_empty (boolean false) = true
is_empty nothing = true
is_empty (elements nil) = true
is_empty _ = false

-- `json.Marshal`, on values of the type.
unfoldable mutual
  pub marshal : GoType → GoValue → JsonValue
  marshal t (str s) = json_string s
  marshal t (boolean b) = json_bool b
  marshal t (raw j) = j
  marshal t nothing = json_null
  marshal (pointer t) (address v) = marshal t v
  marshal t (address v) = json_null
  marshal (slice t) (elements vs) = json_array (marshal_items t vs)
  marshal t (elements vs) = json_null
  marshal (struct name) (fielded vs) = json_object (marshal_fields (fields name) vs)
  marshal t (fielded vs) = json_null

  pub marshal_items : GoType → Values → Items
  marshal_items t nil = no_items
  marshal_items t (cons v vs) = item (marshal t v) (marshal_items t vs)

  pub marshal_fields : List Field → Values → Members
  marshal_fields [] vs = no_members
  marshal_fields (f ∷ fs) nil = no_members
  marshal_fields (f ∷ fs) (cons v vs) =
      let rest = marshal_fields fs vs in
      if f.omitempty && is_empty v then rest else member f.key (marshal f.type v) rest
