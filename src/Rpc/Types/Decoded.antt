-- ===== src/Rpc/Types/Decoded.antt =====
-- On evm-ingestion/rpc/types.go: what one member of an object does to the struct that is read.
use l1_data_tools.Common.{ℕ, ◌≡◌, refl, Bool, List, none, some, ◌>>=◌, Bytes, if◌then◌else◌}
use l1_data_tools.Rpc.Types.{Field}
use l1_data_tools.Rpc.Types.Values.{JsonValue, Members, member, Values}
use l1_data_tools.Rpc.Types.Unmarshal.{
  field_index, field_at, value_at, put_at, decode, decode_members,
}

-- What a member does, by the field of its key.
module _ (strict : Bool) (fs : List Field) (vs : Values) (key : Bytes) (j : JsonValue)
    (js : Members) where
  pub member_unknown :
      field_index key fs ≡ none
      → decode_members strict fs vs (member key j js)
        ≡ (if strict then none else decode_members strict fs vs js)
  unfolding decode_members
  member_unknown e = rw (e, decode_members) refl

  pub member_known :
      (i : ℕ)
      → field_index key fs ≡ some i
      → decode_members strict fs vs (member key j js) ≡ (do
        f ← field_at fs i
        v ← value_at vs i
        x ← decode strict f.type v j
        decode_members strict fs (put_at vs i x) js)
  unfolding decode_members
  member_known i e = rw (e, decode_members) refl
