-- ===== src/Rpc/Types/RoundTrip.antt =====
-- On evm-ingestion/rpc/types.go: what is written by json.Marshal is read back, by json.Unmarshal and by
-- `StrictUnmarshal`.
use l1_data_tools.Common.{
  ℕ, zero, suc, ◌≤◌, ◌≡◌, refl, sym, ap, ap₂, ◌∙◌, Bool, true, false, List, [], ◌∷◌, ◌++◌, some,
  ◌>>=◌, arith, ◌&&◌, Bool-cases, inl, inr, length,
}
use mathlib.Core.List.{append_assoc}
use l1_data_tools.Rpc.Types.{GoType, Field, fields}
use l1_data_tools.Rpc.Types.Values.{
  Members, member, GoValue, address, Values, nil, cons, marshal, marshal_items, marshal_fields,
  is_empty,
}
use l1_data_tools.Rpc.Types.Unmarshal.{
  zero_fields, zero_within, zero_value, value_at, put_at, is_null, decode, decode_items,
  decode_members, unmarshal, strict_unmarshal, whole,
}
use l1_data_tools.Rpc.Types.Typed.{
  HasType, is_string, is_boolean, is_raw, no_raw, no_address, is_address, no_elements, are_elements,
  is_fielded, HasElements, all_elements, next_element, HasFields, all_fields, next_field,
  is_empty_slice, is_nil_raw, is_lost, rank, rank_of, rank_pos, fields-Ranked, rank-le, Ranked,
}
use l1_data_tools.Rpc.Types.Decoded.{member_known}
use l1_data_tools.Rpc.Types.Places.{
  apart, fresh, fields-fresh, both, field_index-append, field_at-append, append, count,
  value_at-append, put_at-append, append-snoc, count-snoc, length-snoc,
}

-- A value that is left out is the zero value.
zero_of_empty :
    (d : ℕ) (t : GoType) (v : GoValue)
    → HasType true t v
    → is_empty v ≡ true
    → is_empty_slice v ≡ false
    → zero_within d t ≡ v
unfolding zero_within
zero_of_empty d t v (is_string []) e e' = refl
zero_of_empty d t v (is_string (x ∷ s)) e e' = cc
zero_of_empty d t v (is_boolean false) e e' = refl
zero_of_empty d t v (is_boolean true) e e' = cc
zero_of_empty d t v (is_raw j) e e' = cc
zero_of_empty d t v no_raw e e' = refl
zero_of_empty d t v (no_address _) e e' = refl
zero_of_empty d t v (is_address _ x h p) e e' = cc
zero_of_empty d t v (no_elements _) e e' = refl
zero_of_empty d t v (are_elements _ nil h) e e' = cc
zero_of_empty d t v (are_elements _ (cons x vs) h) e e' = cc
zero_of_empty d t v (is_fielded name vs h) e e' = cc

no_nil_raw :
    (t : GoType) (v : GoValue) → HasType true t v → is_empty v ≡ false → is_nil_raw t v ≡ false
no_nil_raw t v (is_string s) e = refl
no_nil_raw t v (is_boolean b) e = refl
no_nil_raw t v (is_raw j) e = refl
no_nil_raw t v no_raw e = cc
no_nil_raw t v (no_address _) e = refl
no_nil_raw t v (is_address _ x h p) e = refl
no_nil_raw t v (no_elements _) e = refl
no_nil_raw t v (are_elements _ vs h) e = refl
no_nil_raw t v (is_fielded name vs h) e = refl

filled_target :
    (t : GoType) (v : GoValue)
    → HasType true t v
    → is_null (marshal t v) ≡ false
    → is_nil_raw t v ≡ false
unfolding marshal
filled_target t v (is_string s) e = refl
filled_target t v (is_boolean b) e = refl
filled_target t v (is_raw j) e = refl
filled_target t v no_raw e = cc
filled_target t v (no_address _) e = refl
filled_target t v (is_address _ x h p) e = refl
filled_target t v (no_elements _) e = refl
filled_target t v (are_elements _ vs h) e = refl
filled_target t v (is_fielded name vs h) e = refl

-- The next field's member is decoded to its value.
module _ (strict : Bool) (d : ℕ) (before : List Field) (f : Field) (fs : List Field) (vs : Values)
    (v : GoValue) (zs : Values) (js : Members) (same : count vs ≡ length before)
    (new : apart f before ≡ true)
    (decoded : decode strict f.type (zero_within d f.type) (marshal f.type v) ≡ some v) where
  decode_member :
      decode_members strict
        (before ++ f ∷ fs)
        (append vs (cons (zero_within d f.type) zs))
        (member f.key (marshal f.type v) js)
      ≡ decode_members strict (before ++ f ∷ fs) (append vs (cons v zs)) js
  decode_member =
      let place : value_at (append vs (cons (zero_within d f.type) zs)) (length before)
          ≡ some (zero_within d f.type) =
        ap (value_at (append vs (cons (zero_within d f.type) zs))) (sym same)
        ∙ value_at-append vs (zero_within d f.type) zs in
      let put : put_at (append vs (cons (zero_within d f.type) zs)) (length before) v
          ≡ append vs (cons v zs) =
        ap (λ i. put_at (append vs (cons (zero_within d f.type) zs)) i v) (sym same)
        ∙ put_at-append vs (zero_within d f.type) v zs in
      member_known strict (before ++ f ∷ fs) (append vs (cons (zero_within d f.type) zs)) f.key
        (marshal f.type v) js (length before) (field_index-append before f fs new)
      ∙ (rw (field_at-append before f fs) (rw place (rw decoded (rw put refl))))

-- The fields behind it go on from there.
module _ (strict : Bool) (before : List Field) (f : Field) (fs : List Field) (vs : Values)
    (v : GoValue) (zs us : Values) (js : Members) where
  go_on :
      decode_members strict ((before ++ f ∷ []) ++ fs) (append (append vs (cons v nil)) zs) js
        ≡ some (append (append vs (cons v nil)) us)
      → decode_members strict (before ++ f ∷ fs) (append vs (cons v zs)) js
        ≡ some (append vs (cons v us))
  go_on h =
      ap₂ (λ a b. decode_members strict a b js) (sym (append_assoc before (f ∷ []) fs))
        (sym (append-snoc vs v zs))
      ∙ h
      ∙ ap some (append-snoc vs v us)

module _ (f : Field) (fs : List Field) (v : GoValue) (vs : Values) where
  marshal_omitted :
      (f.omitempty && is_empty v) ≡ true
      → marshal_fields (f ∷ fs) (cons v vs) ≡ marshal_fields fs vs
  unfolding marshal
  marshal_omitted e = rw e refl

  marshal_written :
      (f.omitempty && is_empty v) ≡ false
      → marshal_fields (f ∷ fs) (cons v vs) ≡ member f.key (marshal f.type v) (marshal_fields fs vs)
  unfolding marshal
  marshal_written e = rw e refl

  -- A field that is left out has its zero value, and one that is written is no nil RawMessage.
  omitted_zero :
      (d : ℕ)
      → HasType true f.type v
      → is_lost f v ≡ false
      → (f.omitempty && is_empty v) ≡ true
      → zero_within d f.type ≡ v
  omitted_zero d h kept e =
      let (optional, empty) = both f.omitempty (is_empty v) e in
      zero_of_empty d f.type v h empty (sym (rw optional refl) ∙ kept)

  written_value :
      HasType true f.type v
      → is_lost f v ≡ false
      → (f.omitempty && is_empty v) ≡ false
      → is_nil_raw f.type v ≡ false
  written_value h kept e = elim (Bool-cases f.omitempty) [
    | inl optional ↦ no_nil_raw f.type v h (sym (rw optional refl) ∙ e)
    | inr always ↦ sym (rw always refl) ∙ kept
  ]

mutual
  unfolding decode marshal zero_within zero_value

  decode-marshal :
      (strict : Bool) (t : GoType) (v : GoValue) (d : ℕ)
      → HasType true t v
      → is_nil_raw t v ≡ false
      → rank t ≤ d
      → decode strict t (zero_within d t) (marshal t v) ≡ some v
  decode-marshal strict t v d (is_string s) e h = refl
  decode-marshal strict t v d (is_boolean b) e h = refl
  decode-marshal strict t v d (is_raw j) e h = refl
  decode-marshal strict t v d no_raw e h = cc
  decode-marshal strict t v d (no_address _) e h = refl
  decode-marshal strict t v d (is_address s x x_is filled) e h = rw (filled refl) (
      ap (λ r. r >>= λ y. some (address y))
        (decode-marshal strict s x 2 x_is (filled_target s x x_is (filled refl)) (rank-le s)))
  decode-marshal strict t v d (no_elements _) e h = refl
  decode-marshal strict t v d (are_elements s vs vs_are) e h =
      rw (decode-marshal_items strict s vs vs_are) refl
  decode-marshal strict t v zero (is_fielded name vs vs_are) e h =
      absurd (omega (arith, rank_pos name))
  decode-marshal strict t v (suc d) (is_fielded name vs vs_are) e h =
      rw
        (decode-marshal_fields strict d [] (fields name) nil vs vs_are refl (fields-fresh name)
          (rank_of name) (omega arith) (fields-Ranked name))
        refl

  decode-marshal_items :
      (strict : Bool) (t : GoType) (vs : Values)
      → HasElements true t vs
      → decode_items strict t nil (marshal_items t vs) ≡ some vs
  decode-marshal_items strict t vs (all_elements _) = refl
  decode-marshal_items strict t vs (next_element _ v ws v_is filled ws_are) =
      rw (decode-marshal strict t v 2 v_is (filled refl) (rank-le t))
        (rw (decode-marshal_items strict t ws ws_are) refl)

  decode-marshal_fields :
      (strict : Bool) (d : ℕ) (before fs : List Field) (vs ws : Values)
      → HasFields true fs ws
      → count vs ≡ length before
      → fresh before fs ≡ true
      → (r : ℕ) → r ≤ suc d
      → Ranked r fs
      → decode_members strict
          (before ++ fs)
          (append vs (zero_fields (zero_within d) fs))
          (marshal_fields fs ws)
        ≡ some (append vs ws)
  decode-marshal_fields strict d before fs vs ws all_fields same new r hr ranked = refl
  decode-marshal_fields strict d before fs vs ws (next_field f gs v us v_is kept us_are) same new r
        hr (first, ranked) =
      let (apart_, new') = both (apart f before) (fresh (before ++ f ∷ []) gs) new in
      let same' : count (append vs (cons v nil)) ≡ length (before ++ f ∷ []) =
        count-snoc vs v ∙ ap suc same ∙ sym (length-snoc before f) in
      let zs = zero_fields (zero_within d) gs in
      let tail = go_on strict before f gs vs v zs us (marshal_fields gs us) (
        decode-marshal_fields strict d (before ++ f ∷ []) gs (append vs (cons v nil)) us us_are
          same' new' r hr ranked) in
      elim (Bool-cases (f.omitempty && is_empty v)) [
        | inl omitted ↦
            ap₂ (λ x js. decode_members strict (before ++ f ∷ gs) (append vs (cons x zs)) js)
              (omitted_zero f gs v us d v_is (kept refl) omitted)
              (marshal_omitted f gs v us omitted)
            ∙ tail
        | inr written ↦
            ap
              (decode_members strict (before ++ f ∷ gs)
                (append vs (cons (zero_within d f.type) zs)))
              (marshal_written f gs v us written)
            ∙ decode_member strict d before f gs vs v zs (marshal_fields gs us) same apart_ (
                decode-marshal strict f.type v d v_is
                  (written_value f gs v us v_is (kept refl) written) (omega arith))
            ∙ tail
      ]

-- A normal value that is written by json.Marshal is read back by StrictUnmarshal, and by json.Unmarshal,
-- as the same value. A value is normal where no slice that may be left out is empty but not nil, no
-- RawMessage that may not is nil, and no pointer points to what is written as null.
pub unmarshal-marshal :
    (t : GoType) (v : GoValue)
    → HasType true t v
    → is_nil_raw t v ≡ false
    → (strict_unmarshal t (whole (marshal t v)) ≡ some v)
      × (unmarshal t (whole (marshal t v)) ≡ some v)
unfolding unmarshal strict_unmarshal zero_value
unmarshal-marshal t v h e =
    (decode-marshal true t v 2 h e (rank-le t), decode-marshal false t v 2 h e (rank-le t))
