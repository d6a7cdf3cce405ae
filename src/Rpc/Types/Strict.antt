-- ===== src/Rpc/Types/Strict.antt =====
-- On `StrictUnmarshal` of evm-ingestion/rpc/types.go: what it refuses besides what json.Unmarshal does.
use l1_data_tools.Common.{
  ℕ, ◌≡◌, refl, sym, ap, ◌∙◌, Bool, true, false, List, Option, none, some, ◌>>=◌, Bytes, ◌&&◌,
  if◌then◌else◌, Option-cases, inl, inr,
}
use mathlib.Core.Path.{fun_ext}
use l1_data_tools.Rpc.Types.{
  GoType, string, bool, raw_message, pointer, slice, struct, Field, fields,
}
use l1_data_tools.Rpc.Types.Values.{
  JsonValue, json_null, json_bool, json_string, json_array, json_object, Items, no_items, item,
  Members, no_members, member, GoValue, nothing, address, elements, fielded, Values, cons,
}
use l1_data_tools.Rpc.Types.Unmarshal.{
  zero_value, field_index, field_at, value_at, put_at, elements_of, target_of, first_or_zero,
  rest_of, is_null, decode, decode_items, decode_members, unmarshal, strict_unmarshal, Text,
}
use l1_data_tools.Rpc.Types.Decoded.{member_unknown, member_known}

-- Each key of each object that is read as a struct is one of its fields'.
unfoldable mutual
  pub knows : GoType → JsonValue → Bool
  knows raw_message j = true
  knows (pointer t) j = knows t j
  knows (slice t) (json_array js) = knows_items t js
  knows (struct name) (json_object js) = knows_members (fields name) js
  knows t j = true

  pub knows_items : GoType → Items → Bool
  knows_items t no_items = true
  knows_items t (item j js) = knows t j && knows_items t js

  pub knows_members : List Field → Members → Bool
  knows_members fs no_members = true
  knows_members fs (member key j js) = elim (field_index key fs >>= field_at fs) [
    | none ↦ false
    | some f ↦ knows f.type j && knows_members fs js
  ]

abbrev when : {A : Type 0} → Bool → Option A → Option A
when b m = if b then m else none

bind_none :
    {A B : Type 0} (m : Option A) (k : A → Option B) → ((x : A) → k x ≡ none) → (m >>= k) ≡ none
bind_none none k h = refl
bind_none (some x) k h = h x

-- Tests that come before the steps they are about come before all of them.
when-bind :
    {A B : Type 0} (a b : Bool) (m : Option A) (k : A → Option B)
    → (when a m >>= λ x. when b (k x)) ≡ when (a && b) (m >>= k)
when-bind true true m k = refl
when-bind true false m k = bind_none m _ (λ x. refl)
when-bind false b m k = refl

when-bind_one :
    {A B : Type 0} (a : Bool) (m : Option A) (k : A → Option B)
    → (when a m >>= k) ≡ when a (m >>= k)
when-bind_one true m k = refl
when-bind_one false m k = refl

when-none : {A : Type 0} (a : Bool) → when {A = A} a none ≡ none
when-none true = refl
when-none false = refl

when-if :
    {A : Type 0} (n a : Bool) (x m : Option A)
    → (n ≡ true → a ≡ true)
    → (if n then x else when a m) ≡ when a (if n then x else m)
when-if true a x m h = rw (h refl) refl
when-if false a x m h = refl

knows-null : (t : GoType) (j : JsonValue) → is_null j ≡ true → knows t j ≡ true
unfolding knows
knows-null raw_message j e = refl
knows-null (pointer t) j e = knows-null t j e
knows-null (slice t) json_null e = refl
knows-null (slice t) _ e = cc
knows-null (struct name) json_null e = refl
knows-null (struct name) _ e = cc
knows-null string j e = refl
knows-null bool j e = refl

-- One step and the ones behind it, each with its test.
after :
    {A B : Type 0} (a b : Bool) (m' m : Option A) (k' k : A → Option B)
    → m' ≡ when a m
    → ((x : A) → k' x ≡ when b (k x))
    → (m' >>= k') ≡ when (a && b) (m >>= k)
after a b m' m k' k e h =
    ap (λ r. r >>= k') e ∙ ap (λ f. when a m >>= f) (fun_ext h) ∙ when-bind a b m k

module _ (fs : List Field) (key : Bytes) (j : JsonValue) (js : Members) where
  knows_not :
      (field_index key fs >>= field_at fs) ≡ none → knows_members fs (member key j js) ≡ false
  unfolding knows
  knows_not e = rw (e, knows_members) refl

  knows_at :
      (f : Field)
      → (field_index key fs >>= field_at fs) ≡ some f
      → knows_members fs (member key j js) ≡ (knows f.type j && knows_members fs js)
  unfolding knows
  knows_at f e = rw (e, knows_members) refl

known_member :
    (fs : List Field) (vs : Values) (key : Bytes) (j : JsonValue) (js : Members) (i : ℕ)
    → field_index key fs ≡ some i
    → ((f : Field) (v : GoValue)
        → decode true f.type v j ≡ when (knows f.type j) (decode false f.type v j))
    → ((ws : Values)
        → decode_members true fs ws js ≡ when (knows_members fs js) (decode_members false fs ws js))
    → (do
      f ← field_at fs i
      v ← value_at vs i
      x ← decode true f.type v j
      decode_members true fs (put_at vs i x) js)
      ≡ when (knows_members fs (member key j js)) (do
        f ← field_at fs i
        v ← value_at vs i
        x ← decode false f.type v j
        decode_members false fs (put_at vs i x) js)
known_member fs vs key j js i known here rest = elim (Option-cases (field_at fs i)) [
  | inl gone ↦ rw gone (sym (when-none (knows_members fs (member key j js))))
  | inr (f, at) ↦ rw at (elim (Option-cases (value_at vs i)) [
    | inl gone ↦ rw gone (sym (when-none (knows_members fs (member key j js))))
    | inr (v, there) ↦ rw there (
        after (knows f.type j) (knows_members fs js) (decode true f.type v j)
          (decode false f.type v j) (λ x. decode_members true fs (put_at vs i x) js)
          (λ x. decode_members false fs (put_at vs i x) js) (here f v) (λ x. rest (put_at vs i x))
        ∙ sym (
            ap
              (λ b.
                when b
                  (decode false f.type v j >>= λ x. decode_members false fs (put_at vs i x) js))
              (knows_at fs key j js f (rw known at))))
  ])
]

mutual
  unfolding decode knows

  decode-strict :
      (t : GoType) (v : GoValue) (j : JsonValue)
      → decode true t v j ≡ when (knows t j) (decode false t v j)
  decode-strict raw_message v j = refl
  decode-strict (pointer t) v j =
      ap (λ r. if is_null j then some nothing else r)
        (ap (λ r. r >>= λ x. some (address x)) (decode-strict t (target_of t v) j)
          ∙ when-bind_one (knows t j) (decode false t (target_of t v) j) (λ x. some (address x)))
      ∙ when-if (is_null j) (knows t j) (some nothing) _ (knows-null t j)
  decode-strict (slice t) v (json_array items) =
      ap (λ r. r >>= λ vs. some (elements vs)) (decode_items-strict t (elements_of v) items)
      ∙ when-bind_one (knows_items t items) (decode_items false t (elements_of v) items)
          (λ vs. some (elements vs))
  decode-strict (slice t) v _ = refl
  decode-strict (struct name) (fielded vs) (json_object members) =
      ap (λ r. r >>= λ ws. some (fielded ws)) (decode_members-strict (fields name) vs members)
      ∙ when-bind_one (knows_members (fields name) members)
          (decode_members false (fields name) vs members) (λ ws. some (fielded ws))
  decode-strict (struct name) v (json_object members) =
      sym (when-none (knows_members (fields name) members))
  decode-strict (struct name) v _ = refl
  decode-strict string v (json_string s) = refl
  decode-strict string v json_null = refl
  decode-strict string v _ = refl
  decode-strict bool v (json_bool b) = refl
  decode-strict bool v json_null = refl
  decode-strict bool v _ = refl

  decode_items-strict :
      (t : GoType) (vs : Values) (js : Items)
      → decode_items true t vs js ≡ when (knows_items t js) (decode_items false t vs js)
  decode_items-strict t vs no_items = refl
  decode_items-strict t vs (item j js) =
      after (knows t j) (knows_items t js) (decode true t (first_or_zero t vs) j)
        (decode false t (first_or_zero t vs) j)
        (λ x. decode_items true t (rest_of vs) js >>= λ xs. some (cons x xs))
        (λ x. decode_items false t (rest_of vs) js >>= λ xs. some (cons x xs))
        (decode-strict t (first_or_zero t vs) j)
        (λ x.
          ap (λ r. r >>= λ xs. some (cons x xs)) (decode_items-strict t (rest_of vs) js)
          ∙ when-bind_one (knows_items t js) (decode_items false t (rest_of vs) js)
              (λ xs. some (cons x xs)))

  decode_members-strict :
      (fs : List Field) (vs : Values) (js : Members)
      → decode_members true fs vs js ≡ when (knows_members fs js) (decode_members false fs vs js)
  decode_members-strict fs vs no_members = refl
  decode_members-strict fs vs (member key j js) = elim (Option-cases (field_index key fs)) [
    | inl unknown ↦
        member_unknown true fs vs key j js unknown
        ∙ sym (
            ap (λ b. when b (decode_members false fs vs (member key j js)))
              (knows_not fs key j js (rw unknown refl)))
    | inr (i, known) ↦
        member_known true fs vs key j js i known
        ∙ known_member fs vs key j js i known (λ f v. decode-strict f.type v j)
            (λ ws. decode_members-strict fs ws js)
        ∙ sym (
            ap (when (knows_members fs (member key j js)))
              (member_known false fs vs key j js i known))
  ]

-- Whether the first value of a text, if there is one, has only keys of the structs.
abbrev pub knows_first : GoType → Text → Bool
knows_first t text = elim text.value [ none ↦ true | some j ↦ knows t j ]

-- `StrictUnmarshal` is json.Unmarshal of the text without what follows its first value, but for an error
-- where a key of an object that is read as a struct is none of the struct's, at any depth.
pub strict_unmarshal-unmarshal :
    (t : GoType) (text : Text)
    → strict_unmarshal t text
      ≡ (if knows_first t text then unmarshal t (record text { followed = false }) else none)
unfolding strict_unmarshal unmarshal
strict_unmarshal-unmarshal t text = elim (Option-cases text.value) [
  | inl wrong ↦ rw wrong refl
  | inr (j, read) ↦ rw read (decode-strict t (zero_value t) j)
]
