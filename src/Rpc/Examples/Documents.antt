-- ===== src/Rpc/Examples/Documents.antt =====
-- The theorems on evm-ingestion/rpc/types.go at concrete documents.
use l1_data_tools.Common.{
  ◌≡◌, refl, true, [], Option, none, some, Bytes, codes, compare_bytes, if◌then◌else◌,
}
use l1_data_tools.Common.Int.{pos}
use l1_data_tools.Hex.{trim_0x, parse_uint16, scan_hex, push_digit}
use l1_data_tools.Storage.Sample.{copy}
use l1_data_tools.Ingestion.{parse_block_number}
use l1_data_tools.Client.{parse_line}
use l1_data_tools.Rpc.Fetcher.Call.{Response}
use l1_data_tools.Rpc.Fetcher.Fetch.{hash_of, put}
use l1_data_tools.Rpc.Fetcher.Single.{store_receipt}
use l1_data_tools.Rpc.Types.{struct, receipt, trace_result, normalized_block, block, fields}
use l1_data_tools.Rpc.Types.Values.{
  JsonValue, json_null, json_bool, json_string, json_object, member, no_members, GoValue, str,
  nothing, fielded, nil, cons, marshal,
}
use l1_data_tools.Rpc.Types.Unmarshal.{
  field_index, index_by, zero_value, decode, unmarshal, strict_unmarshal, Text, whole,
}
use l1_data_tools.Rpc.Types.Typed.{
  HasType, is_string, no_elements, no_address, is_fielded, all_fields, next_field,
}
use l1_data_tools.Rpc.Types.RoundTrip.{unmarshal-marshal}
use l1_data_tools.Rpc.Types.Strict.{knows_first, strict_unmarshal-unmarshal}
use l1_data_tools.Rpc.Types.Wire.{
  client_json, answers_json, block_codec, parse_line-marshal, store_receipt-null,
}

-- A transaction that could not be traced.
abbrev untraced : GoValue
untraced = fielded (cons (str (codes "0xa")) (cons nothing nil))

abbrev untraced_document : JsonValue
untraced_document = json_object (
    member (codes "TXHASH") (json_string (codes "0xa"))
      (member (codes "result") json_null no_members))

untraced_read : strict_unmarshal (struct trace_result) (whole untraced_document) ≡ some untraced
unfolding strict_unmarshal zero_value decode fields field_index index_by compare_bytes
untraced_read = refl

untraced-HasType : HasType true (struct trace_result) untraced
unfolding fields
untraced-HasType = is_fielded trace_result _ (
    next_field _ _ (str (codes "0xa")) _ (is_string (codes "0xa")) (λ e. refl)
      (next_field _ _ (nothing) _ (no_address _) (λ e. refl) (all_fields)))

unmarshal-marshal_example :
    (strict_unmarshal (struct trace_result) (whole (marshal (struct trace_result) untraced))
      ≡ some untraced)
    × (unmarshal (struct trace_result) (whole (marshal (struct trace_result) untraced))
        ≡ some untraced)
unmarshal-marshal_example = unmarshal-marshal (struct trace_result) untraced untraced-HasType refl

-- The same with a key that the struct does not have.
abbrev newer_document : JsonValue
newer_document = json_object (member (codes "gas") (json_bool true) no_members)

-- Two documents, one after the other.
abbrev two_documents : Text
two_documents = record { value = some untraced_document; followed = true }

strict_unmarshal-unmarshal_example : strict_unmarshal (struct trace_result) two_documents ≡ (
    if knows_first (struct trace_result) two_documents
    then unmarshal (struct trace_result) (whole untraced_document)
    else none)
strict_unmarshal-unmarshal_example = strict_unmarshal-unmarshal (struct trace_result) two_documents

two_read :
    (strict_unmarshal (struct trace_result) two_documents ≡ some untraced)
    × (unmarshal (struct trace_result) two_documents ≡ none)
unfolding strict_unmarshal unmarshal zero_value decode fields field_index index_by compare_bytes
two_read = (refl, refl)

newer_refused : strict_unmarshal (struct trace_result) (whole newer_document) ≡ none
unfolding strict_unmarshal zero_value decode fields field_index index_by compare_bytes
newer_refused = refl

-- An empty block of number 1.
abbrev first_block : GoValue
first_block = fielded (
    cons
      (fielded (
        cons (str (codes "0x1")) (
          cons (str []) (
            cons (str []) (
              cons (str []) (
                cons (str []) (
                  cons (str []) (
                    cons (str []) (
                      cons (str []) (
                        cons (str []) (
                          cons (str []) (
                            cons (str []) (
                              cons (str []) (
                                cons (nothing) (
                                  cons (str []) (
                                    cons (str []) (
                                      cons (str []) (
                                        cons (str []) (
                                          cons (str []) (
                                            cons (str []) (
                                              cons (str []) (
                                                cons (str []) (
                                                  cons (str []) (
                                                    cons (str []) (
                                                      cons (str []) (
                                                        cons (nothing) (
                                                          cons (str []) (
                                                            cons (str []) (
                                                            cons (str []) (
                                                            cons (str []) (
                                                            cons (str [])
                                                            (nil))))))))))))))))))))))))))))))))
      (cons nothing (cons nothing nil)))

first_block-HasType : HasType true (struct normalized_block) first_block
unfolding fields
first_block-HasType = is_fielded normalized_block _ (
    next_field _ _ _ _
      (is_fielded block _ (
        next_field _ _ (str (codes "0x1")) _ (is_string (codes "0x1")) (λ e. refl)
          (next_field _ _ (str []) _ (is_string []) (λ e. refl)
            (next_field _ _ (str []) _ (is_string []) (λ e. refl)
              (next_field _ _ (str []) _ (is_string []) (λ e. refl)
                (next_field _ _ (str []) _ (is_string []) (λ e. refl)
                  (next_field _ _ (str []) _ (is_string []) (λ e. refl)
                    (next_field _ _ (str []) _ (is_string []) (λ e. refl)
                      (next_field _ _ (str []) _ (is_string []) (λ e. refl)
                        (next_field _ _ (str []) _ (is_string []) (λ e. refl)
                          (next_field _ _ (str []) _ (is_string []) (λ e. refl)
                            (next_field _ _ (str []) _ (is_string []) (λ e. refl)
                              (next_field _ _ (str []) _ (is_string []) (λ e. refl)
                                (next_field _ _ (nothing) _ (no_elements _) (λ e. refl)
                                  (next_field _ _ (str []) _ (is_string []) (λ e. refl)
                                    (next_field _ _ (str []) _ (is_string []) (λ e. refl)
                                      (next_field _ _ (str []) _ (is_string []) (λ e. refl)
                                        (next_field _ _ (str []) _ (is_string []) (λ e. refl)
                                          (next_field _ _ (str []) _ (is_string []) (λ e. refl)
                                            (next_field _ _ (str []) _ (is_string []) (λ e. refl)
                                              (next_field _ _ (str []) _ (is_string []) (λ e. refl)
                                                (next_field _ _ (str []) _ (is_string [])
                                                  (λ e. refl)
                                                  (next_field _ _ (str []) _ (is_string [])
                                                    (λ e. refl)
                                                    (next_field _ _ (str []) _ (is_string [])
                                                      (λ e. refl)
                                                      (next_field _ _ (str []) _ (is_string [])
                                                        (λ e. refl)
                                                        (next_field _ _ (nothing) _ (no_elements _)
                                                          (λ e. refl)
                                                          (next_field _ _ (str []) _ (is_string [])
                                                            (λ e. refl)
                                                            (next_field _ _ (str []) _
                                                            (is_string []) (λ e. refl)
                                                            (next_field _ _ (str []) _
                                                            (is_string []) (λ e. refl)
                                                            (next_field _ _ (str []) _
                                                            (is_string []) (λ e. refl)
                                                            (next_field _ _ (str []) _
                                                            (is_string []) (λ e. refl)
                                                            (all_fields))))))))))))))))))))))))))))))))
      (λ e. refl)
      (next_field _ _ _ _ (no_elements _) (λ e. refl)
        (next_field _ _ _ _ (no_elements _) (λ e. refl) all_fields)))

-- An encoding of this one document.
abbrev print : JsonValue → Bytes
print j = codes "{}"

abbrev parse : Bytes → Text
parse line = whole (marshal (struct normalized_block) first_block)

first_number : parse_block_number ((block_codec print).number first_block) ≡ some 1
unfolding parse_block_number trim_0x parse_uint16 scan_hex push_digit
first_number = refl

parse_line-marshal_example :
    parse_line copy (client_json parse) (codes "{}")
    ≡ some (record { number = 1; content = first_block })
parse_line-marshal_example =
    parse_line-marshal copy parse print first_block 1 (codes "{}") first_block-HasType refl
      first_number refl

abbrev null_answer : Response
null_answer = record { id = pos 0; error = none; result = codes "null" }

abbrev parse_null : Bytes → Text
parse_null t = whole json_null

abbrev nothing_yet : Bytes → Option GoValue
nothing_yet hash = none

store_receipt-null_example :
    store_receipt (answers_json parse_null) [] null_answer nothing_yet
    ≡ some (put (hash_of [] (pos 0)) (zero_value (struct receipt)) nothing_yet)
store_receipt-null_example = store_receipt-null parse_null [] null_answer nothing_yet refl
