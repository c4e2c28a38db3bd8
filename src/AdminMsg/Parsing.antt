-- ===== src/AdminMsg/Parsing.antt =====
-- The generated parsers and printers of qdcadm/AdminMsg.pb.cc, for the messages that qdcadm uses. A
-- tag of two bytes or more is not one of theirs, so each case of a `switch` is one tag.
use o2k.Prelude.{
  ℕ, ◌^◌, pos, ◌==ℤ◌, ltb, ◌==◌, List, [], ◌∷◌, ◌++◌, length, Option, none, some, if◌then◌else◌,
}
use o2k.AdminMsg.{
  MsgHeader, MsgHeaderWrap, PairIntDbl, PairStrStr, MsgResult, MsgCmd, MsgMetrics, default_wrap,
  default_pair, default_result, default_cmd, header_or_default, Codec,
}
use o2k.AdminMsg.Wire.{Wire, Fields, merge_all}

module _ (wire : Wire) where
  -- `DO_(ReadString(...)); DO_(VerifyUtf8String(...))`
  unfoldable pub read_text : {M : Type 0} → (List ℕ → M) → List ℕ → Option (M × List ℕ)
  read_text put bs = elim (wire.read_string bs) [
    | none ↦ none
    | some (s, rest) ↦ if wire.is_utf8 s then some (put s, rest) else none
  ]

  -- `DO_(ReadMessage(input, sub))`, which merges into `sub`.
  unfoldable pub read_sub : {M N : Type 0} → Fields N → N → (N → M) → List ℕ → Option (M × List ℕ)
  unfolding merge_all
  read_sub fields sub put bs = elim (wire.read_message bs) [
    | none ↦ none
    | some (body, rest) ↦ elim (merge_all wire fields sub body) [
      | none ↦ none
      | some n ↦ some (put n, rest)
    ]
  ]

  -- `DO_(ReadPrimitive(input, &value))`
  abbrev read_value : {M V : Type 0} → (V → M) → Option (V × List ℕ) → Option (M × List ℕ)
  read_value put none = none
  read_value put (some (v, rest)) = some (put v, rest)

  unfoldable pub header_fields : Fields MsgHeader
  header_fields = record {
    field = λ t.
        if t == 8
        then some (λ m bs. read_value (λ v. record m { msg_type = v }) (wire.read_enum bs))
        else none;
    add_unknown = λ u m. record m { unknown = m.unknown ++ u };
  }

  unfoldable pub wrap_fields : Fields MsgHeaderWrap
  unfolding read_sub header_fields
  wrap_fields = record {
    field = λ t.
        if t == 10
        then some (λ m.
          read_sub header_fields (header_or_default m.msg_header)
            (λ h. record m { msg_header = some h }))
        else none;
    add_unknown = λ u m. record m { unknown = m.unknown ++ u };
  }

  unfoldable pub pair_fields : Fields PairStrStr
  unfolding read_text
  pair_fields = record {
    field = λ t.
        if t == 10
        then some (λ m. read_text (λ s. record m { key = s }))
        else if t == 18
        then some (λ m. read_text (λ s. record m { val = s }))
        else none;
    add_unknown = λ u m. record m { unknown = m.unknown ++ u };
  }

  unfoldable pub result_fields : Fields MsgResult
  unfolding read_text read_sub header_fields pair_fields
  result_fields = record {
    field = λ t.
        if t == 10
        then some (λ m.
          read_sub header_fields (header_or_default m.msg_header)
            (λ h. record m { msg_header = some h }))
        else if t == 18
        then some (λ m. read_text (λ s. record m { rc = s }))
        else if t == 26
        then some (λ m. read_text (λ s. record m { msg = s }))
        else if t == 34
        then some (λ m.
          read_sub pair_fields default_pair (λ p. record m { rt_pairs = m.rt_pairs ++ (p ∷ []) }))
        else none;
    add_unknown = λ u m. record m { unknown = m.unknown ++ u };
  }

  unfoldable pub cmd_fields : Fields MsgCmd
  unfolding read_text read_sub header_fields pair_fields
  cmd_fields = record {
    field = λ t.
        if t == 10
        then some (λ m.
          read_sub header_fields (header_or_default m.msg_header)
            (λ h. record m { msg_header = some h }))
        else if t == 18
        then some (λ m. read_text (λ s. record m { cmd = s }))
        else if t == 26
        then some (λ m.
          read_sub pair_fields default_pair (λ p. record m { params = m.params ++ (p ∷ []) }))
        else none;
    add_unknown = λ u m. record m { unknown = m.unknown ++ u };
  }

  unfoldable pub proc_fields : Fields PairIntDbl
  proc_fields = record {
    field = λ t.
        if t == 8
        then some (λ m bs. read_value (λ v. record m { key = v }) (wire.read_int64 bs))
        else if t == 17
        then some (λ m bs. read_value (λ v. record m { val = v }) (wire.read_double bs))
        else none;
    add_unknown = λ u m. record m { unknown = m.unknown ++ u };
  }

  unfoldable pub metrics_fields : Fields MsgMetrics
  unfolding read_sub header_fields proc_fields
  metrics_fields = record {
    field = λ t.
        if t == 10
        then some (λ m.
          read_sub header_fields (header_or_default m.msg_header)
            (λ h. record m { msg_header = some h }))
        else if t == 17
        then some
            (λ m bs. read_value (λ v. record m { trans_commit_total = v }) (wire.read_double bs))
        else if t == 26
        then some (λ m.
          read_sub proc_fields (record { key = pos 0; val = 0; unknown = [] })
            (λ p. record m { trans_begin_proc = m.trans_begin_proc ++ (p ∷ []) }))
        else none;
    add_unknown = λ u m. record m { unknown = m.unknown ++ u };
  }

  -- A string field and a message field, as they are written.
  abbrev pub text_field : ℕ → List ℕ → List ℕ
  text_field t [] = []
  text_field t (c ∷ s) = wire.write_tag t ++ wire.write_delimited (c ∷ s)

  abbrev pub sub_field : ℕ → List ℕ → List ℕ
  sub_field t body = wire.write_tag t ++ wire.write_delimited body

  -- `SerializeUnknownFields` under its test.
  abbrev pub kept : List ℕ → List ℕ
  kept unknown = if wire.keeps_unknown then unknown else []

  unfoldable pub header_bytes : MsgHeader → List ℕ
  header_bytes m =
      (if m.msg_type ==ℤ pos 0 then [] else wire.write_tag 8 ++ wire.write_enum m.msg_type)
      ++ kept m.unknown

  unfoldable pub pair_bytes : PairStrStr → List ℕ
  pair_bytes m = text_field 10 m.key ++ (text_field 18 m.val ++ kept m.unknown)

  abbrev pub header_field : Option MsgHeader → List ℕ
  header_field none = []
  header_field (some h) = sub_field 10 (header_bytes h)

  abbrev pub pair_list : ℕ → List PairStrStr → List ℕ
  pair_list t [] = []
  pair_list t (p ∷ ps) = sub_field t (pair_bytes p) ++ pair_list t ps

  unfoldable pub result_bytes : MsgResult → List ℕ
  unfolding header_bytes pair_bytes
  result_bytes m =
      header_field m.msg_header
      ++ (text_field 18 m.rc
          ++ (text_field 26 m.msg ++ (pair_list 34 m.rt_pairs ++ kept m.unknown)))

  unfoldable pub cmd_bytes : MsgCmd → List ℕ
  unfolding header_bytes pair_bytes
  cmd_bytes m =
      header_field m.msg_header
      ++ (text_field 18 m.cmd ++ (pair_list 26 m.params ++ kept m.unknown))

  -- `SerializeToString`, which refuses a message of 2 GB.
  abbrev serialized : List ℕ → Option (List ℕ)
  serialized bytes = if ltb (length bytes) (2 ^ 31) then some bytes else none

  unfoldable pub pb_codec : Codec
  unfolding wrap_fields cmd_fields result_fields metrics_fields result_bytes cmd_bytes merge_all
  pb_codec = record {
    parse_wrap = merge_all wire wrap_fields default_wrap;
    parse_cmd = merge_all wire cmd_fields default_cmd;
    parse_result = merge_all wire result_fields default_result;
    parse_metrics =
        merge_all wire metrics_fields (record {
          msg_header = none;
          trans_commit_total = 0;
          trans_begin_proc = [];
          unknown = [];
        });
    serialize_cmd = λ m. serialized (cmd_bytes m);
    serialize_result = λ m. serialized (result_bytes m);
  }
