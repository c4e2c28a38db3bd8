-- ===== src/MsgRw/Encoding.antt =====
-- That the generated code of qdcadm/AdminMsg.pb.cc has what the exchange of a reply relies on.
use o2k.Prelude.{
  ℕ, suc, ◌%◌, ◌<◌, ◌≡◌, refl, ap, sym, subst, ◌∙◌, ◌==◌, true, false, List, [], ◌∷◌, ◌++◌, map,
  append_assoc, All, length, Option, none, some, until_nul, arith,
}
use o2k.AdminMsg.{MsgHeader, PairStrStr, default_header, default_wrap, default_result}
use o2k.AdminMsg.Wire.{Wire, IsEncoding, Fields, tag, handle, merge, merge_all}
use o2k.AdminMsg.Parsing.{
  read_sub, header_fields, wrap_fields, result_fields, text_field, sub_field, kept, header_bytes,
  pair_bytes, pair_list, result_bytes, cmd_bytes, pb_codec,
}
use o2k.AdminMsg.Steps.{
  Parses, Parses-delimited, Parses-sub, Parses-kept, Parses-at, header-Parses, nothing_kept,
  header_of_type,
}
use o2k.AdminMsg.Steps
use o2k.AdminMsg.RoundTrip.{serialize_result-parse_result, serialized_size}
use o2k.StrMap.{StrMap}
use o2k.Qdcadm.Termination.{IsBounded}
use o2k.MsgRw.Messages.{pair_of}
use o2k.MsgRw.Reply.{reply_msg, IsWire}

module _ (wire : Wire) (enc : IsEncoding wire) where
  pair_of-AreTexts :
      (apdmsg : StrMap)
      → All (λ kv. (wire.is_utf8 kv.0 ≡ true) × (wire.is_utf8 kv.1 ≡ true)) apdmsg
      → Steps.AreTexts wire enc (map pair_of apdmsg)
  pair_of-AreTexts [] h = tt
  pair_of-AreTexts ((k, v) ∷ kvs) ((text, text'), more) =
      ((text, text', refl), pair_of-AreTexts kvs more)

  -- Fields that `MsgHeaderWrap` does not declare are kept.
  Swallows : List ℕ → Type 0
  Swallows bs =
      (h : Option MsgHeader) (u : List ℕ)
      → (u' : List ℕ) × Parses wire enc (wrap_fields wire) (record { msg_header = h; unknown = u })
          bs (record { msg_header = h; unknown = u' })

  kept-Swallows : Swallows (kept wire [])
  unfolding Swallows
  kept-Swallows h u = (u, Parses-kept wire enc (wrap_fields wire) _)

  field-Swallows :
      (t : ℕ) (s rest : List ℕ)
      → 10 < t
      → t < 128
      → t % 8 ≡ 2
      → Swallows rest
      → Swallows (sub_field wire t s ++ rest)
  unfolding Swallows wrap_fields
  field-Swallows t s rest above below delimited more h u =
      let bytes = wire.write_tag t ++ wire.write_delimited s in
      let (u', ih) = more h (u ++ bytes) in
      let other : (t == 10) ≡ false = ground arith in
      (
        u',
        Parses-delimited wire enc (wrap_fields wire) t (omega arith) below s rest
            (record { msg_header = h; unknown = u })
            (record { msg_header = h; unknown = u ++ bytes })
            (record { msg_header = h; unknown = u' })
            (λ small. rw (other, handle) (rw (enc.delimited_skip t s rest delimited small) refl))
            ih,
      )

  text-Swallows :
      (t : ℕ) (s rest : List ℕ)
      → 10 < t
      → t < 128
      → t % 8 ≡ 2
      → Swallows rest
      → Swallows (text_field wire t s ++ rest)
  text-Swallows t [] rest above below delimited more = more
  text-Swallows t (c ∷ s) rest above below delimited more =
      field-Swallows t (c ∷ s) rest above below delimited more

  pairs-Swallows :
      (ps : List PairStrStr) (rest : List ℕ)
      → Swallows rest
      → Swallows (pair_list wire 34 ps ++ rest)
  pairs-Swallows [] rest more = more
  pairs-Swallows (p ∷ ps) rest more =
      subst Swallows
        (sym (append_assoc (sub_field wire 34 (pair_bytes wire p)) (pair_list wire 34 ps) rest))
        (field-Swallows 34 (pair_bytes wire p) (pair_list wire 34 ps ++ rest) (omega arith)
          (omega arith) refl (pairs-Swallows ps rest more))

  header_back_lem :
      (rc msg : List ℕ) (apdmsg : StrMap) (pkg : List ℕ)
      → (pb_codec wire).serialize_result (reply_msg rc msg apdmsg) ≡ some pkg
      → (unknown : List ℕ) × ((pb_codec wire).parse_wrap pkg
          ≡ some (record { msg_header = some (header_of_type wire enc 0); unknown = unknown }))
  unfolding pb_codec merge_all result_bytes wrap_fields Swallows
  header_back_lem rc msg apdmsg pkg made =
      let fields = wrap_fields wire in
      let bytes = result_bytes wire (reply_msg rc msg apdmsg) in
      let (same, size) = serialized_size wire enc bytes pkg made in
      let ps = map pair_of apdmsg in
      let rest =
        text_field wire 18 rc
        ++ (text_field wire 26 msg ++ (pair_list wire 34 ps ++ kept wire [])) in
      let (u, after) =
        text-Swallows 18 rc _ (omega arith) (omega arith) refl
          (text-Swallows 26 msg _ (omega arith) (omega arith) refl
            (pairs-Swallows ps _ kept-Swallows))
          (some (header_of_type wire enc 0)) [] in
      (
        u,
        subst
            (λ p.
              merge_all wire fields default_wrap p
              ≡ some (record { msg_header = some (header_of_type wire enc 0); unknown = u }))
            same
            (Parses-sub wire enc fields 10 (omega arith) (omega arith) (header_fields wire)
              default_header (header_of_type wire enc 0)
              (λ h. record default_wrap { msg_header = some h }) default_wrap
              (header_bytes wire (header_of_type wire enc 0)) rest _ (λ bs. refl)
              (header-Parses wire enc 0 (omega arith)) after size (suc (length bytes))
              (omega arith)),
      )

  -- A reply starts with an empty header.
  abbrev behind : List ℕ → List ℕ → StrMap → List ℕ
  behind rc msg apdmsg =
      text_field wire 18 rc
      ++ (text_field wire 26 msg ++ (pair_list wire 34 (map pair_of apdmsg) ++ kept wire []))

  reply_front :
      (rc msg : List ℕ) (apdmsg : StrMap)
      → result_bytes wire (reply_msg rc msg apdmsg) ≡ 10 ∷ 0 ∷ behind rc msg apdmsg
  unfolding result_bytes header_bytes
  reply_front rc msg apdmsg =
      let field : sub_field wire 10 (kept wire []) ≡ 10 ∷ 0 ∷ [] =
        ap (sub_field wire 10) (nothing_kept wire enc)
        ∙ ap (λ bs. wire.write_tag 10 ++ bs) (enc.delimited_none)
        ∙ ap (λ bs. bs ++ (0 ∷ [])) (enc.tag_bytes 10 (omega arith) (omega arith)) in
      ap (λ bs. bs ++ behind rc msg apdmsg) field

  -- Nothing follows the tag of a header.
  cut_header :
      {M : Type 0} (fields : Fields M) (m : M)
      → handle wire fields 10 m [] ≡ none
      → merge_all wire fields m (10 ∷ []) ≡ none
  unfolding merge_all merge
  cut_header fields m e =
      let read : wire.read_tag (10 ∷ []) ≡ tag 10 [] =
        rw (enc.tag_bytes 10 (omega arith) (omega arith)) at
          (enc.tag_read 10 [] (omega arith) (omega arith)) in
      rw (read, merge) (rw e refl)

  no_header :
      {M : Type 0} (put : MsgHeader → M)
      → read_sub wire (header_fields wire) default_header put [] ≡ none
  unfolding read_sub
  no_header put = rw (enc.message_none, read_sub) refl

  front_lem :
      (rc msg : List ℕ) (apdmsg : StrMap) (pkg : List ℕ)
      → (pb_codec wire).serialize_result (reply_msg rc msg apdmsg) ≡ some pkg
      → ((pb_codec wire).parse_result (until_nul pkg) ≡ none)
        × ((pb_codec wire).parse_wrap (until_nul pkg) ≡ none)
  unfolding pb_codec result_fields wrap_fields read_sub
  front_lem rc msg apdmsg pkg made =
      let (same, size) =
        serialized_size wire enc (result_bytes wire (reply_msg rc msg apdmsg)) pkg made in
      let front = reply_front rc msg apdmsg in
      let cut : until_nul pkg ≡ 10 ∷ [] = ap until_nul (sym same ∙ front) in
      rw cut (
        cut_header (result_fields wire) default_result
            (no_header (λ h. record default_result { msg_header = some h })),
        cut_header (wrap_fields wire) default_wrap
            (no_header (λ h. record default_wrap { msg_header = some h })),
      )

  -- The generated parsers and printers of the messages keep what the exchange of a reply relies on, its
  -- texts being in UTF-8: a reply that was serialized parses to itself, as a message of which only the
  -- header is declared its header is that of a result, and its bytes before the first NUL are refused;
  -- and a command that was serialized has less than 2 GB.
  pub pb_codec-IsWire : IsWire (pb_codec wire) × IsBounded (pb_codec wire)
  unfolding pb_codec
  pb_codec-IsWire = (
    record {
      is_text = wire.is_utf8;
      result_back = λ rc msg apdmsg pkg (text, text', texts) made.
          serialize_result-parse_result wire enc 0 rc msg (map pair_of apdmsg) pkg (omega arith)
            text text' (pair_of-AreTexts apdmsg texts) made;
      header_back = header_back_lem;
      front_fails = λ rc msg apdmsg pkg made _. front_lem rc msg apdmsg pkg made;
    },
    λ m pkg made.
        let (same, size) = serialized_size wire enc (cmd_bytes wire m) pkg made in
        omega (arith, ap length same),
  )
