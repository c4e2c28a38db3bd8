-- ===== src/AdminMsg/RoundTrip.antt =====
-- That a message that was serialized parses to itself.
use o2k.Prelude.{
  ℕ, suc, ◌^◌, ◌<◌, ◌≡◌, refl, subst, ltb, ltb→lt, true, List, [], ◌++◌, length, none, some,
  if◌then◌else◌, Bool-cases, inl, inr, arith,
}
use o2k.AdminMsg.{PairStrStr, MsgResult, MsgCmd, default_header, default_result, default_cmd}
use o2k.AdminMsg.Wire.{Wire, IsEncoding, merge_all}
use o2k.AdminMsg.Parsing.{
  header_fields, result_fields, cmd_fields, text_field, kept, header_bytes, pair_list, result_bytes,
  cmd_bytes, pb_codec,
}
use o2k.AdminMsg.Steps.{
  Parses, Parses-text, Parses-sub, Parses-kept, header-Parses, AreTexts, Parses-pairs,
  header_of_type,
}

module _ (wire : Wire) (enc : IsEncoding wire) where
  -- The two messages, with a header and no unknown fields.
  abbrev pub cmd_of : ℕ → List ℕ → List PairStrStr → MsgCmd
  cmd_of v cmd params = record default_cmd {
    msg_header = some (header_of_type wire enc v);
    cmd = cmd;
    params = params;
  }

  abbrev pub result_of : ℕ → List ℕ → List ℕ → List PairStrStr → MsgResult
  result_of v rc msg rt_pairs = record default_result {
    msg_header = some (header_of_type wire enc v);
    rc = rc;
    msg = msg;
    rt_pairs = rt_pairs;
  }

  cmd-Parses :
      (v : ℕ) (cmd : List ℕ) (params : List PairStrStr)
      → v < 2 ^ 31
      → wire.is_utf8 cmd ≡ true
      → AreTexts wire enc params
      → Parses wire enc
          (cmd_fields wire)
          default_cmd
          (cmd_bytes wire (cmd_of v cmd params))
          (cmd_of v cmd params)
  unfolding cmd_fields cmd_bytes
  cmd-Parses v cmd params small text texts =
      let fields = cmd_fields wire in
      let m = cmd_of v cmd params in
      let pairs = pair_list wire 26 params ++ kept wire [] in
      Parses-sub wire enc fields 10 (omega arith) (omega arith) (header_fields wire) default_header
        (header_of_type wire enc v) (λ h. record default_cmd { msg_header = some h }) default_cmd
        (header_bytes wire (header_of_type wire enc v)) (text_field wire 18 cmd ++ pairs) m
        (λ bs. refl) (header-Parses wire enc v small)
        (Parses-text wire enc fields 18 (omega arith) (omega arith) (λ s. cmd_of v s []) cmd pairs m
          (λ bs. refl) text
          (Parses-pairs wire enc fields 26 (omega arith) (omega arith) (λ ps. cmd_of v cmd ps)
            (λ done bs. refl) params [] (kept wire []) m texts (Parses-kept wire enc fields m)))

  result-Parses :
      (v : ℕ) (rc msg : List ℕ) (rt_pairs : List PairStrStr)
      → v < 2 ^ 31
      → wire.is_utf8 rc ≡ true
      → wire.is_utf8 msg ≡ true
      → AreTexts wire enc rt_pairs
      → Parses wire enc
          (result_fields wire)
          default_result
          (result_bytes wire (result_of v rc msg rt_pairs))
          (result_of v rc msg rt_pairs)
  unfolding result_fields result_bytes
  result-Parses v rc msg rt_pairs small text text' texts =
      let fields = result_fields wire in
      let m = result_of v rc msg rt_pairs in
      let pairs = pair_list wire 34 rt_pairs ++ kept wire [] in
      Parses-sub wire enc fields 10 (omega arith) (omega arith) (header_fields wire) default_header
        (header_of_type wire enc v) (λ h. record default_result { msg_header = some h })
        default_result (header_bytes wire (header_of_type wire enc v))
        (text_field wire 18 rc ++ (text_field wire 26 msg ++ pairs)) m (λ bs. refl)
        (header-Parses wire enc v small)
        (Parses-text wire enc fields 18 (omega arith) (omega arith) (λ s. result_of v s [] []) rc
          (text_field wire 26 msg ++ pairs) m (λ bs. refl) text
          (Parses-text wire enc fields 26 (omega arith) (omega arith) (λ s. result_of v rc s []) msg
            pairs m (λ bs. refl) text'
            (Parses-pairs wire enc fields 34 (omega arith) (omega arith)
              (λ ps. result_of v rc msg ps) (λ done bs. refl) rt_pairs [] (kept wire []) m texts
              (Parses-kept wire enc fields m))))

  -- What `SerializeToString` gave has less than 2 GB.
  pub serialized_size :
      (bytes pkg : List ℕ)
      → (if ltb (length bytes) (2 ^ 31) then some bytes else none) ≡ some pkg
      → (bytes ≡ pkg) × (length bytes < 2 ^ 31)
  serialized_size bytes pkg e = elim (Bool-cases (ltb (length bytes) (2 ^ 31))) [
    | inl small ↦
        let same : bytes ≡ pkg = cc (rw small at e) in (same, ltb→lt (length bytes) (2 ^ 31) small)
    | inr large ↦ cc (rw large at e)
  ]

  -- A command with any header, a text in UTF-8 and any pairs of these, which `SerializeToString` did not
  -- refuse, comes out of its parser as it was, with the pairs in their order.
  pub serialize_cmd-parse_cmd :
      (v : ℕ) (cmd : List ℕ) (params : List PairStrStr) (pkg : List ℕ)
      → v < 2 ^ 31
      → wire.is_utf8 cmd ≡ true
      → AreTexts wire enc params
      → (pb_codec wire).serialize_cmd (cmd_of v cmd params) ≡ some pkg
      → (pb_codec wire).parse_cmd pkg ≡ some (cmd_of v cmd params)
  unfolding pb_codec merge_all
  serialize_cmd-parse_cmd v cmd params pkg small text texts made =
      let m = cmd_of v cmd params in
      let (same, size) = serialized_size (cmd_bytes wire m) pkg made in
      subst (λ p. merge_all wire (cmd_fields wire) default_cmd p ≡ some m) same
        (cmd-Parses v cmd params small text texts size (suc (length (cmd_bytes wire m)))
          (omega arith))

  -- So does a result with any header, texts in UTF-8 and any pairs of these.
  pub serialize_result-parse_result :
      (v : ℕ) (rc msg : List ℕ) (rt_pairs : List PairStrStr) (pkg : List ℕ)
      → v < 2 ^ 31
      → wire.is_utf8 rc ≡ true
      → wire.is_utf8 msg ≡ true
      → AreTexts wire enc rt_pairs
      → (pb_codec wire).serialize_result (result_of v rc msg rt_pairs) ≡ some pkg
      → (pb_codec wire).parse_result pkg ≡ some (result_of v rc msg rt_pairs)
  unfolding pb_codec merge_all
  serialize_result-parse_result v rc msg rt_pairs pkg small text text' texts made =
      let m = result_of v rc msg rt_pairs in
      let (same, size) = serialized_size (result_bytes wire m) pkg made in
      subst (λ p. merge_all wire (result_fields wire) default_result p ≡ some m) same
        (result-Parses v rc msg rt_pairs small text text' texts size
          (suc (length (result_bytes wire m))) (omega arith))
