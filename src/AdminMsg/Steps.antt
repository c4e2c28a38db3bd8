-- ===== src/AdminMsg/Steps.antt =====
-- How the loop of a parser goes through the fields that were written.
use o2k.Prelude.{
  ℕ, zero, suc, ◌^◌, ◌<◌, ◌≡◌, refl, ap, sym, subst, ◌∙◌, pos, ◌==◌, ◌==ℤ◌, true, false, List, [],
  ◌∷◌, ◌++◌, append-nil, append_assoc, All, length, length-append, some, arith,
}
use o2k.AdminMsg.{MsgHeader, PairStrStr, default_header, default_pair}
use o2k.AdminMsg.Wire.{Wire, IsEncoding, Fields, handle, merge, merge_all}
use o2k.AdminMsg.Parsing.{
  read_text, read_sub, header_fields, pair_fields, text_field, sub_field, kept, header_bytes,
  pair_bytes, pair_list,
}

module _ (wire : Wire) (enc : IsEncoding wire) where
  -- The loop takes the message `m` and these bytes to `r`, on any fuel above their number.
  abbrev pub Parses : {M : Type 0} → Fields M → M → List ℕ → M → Type 0
  Parses fields m bs r =
      length bs < 2 ^ 31 → (fuel : ℕ) → length bs < fuel → merge wire fields fuel m bs ≡ some r

  pub Parses-end : {M : Type 0} (fields : Fields M) (m : M) → Parses fields m [] m
  unfolding merge
  Parses-end fields m small zero h = absurd (omega arith)
  Parses-end fields m small (suc fuel) h = rw (enc.end_read, merge) refl

  -- A field whose case leaves `m'`.
  pub Parses-field :
      {M : Type 0} (fields : Fields M) (t : ℕ) (body rest : List ℕ) (m m' r : M)
      → 0 < t
      → t < 128
      → handle wire fields t m (body ++ rest) ≡ some (m', rest)
      → Parses fields m' rest r
      → Parses fields m (wire.write_tag t ++ (body ++ rest)) r
  unfolding merge
  Parses-field fields t body rest m m' r some_tag short e ih small zero h = absurd (omega arith)
  Parses-field fields t body rest m m' r some_tag short e ih small (suc fuel) h =
      let whole = length-append (wire.write_tag t) (body ++ rest) in
      let part = length-append body rest in
      let more = ap length (enc.tag_bytes t some_tag short) in
      let not_zero : (t == 0) ≡ false = ground arith in
      rw (enc.tag_read t (body ++ rest) some_tag short, merge, not_zero, e)
        (ih (omega arith) fuel (omega arith))

  module _ {M : Type 0} (fields : Fields M) (t : ℕ) (some_tag : 0 < t) (short : t < 128) where
    -- A string or a message in its field.
    pub Parses-delimited :
        (s rest : List ℕ) (m m' r : M)
        → (length s < 2 ^ 31
            → handle wire fields t m (wire.write_delimited s ++ rest) ≡ some (m', rest))
        → Parses fields m' rest r
        → Parses fields m (sub_field wire t s ++ rest) r
    Parses-delimited s rest m m' r read ih small fuel enough =
        let body = wire.write_delimited s in
        let size = length-append (wire.write_tag t ++ body) rest in
        let size' = length-append (wire.write_tag t) body in
        let inner = enc.delimited_more s in
        let assoc = append_assoc (wire.write_tag t) body rest in
        let same = ap length assoc in
        rw assoc (
          Parses-field fields t body rest m m' r some_tag short (read (omega arith)) ih
            (omega arith) fuel (omega arith))

    pub Parses-text :
        (put : List ℕ → M) (s rest : List ℕ) (r : M)
        → ((bs : List ℕ) → handle wire fields t (put []) bs ≡ read_text wire put bs)
        → wire.is_utf8 s ≡ true
        → Parses fields (put s) rest r
        → Parses fields (put []) (text_field wire t s ++ rest) r
    unfolding read_text
    Parses-text put [] rest r case text ih = ih
    Parses-text put (c ∷ s) rest r case text ih =
        Parses-delimited (c ∷ s) rest (put []) (put (c ∷ s)) r
          (λ small. case _ ∙ rw (enc.string_read (c ∷ s) rest small, read_text) (rw text refl)) ih

    pub Parses-sub :
        {N : Type 0} (sub_fields : Fields N) (sub n : N) (put : N → M) (m : M) (body rest : List ℕ)
        (r : M)
        → ((bs : List ℕ) → handle wire fields t m bs ≡ read_sub wire sub_fields sub put bs)
        → Parses sub_fields sub body n
        → Parses fields (put n) rest r
        → Parses fields m (sub_field wire t body ++ rest) r
    unfolding read_sub merge_all
    Parses-sub sub_fields sub n put m body rest r case inside ih =
        Parses-delimited body rest m (put n) r
          (λ small.
            let merged : merge wire sub_fields (suc (length body)) sub body ≡ some n =
              inside small (suc (length body)) (omega arith) in
            case _ ∙ rw (enc.message_read body rest small, read_sub, merged) refl)
          ih

  pub Parses-at :
      {M : Type 0} (fields : Fields M) (m : M) {bs bs' : List ℕ} (r : M)
      → bs ≡ bs'
      → Parses fields m bs' r
      → Parses fields m bs r
  Parses-at fields m r e h = subst (λ bs. Parses fields m bs r) (sym e) h

  pub nothing_kept : kept wire [] ≡ []
  nothing_kept = ground arith

  pub Parses-kept : {M : Type 0} (fields : Fields M) (m : M) → Parses fields m (kept wire []) m
  Parses-kept fields m = Parses-at fields m m nothing_kept (Parses-end fields m)

  -- The header.
  abbrev pub header_of_type : ℕ → MsgHeader
  header_of_type v = record default_header { msg_type = pos v }

  pub header-Parses :
      (v : ℕ)
      → v < 2 ^ 31
      → Parses
          (header_fields wire)
          default_header
          (header_bytes wire (header_of_type v))
          (header_of_type v)
  unfolding header_fields header_bytes
  header-Parses zero small = Parses-kept (header_fields wire) default_header
  header-Parses (suc v) small =
      let set : (pos (suc v) ==ℤ pos 0) ≡ false = ground arith in
      let value = wire.write_enum (pos (suc v)) in
      let bytes : header_bytes wire (header_of_type (suc v)) ≡ wire.write_tag 8 ++ (value ++ []) =
        rw (set, header_bytes, nothing_kept) (append_assoc (wire.write_tag 8) value []) in
      Parses-at (header_fields wire) default_header (header_of_type (suc v)) bytes (
        Parses-field (header_fields wire) 8 value [] default_header (header_of_type (suc v))
          (header_of_type (suc v)) (omega arith) (omega arith)
          (rw (enc.enum_read (suc v) [] small) refl)
          (Parses-end (header_fields wire) (header_of_type (suc v))))

  -- The pairs.
  abbrev pub AreTexts : List PairStrStr → Type 0
  AreTexts = All (λ p. (wire.is_utf8 p.key ≡ true) × (wire.is_utf8 p.val ≡ true) × (p.unknown ≡ []))

  pair-Parses :
      (key val : List ℕ)
      → wire.is_utf8 key ≡ true
      → wire.is_utf8 val ≡ true
      → Parses
          (pair_fields wire)
          default_pair
          (pair_bytes wire (record { key = key; val = val; unknown = [] }))
          (record { key = key; val = val; unknown = [] })
  unfolding pair_fields pair_bytes
  pair-Parses key val text text' =
      let p : PairStrStr = record { key = key; val = val; unknown = [] } in
      Parses-text (pair_fields wire) 10 (omega arith) (omega arith)
        (λ s. record default_pair { key = s }) key (text_field wire 18 val ++ kept wire []) p
        (λ bs. refl) text
        (Parses-text (pair_fields wire) 18 (omega arith) (omega arith) (λ s. record p { val = s })
          val (kept wire []) p (λ bs. refl) text' (Parses-kept (pair_fields wire) p))

  clean_pair-Parses :
      (p : PairStrStr)
      → (wire.is_utf8 p.key ≡ true) × (wire.is_utf8 p.val ≡ true) × (p.unknown ≡ [])
      → Parses (pair_fields wire) default_pair (pair_bytes wire p) p
  clean_pair-Parses p (text, text', none_unknown) =
      subst
        (λ u.
          Parses (pair_fields wire) default_pair (pair_bytes wire (record p { unknown = u }))
            (record p { unknown = u }))
        (sym none_unknown) (pair-Parses p.key p.val text text')

  pub Parses-pairs :
      {M : Type 0} (fields : Fields M) (t : ℕ)
      → 0 < t
      → t < 128
      → (put : List PairStrStr → M)
      → ((done : List PairStrStr) (bs : List ℕ)
          → handle wire fields t (put done) bs
            ≡ read_sub wire (pair_fields wire) default_pair (λ p. put (done ++ (p ∷ []))) bs)
      → (ps done : List PairStrStr) (rest : List ℕ) (r : M) → AreTexts ps
      → Parses fields (put (done ++ ps)) rest r
      → Parses fields (put done) (pair_list wire t ps ++ rest) r
  Parses-pairs fields t some_tag short put case [] done rest r texts ih =
      subst (λ ps. Parses fields (put ps) rest r) (append-nil done) ih
  Parses-pairs fields t some_tag short put case (p ∷ ps) done rest r (clean, texts) ih =
      let more = pair_list wire t ps ++ rest in
      Parses-at fields (put done) r
        (append_assoc (sub_field wire t (pair_bytes wire p)) (pair_list wire t ps) rest)
        (Parses-sub fields t some_tag short (pair_fields wire) default_pair p
          (λ p. put (done ++ (p ∷ []))) (put done) (pair_bytes wire p) more r (case done)
          (clean_pair-Parses p clean)
          (Parses-pairs fields t some_tag short put case ps (done ++ (p ∷ [])) rest r texts
            (subst (λ ps. Parses fields (put ps) rest r) (sym (append_assoc done (p ∷ []) ps)) ih)))
