-- ===== src/AdminMsg/Wire.antt =====
-- The loop that every `MergePartialFromCodedStream` of qdcadm/AdminMsg.pb.cc is, over what the protobuf
-- library reads and writes of single fields. The bytes that are left of the message stand for the
-- `CodedInputStream` with its limit.
use o2k.Prelude.{
  ℕ, zero, suc, ◌^◌, ◌%◌, ◌<◌, ◌≡◌, ℤ, pos, ◌==◌, Bool, List, [], ◌∷◌, ◌++◌, length, Option, none,
  some, if◌then◌else◌,
}

-- `ReadTagWithCutoffNoLastTag`: at the end of the message, or a tag, which is 0 where none can be read.
pub data TagRead : Type 0 where
  at_end : TagRead
  tag : ℕ → List ℕ → TagRead

-- What the runtime library does with one field: `ReadString`, `ReadMessage` up to its limit,
-- `ReadPrimitive` and `SkipField`, each with what it leaves; `VerifyUtf8String`;
-- `GetProto3PreserveUnknownsDefault`; and how a tag, an enum and
-- the bytes of a string or a message are written.
pub record Wire : Type 0 where
  pub read_tag : List ℕ → TagRead
  pub read_string : List ℕ → Option (List ℕ × List ℕ)
  pub read_message : List ℕ → Option (List ℕ × List ℕ)
  pub read_enum : List ℕ → Option (ℤ × List ℕ)
  pub read_int64 : List ℕ → Option (ℤ × List ℕ)
  pub read_double : List ℕ → Option (ℕ × List ℕ)
  pub skip_field : ℕ → List ℕ → Option (List ℕ × List ℕ)
  pub is_utf8 : List ℕ → Bool
  pub keeps_unknown : Bool
  pub write_tag : ℕ → List ℕ
  pub write_enum : ℤ → List ℕ
  pub write_delimited : List ℕ → List ℕ

-- What the encoding promises: what is written is read back, up to the 2 GB of a message; a small tag is
-- one byte, as the length of nothing is; and a field of a length (wire type 2) that is not known is
-- skipped and kept.
pub record IsEncoding (wire : Wire) : Type 0 where
  pub end_read : wire.read_tag [] ≡ at_end
  pub tag_read :
      (t : ℕ) (rest : List ℕ)
      → 0 < t
      → t < 128
      → wire.read_tag (wire.write_tag t ++ rest) ≡ tag t rest
  pub tag_bytes : (t : ℕ) → 0 < t → t < 128 → wire.write_tag t ≡ t ∷ []
  pub string_read :
      (s rest : List ℕ)
      → length s < 2 ^ 31
      → wire.read_string (wire.write_delimited s ++ rest) ≡ some (s, rest)
  pub message_read :
      (s rest : List ℕ)
      → length s < 2 ^ 31
      → wire.read_message (wire.write_delimited s ++ rest) ≡ some (s, rest)
  pub enum_read :
      (v : ℕ) (rest : List ℕ)
      → v < 2 ^ 31
      → wire.read_enum (wire.write_enum (pos v) ++ rest) ≡ some (pos v, rest)
  pub delimited_more : (s : List ℕ) → length s < length (wire.write_delimited s)
  pub delimited_none : wire.write_delimited [] ≡ 0 ∷ []
  pub message_none : wire.read_message [] ≡ none
  pub delimited_skip :
      (t : ℕ) (s rest : List ℕ)
      → t % 8 ≡ 2
      → length s < 2 ^ 31
      → wire.skip_field t (wire.write_delimited s ++ rest)
        ≡ some (wire.write_tag t ++ wire.write_delimited s, rest)

-- The `switch` of a message: what is done with the field of a tag, where it is declared, from the message
-- so far and the bytes behind the tag (`none` where a `DO_` fails); and `_internal_metadata_`.
pub record Fields (M : Type 0) : Type 0 where
  pub field : ℕ → Option (M → List ℕ → Option (M × List ℕ))
  pub add_unknown : List ℕ → M → M

-- A case of the `switch`, or `handle_unusual`.
abbrev pub handle : {M : Type 0} → Wire → Fields M → ℕ → M → List ℕ → Option (M × List ℕ)
handle wire fields t m rest = elim (fields.field t) [
  | some read ↦ read m rest
  | none ↦ elim (wire.skip_field t rest) [
    | none ↦ none
    | some (unknown, rest') ↦ some (fields.add_unknown unknown m, rest')
  ]
]

-- The loop and `ConsumedEntireMessage`, which fails where the loop ended with a tag 0 of its own. A tag has
-- a byte at least, so the length is fuel enough.
unfoldable pub merge : {M : Type 0} → Wire → Fields M → ℕ → M → List ℕ → Option M
merge wire fields zero m bs = none
merge wire fields (suc fuel) m bs = elim (wire.read_tag bs) [
  | at_end ↦ some m
  | tag t rest ↦ if t == 0 then none else elim (handle wire fields t m rest) [
    | none ↦ none
    | some (m', rest') ↦ merge wire fields fuel m' rest'
  ]
]

-- The bytes of a whole message.
unfoldable pub merge_all : {M : Type 0} → Wire → Fields M → M → List ℕ → Option M
unfolding merge
merge_all wire fields m bs = merge wire fields (suc (length bs)) m bs
