-- ===== src/Examples/Wires.antt =====
-- An encoding with the numbers of protobuf, in groups of seven bits, for texts in ASCII.
use o2k.Prelude.{
  ℕ, zero, suc, ◌+◌, ◌*◌, ◌-◌, ◌/◌, ◌%◌, ◌^◌, ◌<◌, ◌≡◌, refl, ap, ◌∙◌, ℤ, pos, negsuc, ◌==◌, ltb,
  lt→ltb, le→not_ltb, leb, ◌&&◌, Bool, true, false, List, [], ◌∷◌, ◌++◌, append_assoc, length,
  length-append, take, take_front, drop, drop_front, Option, none, some, if◌then◌else◌, Bool-cases,
  inl, inr, codes, arith,
}
use o2k.AdminMsg.{PairStrStr}
use o2k.AdminMsg.Wire.{Wire, IsEncoding, TagRead, at_end, tag}
use o2k.AdminMsg.Parsing.{pb_codec}
use o2k.AdminMsg.RoundTrip.{
  cmd_of, serialize_cmd-parse_cmd, result_of, serialize_result-parse_result,
}
use o2k.MsgRw.Reply.{IsWire}
use o2k.MsgRw.Encoding.{pb_codec-IsWire}
use o2k.Qdcadm.Termination.{IsBounded}

abbrev number : ℕ → ℕ → List ℕ
number zero n = []
number (suc fuel) n =
    let rest = number fuel (n / 128) in if ltb n 128 then n ∷ [] else (128 + n % 128) ∷ rest

abbrev more_bits : ℕ → Option (ℕ × List ℕ) → Option (ℕ × List ℕ)
more_bits b none = none
more_bits b (some (n, rest)) = some (b - 128 + 128 * n, rest)

abbrev read_number : ℕ → List ℕ → Option (ℕ × List ℕ)
read_number zero bs = none
read_number (suc fuel) [] = none
read_number (suc fuel) (b ∷ bs) =
    let rest = read_number fuel bs in if ltb b 128 then some (b, bs) else more_bits b rest

-- How many numbers have that many groups.
abbrev pow128 : ℕ → ℕ
pow128 zero = 1
pow128 (suc k) = 128 * pow128 k

abbrev Back : ℕ → ℕ → List ℕ → Type 0
Back fuel n rest = read_number fuel (number fuel n ++ rest) ≡ some (n, rest)

last_group-Back : (fuel n : ℕ) (rest : List ℕ) → ltb n 128 ≡ true → Back (suc fuel) n rest
last_group-Back fuel n rest last = rw last (rw last refl)

number-Back : (fuel n : ℕ) (rest : List ℕ) → n < pow128 (suc fuel) → Back (suc fuel) n rest
number-Back zero n rest h = last_group-Back zero n rest (lt→ltb n 128 (omega arith))
number-Back (suc fuel) n rest h = elim (Bool-cases (ltb n 128)) [
  | inl last ↦ last_group-Back (suc fuel) n rest last
  | inr more ↦
      let group : ltb (128 + n % 128) 128 ≡ false = le→not_ltb (128 + n % 128) 128 (omega arith) in
      let ih = number-Back fuel (n / 128) rest (omega arith) in
      let whole : 128 + n % 128 - 128 + 128 * (n / 128) ≡ n = omega arith in
      rw more (rw (group, ih, whole) refl)
]

some_groups : (n : ℕ) → 0 < length (number 5 n)
some_groups n = elim (Bool-cases (ltb n 128)) [
  | inl last ↦ rw last (omega arith)
  | inr more ↦ rw more (omega arith)
]

abbrev write_delimited : List ℕ → List ℕ
write_delimited s = number 5 (length s) ++ s

abbrev split_off : Option (ℕ × List ℕ) → Option (List ℕ × List ℕ)
split_off none = none
split_off (some (n, rest)) = if leb n (length rest) then some (take n rest, drop n rest) else none

abbrev read_delimited : List ℕ → Option (List ℕ × List ℕ)
read_delimited bs = split_off (read_number 5 bs)

delimited_back :
    (s rest : List ℕ)
    → length s < 2 ^ 31
    → read_delimited (write_delimited s ++ rest) ≡ some (s, rest)
delimited_back s rest small =
    let head = number-Back 4 (length s) (s ++ rest) (omega arith) in
    let fits : leb (length s) (length (s ++ rest)) ≡ true = ground (arith, length-append s rest) in
    ap read_delimited (append_assoc (number 5 (length s)) s rest)
    ∙ ap split_off head
    ∙ rw (fits, take_front (length s) s rest refl, drop_front (length s) s rest refl) refl

abbrev write_enum : ℤ → List ℕ
write_enum (pos v) = number 5 v
write_enum (negsuc v) = []

abbrev read_enum : Option (ℕ × List ℕ) → Option (ℤ × List ℕ)
read_enum none = none
read_enum (some (v, rest)) = some (pos v, rest)

abbrev skipped : ℕ → Option (List ℕ × List ℕ) → Option (List ℕ × List ℕ)
skipped t none = none
skipped t (some (s, rest)) = some (t ∷ write_delimited s, rest)

abbrev skip_field : ℕ → List ℕ → Option (List ℕ × List ℕ)
skip_field t bs = if t % 8 == 2 then skipped t (read_delimited bs) else none

abbrev is_ascii : List ℕ → Bool
is_ascii [] = true
is_ascii (c ∷ s) = let rest = is_ascii s in ltb c 128 && rest

abbrev read_first : List ℕ → TagRead
read_first [] = at_end
read_first (t ∷ rest) = tag t rest

abbrev ascii_wire : Wire
ascii_wire = record {
  read_tag = read_first;
  read_string = read_delimited;
  read_message = read_delimited;
  read_enum = λ bs. read_enum (read_number 5 bs);
  read_int64 = λ bs. read_enum (read_number 5 bs);
  read_double = λ bs. none;
  skip_field = skip_field;
  is_utf8 = is_ascii;
  keeps_unknown = true;
  write_tag = λ t. t ∷ [];
  write_enum = write_enum;
  write_delimited = write_delimited;
}

ascii_wire-IsEncoding : IsEncoding ascii_wire
ascii_wire-IsEncoding = record {
  end_read = refl;
  tag_read = λ t rest _ _. refl;
  tag_bytes = λ t _ _. refl;
  string_read = delimited_back;
  message_read = delimited_back;
  enum_read = λ v rest small. ap read_enum (number-Back 4 v rest (omega arith));
  delimited_more =
      λ s. omega (arith, length-append (number 5 (length s)) s, some_groups (length s));
  delimited_none = refl;
  message_none = refl;
  delimited_skip = λ t s rest delimited small.
      let kind : (t % 8 == 2) ≡ true = ground arith in
      rw kind (ap (skipped t) (delimited_back s rest small));
}

-- A pair, and a command with it.
abbrev table_pair : PairStrStr
table_pair = record { key = codes "1"; val = codes "t1"; unknown = [] }

abbrev command_bytes : List ℕ
command_bytes =
    10 ∷ 2 ∷ 8 ∷ 1 ∷ 18 ∷ 4 ∷ (codes "list" ++ (26 ∷ 7 ∷ 10 ∷ 1 ∷ 49 ∷ 18 ∷ 2 ∷ codes "t1"))

written_command :
    (pb_codec ascii_wire).serialize_cmd
      (cmd_of ascii_wire ascii_wire-IsEncoding 1 (codes "list") (table_pair ∷ []))
    ≡ some command_bytes
unfolding pb_codec
written_command = refl

serialize_cmd-parse_cmd_example :
    (pb_codec ascii_wire).parse_cmd command_bytes
    ≡ some (cmd_of ascii_wire ascii_wire-IsEncoding 1 (codes "list") (table_pair ∷ []))
serialize_cmd-parse_cmd_example =
    serialize_cmd-parse_cmd ascii_wire ascii_wire-IsEncoding 1 (codes "list") (table_pair ∷ [])
      command_bytes (omega arith) refl ((refl, refl, refl), tt) written_command

written_result :
    (pb_codec ascii_wire).serialize_result
      (result_of ascii_wire ascii_wire-IsEncoding 0 (codes "OK") (codes "done") (table_pair ∷ []))
    ≡ some (
        10
        ∷ 0
        ∷ 18
        ∷ 2
        ∷ 79
        ∷ 75
        ∷ 26
        ∷ 4
        ∷ (codes "done" ++ (34 ∷ 7 ∷ 10 ∷ 1 ∷ 49 ∷ 18 ∷ 2 ∷ codes "t1")))
unfolding pb_codec
written_result = refl

serialize_result-parse_result_example :
    (pb_codec ascii_wire).parse_result (
      10
      ∷ 0
      ∷ 18
      ∷ 2
      ∷ 79
      ∷ 75
      ∷ 26
      ∷ 4
      ∷ (codes "done" ++ (34 ∷ 7 ∷ 10 ∷ 1 ∷ 49 ∷ 18 ∷ 2 ∷ codes "t1")))
    ≡ some
        (result_of ascii_wire ascii_wire-IsEncoding 0 (codes "OK") (codes "done") (table_pair ∷ []))
serialize_result-parse_result_example =
    serialize_result-parse_result ascii_wire ascii_wire-IsEncoding 0 (codes "OK") (codes "done")
      (table_pair ∷ []) _ (omega arith) refl refl ((refl, refl, refl), tt) written_result

pb_codec-IsWire_example : IsWire (pb_codec ascii_wire) × IsBounded (pb_codec ascii_wire)
pb_codec-IsWire_example = pb_codec-IsWire ascii_wire ascii_wire-IsEncoding
