-- ===== src/Arguments.antt =====
-- The arguments of binlogdumpK in binlogdump/binlogdumpK.cpp: `StrSplit`, `GetInputArg` on what `getopt`
-- answers, and the name of the topic.
pub mod Split
pub mod Options
use o2k.Prelude.{
  ℕ, zero, suc, ◌+◌, ◌%◌, ◌^◌, ◌==◌, ltb, ℤ, pos, negsuc, Bool, true, false, not, ◌||◌, List, [],
  ◌∷◌, ◌++◌, length, take, drop, map, Option, none, some, if◌then◌else◌, codes, until_nul, bytes_eq,
}
use o2k.Outcome.{Outcome, ok, stuck, ◌>>=◌}
use o2k.Kafka.{is_empty}

pub record TopicInfo : Type 0 where
  pub wait_mode : Bool
  pub group_id_num : List ℕ
  pub commit : Bool
  pub topic_name : List ℕ
  pub node_name : List ℕ
  pub schema_name : List ℕ
  pub table_name : List (List ℕ)
  pub bootstrap : List ℕ
  pub suffix : List ℕ

-- What `main` sets before it reads the arguments.
abbrev pub new_topic_info : TopicInfo
new_topic_info = record {
  wait_mode = false;
  group_id_num = codes "binlogdumpK";
  commit = false;
  topic_name = [];
  node_name = [];
  schema_name = [];
  table_name = [];
  bootstrap = codes "qmatrix-1:9092,qmatrix-2:9092,qmatrix-3:9092";
  suffix = codes ".binlog";
}

abbrev pub starts_with : List ℕ → List ℕ → Bool
starts_with [] s = true
starts_with (c ∷ cs) [] = false
starts_with (c ∷ cs) (d ∷ s) = if c == d then starts_with cs s else false

abbrev pub suc_of : Option ℕ → Option ℕ
suc_of none = none
suc_of (some n) = some (suc n)

-- The index that `strstr` answers with.
unfoldable pub strstr : List ℕ → List ℕ → Option ℕ
strstr [] sep = if is_empty sep then some 0 else none
strstr (c ∷ s) sep =
    let later = strstr s sep in if starts_with sep (c ∷ s) then some 0 else suc_of later

-- `out.push_back(one)` where the field is not empty.
abbrev pub push_field : List ℕ → List (List ℕ) → List (List ℕ)
push_field one out = if is_empty one then out else out ++ (one ∷ [])

-- One pass of the loop of `StrSplit`: the end, or the next pass on what is behind the separator.
abbrev pub split_at :
    (List ℕ → List (List ℕ) → Outcome (List (List ℕ)))
    → List ℕ
    → List ℕ
    → List (List ℕ)
    → Option ℕ
    → Outcome (List (List ℕ))
split_at go src sep out none = ok (push_field src out)
split_at go src sep out (some p) =
    let rest = drop (p + length sep) src in
    if is_empty rest
    then ok (push_field (take p src) out)
    else go rest (push_field (take p src) out)

-- The loop of `StrSplit`; the fuel is the number of passes.
unfoldable pub split_loop : ℕ → List ℕ → List ℕ → List (List ℕ) → Outcome (List (List ℕ))
unfolding strstr
split_loop zero src sep out = stuck
split_loop (suc fuel) src sep out =
    split_at (λ rest out'. split_loop fuel rest sep out') src sep out (strstr src sep)

-- `StrSplit`, on C strings; a pass moves past a separator at least, so there is one for each
-- character at most.
unfoldable pub str_split : List ℕ → List ℕ → List (List ℕ) → Outcome (List (List ℕ))
unfolding split_loop
str_split src sep out =
    if is_empty src
    then ok out
    else if is_empty sep
    then ok (out ++ (src ∷ []))
    else split_loop (length src) src sep out

abbrev pub max_file_name_len : ℕ
max_file_name_len = 256

-- `GetInputArg` calls `exit`, or it returns with the topic and `printRaw`.
pub data Args : Type 0 where
  exits : ℤ → Args
  args : TopicInfo → Bool → Args

-- `0 == strcmp(optarg, "1")`
abbrev pub is_one : List ℕ → Bool
is_one optarg = bytes_eq optarg (codes "1")

abbrev pub with_tables : TopicInfo → Bool → List (List ℕ) → Outcome Args
with_tables topic raw names = ok (args (record topic { table_name = names }) raw)

-- The `switch` on an option: its letter, its `optarg` (the bytes before the NUL).
unfoldable pub handle_option : ℕ → List ℕ → TopicInfo → Bool → Outcome Args
unfolding str_split
handle_option ch optarg topic raw =
    let name = take max_file_name_len optarg in
    if ch == 104
    then ok (exits (pos 0))
    else if ch == 98
    then ok (args (record topic { bootstrap = name }) raw)
    else if ch == 110
    then ok (args (record topic { node_name = name }) raw)
    else if ch == 115
    then ok (args (record topic { schema_name = name }) raw)
    else if ch == 116
    then (str_split name (codes ",") topic.table_name >>= with_tables topic raw)
    else if ch == 109
    then ok (args (record topic { wait_mode = is_one optarg }) raw)
    else if ch == 103
    then ok (args (record topic { group_id_num = optarg }) raw)
    else if ch == 67
    then ok (args (record topic { commit = is_one optarg }) raw)
    else if ch == 114
    then ok (args topic true)
    else if ch == 120
    then ok (args (record topic { suffix = optarg }) raw)
    else ok (exits (negsuc 0))

abbrev pub proceed : (TopicInfo → Bool → Outcome Args) → Args → Outcome Args
proceed go (exits c) = ok (exits c)
proceed go (args topic raw) = go topic raw

-- `GetInputArg`, on the options that `getopt` returns before its -1.
unfoldable pub get_input_arg : List (ℕ × List ℕ) → TopicInfo → Bool → Outcome Args
unfolding handle_option
get_input_arg [] topic raw = ok (args topic raw)
get_input_arg ((ch, optarg) ∷ options) topic raw =
    handle_option ch optarg topic raw >>= proceed (λ t r. get_input_arg options t r)

-- What `main` does between the arguments and the loop: it exits, or it names the topic.
unfoldable pub name_topic : Args → Args
name_topic (exits c) = exits c
name_topic (args topic raw) =
    if is_empty topic.node_name || is_empty topic.schema_name
    then exits (negsuc 0)
    else args
        (record topic {
          topic_name = topic.node_name ++ (codes "." ++ (topic.schema_name ++ topic.suffix));
        })
        raw
