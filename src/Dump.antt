-- ===== src/Dump.antt =====
-- What binlogdumpK of binlogdump/binlogdumpK.cpp prints: `PrintSql`, the statistics and the loop of
-- `main`. What the protobuf library answers is an argument.
pub mod Counts
pub mod Texts
pub mod Order
pub mod Safety
pub mod Complete
pub mod Waiting
use o2k.Prelude.{
  ℕ, zero, suc, ◌+◌, ◌%◌, ◌^◌, ◌==◌, ltb, ℤ, pos, negsuc, Bool, true, false, not, ◌||◌, List, [],
  ◌∷◌, ◌++◌, length, take, drop, map, Option, none, some, if◌then◌else◌, codes, until_nul, bytes_eq,
}
use o2k.Outcome.{Outcome, ok, ◌>>=◌}
use o2k.Arguments.{TopicInfo}
use o2k.Kafka.{
  no_error, timed_out, Message, Answers, Reader, End, returned, delivered, waiting, Call, is_empty,
  read,
}

pub record Statistics : Type 0 where
  pub total_rows : ℕ
  pub insert_cnt : ℕ
  pub update_cnt : ℕ
  pub delete_cnt : ℕ

-- `++` on a uint64_t
unfoldable pub increment : ℕ → ℕ
increment n = (n + 1) % 2 ^ 64

-- pb_entry::EntryType
pub data EntryType : Type 0 where
  entry_type_compatible_proto2 transaction_begin row_data transaction_end heartbeat gtid_log :
      EntryType
  unknown_entry_type : ℤ → EntryType

-- pb_entry::EventType
pub data EventType : Type 0 where
  event_type_compatible_proto2 insert update delete create alter erase query truncate rename :
      EventType
  cindex dindex gtid xa_commit xa_rollback m_heartbeat : EventType
  unknown_event_type : ℤ → EventType

-- The fields of a message that the program reads; `unknown` is the rest of it.
pub record Entry : Type 0 where
  pub unknown : List ℕ
  pub entry_type : EntryType
  pub store_value : List ℕ

pub record RowChange : Type 0 where
  pub unknown : List ℕ
  pub event_type : EventType

-- The protobuf library: `ParseFromString` into a new message, whatever it returns, and
-- `TextFormat::PrintToString`; the two transaction messages are only parsed and printed.
pub record Formats : Type 0 where
  pub parse_entry : List ℕ → Entry
  pub parse_row_change : List ℕ → RowChange
  pub print_entry : Entry → List ℕ
  pub print_row_change : RowChange → List ℕ
  pub print_transaction_begin : List ℕ → List ℕ
  pub print_transaction_end : List ℕ → List ℕ

-- gbStat, and the bytes that `PrintSql` has written.
pub record Printer : Type 0 where
  pub stat : Statistics
  pub out : List ℕ

-- The `switch` on the event of a row.
unfoldable pub count_row : EventType → Statistics → Statistics
unfolding increment
count_row insert s = record s {
  total_rows = increment s.total_rows;
  insert_cnt = increment s.insert_cnt;
}
count_row update s = record s {
  total_rows = increment s.total_rows;
  update_cnt = increment s.update_cnt;
}
count_row delete s = record s {
  total_rows = increment s.total_rows;
  delete_cnt = increment s.delete_cnt;
}
count_row _ s = record s { total_rows = increment s.total_rows }

abbrev pub print_store_value : List ℕ → Printer → Printer
print_store_value str p = record p { out = p.out ++ (codes "-- storevalue:\n" ++ until_nul str) }

-- The branches on the type of the entry.
unfoldable pub print_value : Formats → EntryType → List ℕ → Printer → Printer
unfolding count_row
print_value pb transaction_end value p = print_store_value (pb.print_transaction_end value) p
print_value pb transaction_begin value p = print_store_value (pb.print_transaction_begin value) p
print_value pb row_data value p =
    let row = pb.parse_row_change value in
    print_store_value (pb.print_row_change row)
      (record p { stat = count_row row.event_type p.stat })
print_value pb _ value p = p

-- `PrintSql`, on the bytes that `Read` has left in the buffer.
unfoldable pub print_sql : Formats → Bool → List ℕ → Printer → ℤ × Printer
unfolding print_value
print_sql pb print_raw buf p =
    let entry = pb.parse_entry buf in
    let shown = if print_raw then entry else record entry { store_value = [] } in
    let head = codes "\n-- binlog :" ++ until_nul (pb.print_entry shown) in
    if is_empty buf then (negsuc 0, p) else (
      pos 0,
      print_value pb entry.entry_type entry.store_value (record p { out = p.out ++ head }),
    )

-- How the loop of `main` ends: with the code of the last `Read`, or with the flag that SIGINT sets;
-- or it is still running when the turns or the messages are used up.
pub data Stopped : Type 0 where
  read_ended : End → Stopped
  interrupted : Stopped
  running : Stopped

pub record Dumped : Type 0 where
  pub how : Stopped
  pub printer : Printer
  pub reader : Reader
  pub left : List (Message × Answers)

abbrev pub after_read :
    (Printer → Reader → List (Message × Answers) → Outcome Dumped)
    → Formats
    → Bool
    → Bool
    → Printer
    → Call
    → Outcome Dumped
after_read go pb print_raw wait_mode p (delivered buf, r, ms) =
    go (print_sql pb print_raw buf p).1 r ms
after_read go pb print_raw wait_mode p (waiting, r, ms) =
    ok (record { how = running; printer = p; reader = r; left = ms })
after_read go pb print_raw wait_mode p (returned timed_out, r, ms) =
    if wait_mode
    then go p r ms
    else ok (record { how = read_ended (returned timed_out); printer = p; reader = r; left = ms })
after_read go pb print_raw wait_mode p (returned c, r, ms) =
    ok (record { how = read_ended (returned c); printer = p; reader = r; left = ms })

-- The loop of `main`. A turn says whether SIGINT has set bExit by then, and what librdkafka answers
-- to the `fillOffset` at the beginning of `Read`.
unfoldable pub dump_loop :
    Formats
    → Bool
    → TopicInfo
    → List (Bool × Answers)
    → Printer
    → Reader
    → List (Message × Answers)
    → Outcome Dumped
unfolding print_sql
dump_loop pb print_raw topic [] p r ms =
    ok (record { how = running; printer = p; reader = r; left = ms })
dump_loop pb print_raw topic ((true, q) ∷ turns) p r ms =
    ok (record { how = interrupted; printer = p; reader = r; left = ms })
dump_loop pb print_raw topic ((false, q) ∷ turns) p r ms =
    read topic.table_name q ms r
    >>= after_read (λ p' r' ms'. dump_loop pb print_raw topic turns p' r' ms') pb print_raw
        topic.wait_mode p
