-- ===== src/Examples/Dumps.antt =====
-- Runs of binlogdumpK over a topic of three messages.
use o2k.Prelude.{
  ℕ, suc, ap, ◌≡◌, refl, ℤ, pos, negsuc, true, false, List, [], ◌∷◌, length, some, none, arith,
  codes, tabulate, Bool, inl, inr,
}
use o2k.Outcome.{ok, Returns}
use o2k.Kafka.{
  fail, no_error, timed_out, TopicPartition, Message, Answers, Reader, fill_offset, returned,
  delivered, read, read_loop, is_empty, pass, on_timeout, on_message, passes, has_key, read_over,
  mark_all,
}
use o2k.Kafka.Matching.{read-delivers}
use o2k.Kafka.Ends.{Asked, IsAnswered}
use o2k.Kafka.Offsets.{AllRead, Ended, read-AllRead}
use o2k.Kafka.Bounds.{IsSteady, IsAligned}
use o2k.Kafka.Wanted.{Consumed, read-Consumed}
use o2k.Arguments.{TopicInfo, new_topic_info, get_input_arg, str_split}
use o2k.Dump.{Formats, row_data, insert, Dumped, read_ended, dump_loop, print_sql}
use o2k.Arguments.Split.{join, str_split-join}
use o2k.Arguments.Options.{IsKept, get_input_arg-IsKept}
use o2k.Dump.Safety.{dump_loop-Returns}
use o2k.Kafka.Failures.{fill_offset-unmarked}
use o2k.Program.{new_printer}
use o2k.Dump.Waiting.{IsPause, EndsWith, printing, dump_loop_waiting}

abbrev tp : ℤ → TopicPartition
tp offset = record { topic = codes "t"; partition = pos 0; offset = offset }

abbrev at_position : ℕ → List TopicPartition → List TopicPartition
at_position n [] = []
at_position n (t ∷ ts) = record t { offset = pos n } ∷ at_position n ts

length-at_position : (n : ℕ) (tps : List TopicPartition) → length (at_position n tps) ≡ length tps
length-at_position n [] = refl
length-at_position n (t ∷ ts) = ap suc (length-at_position n ts)

-- librdkafka with one partition of two messages, of which `n` are read.
abbrev pub answers : ℕ → Answers
answers n = record {
  assignment_read = (no_error, tp (negsuc 1000) ∷ []);
  assignment_log = (no_error, tp (negsuc 1000) ∷ []);
  watermark = λ _. (no_error, pos 2);
  position = λ tps. (no_error, at_position n tps);
}

answers-IsSteady : (n : ℕ) → IsSteady (answers n)
answers-IsSteady n = record { assigned = refl; kept = λ tps. length-at_position n tps }

abbrev empty : Reader
empty = record { log_offset = []; read_offset = [] }

abbrev pub row : Message
row = record { err = no_error; key = some (codes "t1"); payload = 1 ∷ 2 ∷ [] }

abbrev pub other_row : Message
other_row = record { err = no_error; key = some (codes "t2"); payload = 1 ∷ 3 ∷ [] }

abbrev pub timeout : Message
timeout = record { err = timed_out; key = none; payload = [] }

abbrev pub topic_messages : List (Message × Answers)
topic_messages = (other_row, answers 1) ∷ (row, answers 2) ∷ (timeout, answers 2) ∷ []

abbrev pub tables : List (List ℕ)
tables = codes "t1" ∷ codes "t3" ∷ []

-- What the offsets are once the log's is known, and once both messages are read.
abbrev pub marked : Reader
marked = record { log_offset = tp (pos 2) ∷ []; read_offset = tp (negsuc 1000) ∷ [] }

abbrev all_read : Reader
all_read = record { log_offset = tp (pos 2) ∷ []; read_offset = tp (pos 2) ∷ [] }

first_read :
    read tables (answers 0) topic_messages empty
    ≡ ok (delivered (1 ∷ 2 ∷ []), marked, (timeout, answers 2) ∷ [])
unfolding read fill_offset mark_all read_loop pass on_message passes has_key
first_read = refl

second_read :
    read tables (answers 2) ((timeout, answers 2) ∷ []) marked
    ≡ ok (returned timed_out, all_read, [])
unfolding read fill_offset mark_all read_loop pass on_timeout read_over
second_read = refl

read-Consumed_example :
    Consumed tables topic_messages (delivered (1 ∷ 2 ∷ []), marked, (timeout, answers 2) ∷ [])
read-Consumed_example =
    read-Consumed tables (answers 0) topic_messages empty
      (delivered (1 ∷ 2 ∷ []), marked, (timeout, answers 2) ∷ []) first_read

-- A call that lets no message through, from its beginning to the timeout.
whole_read :
    read (codes "t3" ∷ []) (answers 0) topic_messages empty ≡ ok (returned timed_out, all_read, [])
unfolding read fill_offset mark_all read_loop pass on_message passes has_key on_timeout read_over
whole_read = refl

answers-IsAnswered : (n : ℕ) → IsAnswered (answers n)
answers-IsAnswered n = (λ _. refl, λ failed. cc)

topic-IsAnswered : (a : Answers) → Asked a (answers 0) topic_messages → IsAnswered a
topic-IsAnswered a (inl e) = rw e (answers-IsAnswered 0)
topic-IsAnswered a (inr (inl e)) = rw e (answers-IsAnswered 1)
topic-IsAnswered a (inr (inr (inl e))) = rw e (answers-IsAnswered 2)
topic-IsAnswered a (inr (inr (inr e))) = rw e (answers-IsAnswered 2)

read-AllRead_example :
    (is_empty all_read.log_offset ≡ false)
    × AllRead all_read.log_offset all_read.read_offset
    × Ended (codes "t3" ∷ []) (answers 0) topic_messages empty all_read
read-AllRead_example =
    read-AllRead (codes "t3" ∷ []) (answers 0) topic_messages [] empty all_read topic-IsAnswered
      whole_read

read-delivers_example :
    (r' : Reader) × (read tables (answers 0) topic_messages empty
      ≡ ok (delivered (1 ∷ 2 ∷ []), r', (timeout, answers 2) ∷ []))
unfolding passes has_key
read-delivers_example =
    read-delivers tables (answers 0) ((other_row, answers 1) ∷ []) ((timeout, answers 2) ∷ []) row
      (answers 2) empty ((refl, codes "t2", refl, refl), tt) (refl, codes "t1", refl, refl)

-- Each buffer is an insert whose text is the buffer.
abbrev pub rows : Formats
rows = record {
  parse_entry = λ bs. record { unknown = []; entry_type = row_data; store_value = bs };
  parse_row_change = λ bs. record { unknown = bs; event_type = insert };
  print_entry = λ _. codes "entry";
  print_row_change = λ r. r.unknown;
  print_transaction_begin = λ bs. bs;
  print_transaction_end = λ bs. bs;
}

abbrev topic : TopicInfo
topic = record new_topic_info { table_name = tables }

abbrev ended : Dumped
ended = record {
  how = read_ended (returned timed_out);
  printer = (print_sql rows false (1 ∷ 2 ∷ []) new_printer).1;
  reader = all_read;
  left = [];
}

dump_run :
    dump_loop rows false topic
      ((false, answers 0) ∷ (false, answers 2) ∷ [])
      new_printer
      empty
      topic_messages
    ≡ ok ended
unfolding dump_loop
dump_run = rw (first_read, second_read) refl

str_split-join_example :
    str_split (join 44 (codes "t1" ∷ codes "t2" ∷ [])) (44 ∷ []) (codes "t0" ∷ [])
    ≡ ok (codes "t0" ∷ codes "t1" ∷ codes "t2" ∷ [])
str_split-join_example =
    str_split-join 44 (codes "t1") (codes "t2" ∷ []) (codes "t0" ∷ [])
      ((refl, (refl, (refl, tt))), ((refl, (refl, (refl, tt))), tt))

get_input_arg-IsKept_example :
    Returns
      (IsKept (codes ".binlog"))
      (get_input_arg ((110, codes "n") ∷ (116, codes "t1,t2") ∷ (63, []) ∷ []) new_topic_info false)
get_input_arg-IsKept_example =
    get_input_arg-IsKept (codes ".binlog") ((110, codes "n") ∷ (116, codes "t1,t2") ∷ (63, []) ∷ [])
      new_topic_info false (refl, (refl, (refl, tt))) refl tt

dump_loop-Returns_example :
    Returns
      (λ d. IsAligned d.reader)
      (dump_loop rows false topic
        ((false, answers 0) ∷ (false, answers 2) ∷ [])
        new_printer
        empty
        topic_messages)
dump_loop-Returns_example =
    dump_loop-Returns rows false topic ((false, answers 0) ∷ (false, answers 2) ∷ []) new_printer
      empty topic_messages (answers-IsSteady 0, (answers-IsSteady 2, tt))
      (answers-IsSteady 1, (answers-IsSteady 2, (answers-IsSteady 2, tt))) (omega arith)

-- librdkafka that does not answer for the watermark.
abbrev no_watermark : Answers
no_watermark = record (answers 0) { watermark = λ _. (fail, pos 0) }

fill_offset-unmarked_example :
    ((fill_offset no_watermark empty).0 ≡ false)
    × ((fill_offset no_watermark empty).1.log_offset ≡ tp (negsuc 1000) ∷ [])
    × (fill_offset (answers 0) (fill_offset no_watermark empty).1
        ≡ (true, (fill_offset no_watermark empty).1))
fill_offset-unmarked_example =
    fill_offset-unmarked no_watermark (answers 0) empty (tp (negsuc 1000)) [] refl refl refl refl

-- A topic in the wait mode, with timeouts before, between and behind the messages.
abbrev waiting_topic : TopicInfo
waiting_topic = record topic { wait_mode = true }

abbrev slow_messages : List (Message × Answers)
slow_messages =
    (timeout, answers 0)
    ∷ (other_row, answers 0)
    ∷ (timeout, answers 1)
    ∷ (row, answers 2)
    ∷ (timeout, answers 2)
    ∷ []

abbrev slow_turns : List (Bool × Answers)
slow_turns = tabulate (λ n. (false, answers n)) 5

pause : (n : ℕ) → IsPause timeout (answers n)
pause n = (refl, answers-IsSteady n, λ _. refl)

dump_loop_waiting_example :
    Returns
      (EndsWith rows false waiting_topic refl
        (printing rows false waiting_topic refl new_printer slow_messages))
      (dump_loop rows false waiting_topic
        ((false, answers 0) ∷ slow_turns)
        new_printer
        empty
        slow_messages)
unfolding fill_offset mark_all
dump_loop_waiting_example =
    dump_loop_waiting rows false waiting_topic refl (answers 0) marked empty slow_turns new_printer
      slow_messages refl (refl, omega arith)
      (
        inr (pause 0),
        (
          inl (refl, codes "t2", refl),
          (inr (pause 1), (inl (refl, codes "t1", refl), (inr (pause 2), tt))),
        ),
      )
      (refl, (refl, (refl, (refl, (refl, tt))))) (omega arith)
