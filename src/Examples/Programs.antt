-- ===== src/Examples/Programs.antt =====
-- Whole runs of binlogdumpK.
use o2k.Prelude.{if◌then◌else◌, none, ℕ, ◌≡◌, refl, true, false, List, [], ◌∷◌, some, arith, codes}
use o2k.Outcome.{ok, fault}
use o2k.Kafka.{
  no_error, fill_offset, mark_all, read_over, passes, has_key, read, read_loop, pass, on_message,
}
use o2k.Consumer.{
  Librdkafka, topic_defaults, Handle, init, set_all, settings_of, group_id, from_earliest,
}
use o2k.Arguments.{
  TopicInfo, args, new_topic_info, get_input_arg, handle_option, name_topic, str_split, split_loop,
  strstr,
}
use o2k.Dump.{Dumped, interrupted, print_sql, dump_loop}
use o2k.Dump.Counts.{print_all, counted, events}
use o2k.Dump.Complete.{ended}
use o2k.Program.{finished, print_statistics, new_printer, new_reader, main}
use o2k.Program.Ends.{Done, main-Done}
use o2k.Program.Runs.{main_complete, main-refused}
use o2k.Examples.Dumps.{answers, marked, rows, row, other_row, timeout, tables, topic_messages}

-- librdkafka that takes every setting.
abbrev willing : Librdkafka
willing = record {
  accepts = λ _. true;
  accepts_topic = λ _. true;
  creates = λ _. true;
  subscribe = λ _. no_error;
  commit_sync = no_error;
}

-- One that takes none.
abbrev unwilling : Librdkafka
unwilling = record willing { accepts = λ _. false }

-- -n n -s s -t t1,t3 -C 1
abbrev options : List (ℕ × List ℕ)
options = (110, codes "n") ∷ (115, codes "s") ∷ (116, codes "t1,t3") ∷ (67, codes "1") ∷ []

abbrev arguments : TopicInfo
arguments = record new_topic_info {
  node_name = codes "n";
  schema_name = codes "s";
  table_name = tables;
  commit = true;
}

abbrev topic : TopicInfo
topic = record arguments { topic_name = codes "n.s.binlog" }

options_read : get_input_arg options new_topic_info false ≡ ok (args arguments false)
unfolding get_input_arg handle_option str_split split_loop strstr
options_read = refl

topic_named : name_topic (args arguments false) ≡ args topic false
unfolding name_topic
topic_named = refl

abbrev handle : Handle
handle = record {
  conf =
      set_all willing (topic_defaults (from_earliest ∷ []) ∷ [])
        (set_all willing (settings_of topic.bootstrap) (group_id topic.group_id_num ∷ []));
  tconf = from_earliest ∷ [];
  consumer = true;
  topics = codes "n.s.binlog" ∷ [];
}

main_complete_example :
    main willing rows options
      ((false, answers 0) ∷ (false, answers 2) ∷ (false, answers 2) ∷ [])
      ((other_row, answers 1) ∷ (row, answers 2) ∷ (timeout, answers 2) ∷ [])
    ≡ ok (
        finished
          (ended (answers 2) marked (print_all rows false ((1 ∷ 2 ∷ []) ∷ []) new_printer))
          (some no_error)
          (print_statistics (counted new_printer.stat (events rows ((1 ∷ 2 ∷ []) ∷ [])))))
unfolding fill_offset mark_all read_over passes has_key init
main_complete_example =
    main_complete willing rows options (args arguments false) topic false options_read topic_named
      handle timeout (answers 2) (answers 0) marked ((other_row, answers 1) ∷ (row, answers 2) ∷ [])
      ((false, answers 2) ∷ (false, answers 2) ∷ []) refl refl refl refl refl refl refl
      ((refl, codes "t2", refl), ((refl, codes "t1", refl), tt)) (refl, (refl, tt)) (omega arith)

main-refused_example :
    (main unwilling rows options ((false, answers 0) ∷ []) ((row, answers 2) ∷ []) ≡ fault)
    × (main unwilling rows options ((true, answers 0) ∷ []) ((row, answers 2) ∷ []) ≡ (
        if topic.commit
        then fault
        else ok (
            finished
              (record {
                how = interrupted;
                printer = new_printer;
                reader = new_reader;
                left = (row, answers 2) ∷ [];
              })
              none
              (print_statistics new_printer.stat))))
main-refused_example =
    main-refused unwilling rows options (args arguments false) topic false options_read topic_named
      (answers 0) [] ((row, answers 2) ∷ []) refl

-- SIGINT comes behind the message that is printed; the timeout is not consumed.
abbrev stopped : Dumped
stopped = record {
  how = interrupted;
  printer = (print_sql rows false (1 ∷ 2 ∷ []) new_printer).1;
  reader = marked;
  left = (timeout, answers 2) ∷ [];
}

abbrev one_insert : List ℕ
one_insert =
    print_statistics (record { total_rows = 1; insert_cnt = 1; update_cnt = 0; delete_cnt = 0 })

interrupted_run :
    main willing rows options ((false, answers 0) ∷ (true, answers 2) ∷ []) topic_messages
    ≡ ok (finished stopped (some no_error) one_insert)
unfolding main init read fill_offset mark_all read_loop pass on_message passes has_key name_topic
    dump_loop
interrupted_run = rw (options_read, main) refl

main-Done_example : Done willing rows false topic topic_messages stopped (some no_error) one_insert
main-Done_example =
    main-Done willing rows false topic topic_messages options (args arguments false)
      ((false, answers 0) ∷ (true, answers 2) ∷ []) stopped (some no_error) one_insert options_read
      topic_named interrupted_run
