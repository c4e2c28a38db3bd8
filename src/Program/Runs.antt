-- ===== src/Program/Runs.antt =====
-- Whole runs of binlogdumpK.
use o2k.Prelude.{
  ℕ, ◌≤◌, ◌≡◌, refl, Bool, true, false, List, [], ◌∷◌, ◌++◌, All, length, none, some, arith,
  if◌then◌else◌, until_nul, Bool-cases, inl, inr,
}
use o2k.Outcome.{ok, fault}
use o2k.Kafka.{timed_out, Message, Answers, Reader, fill_offset, read_over, is_no_error, is_empty}
use o2k.Kafka.Wanted.{wanted}
use o2k.Consumer.{Librdkafka, group_id, Handle, subscribed, init, commit_offset}
use o2k.Arguments.{TopicInfo, Args, args, new_topic_info, get_input_arg, name_topic}
use o2k.Dump.{Formats, interrupted}
use o2k.Dump.Counts.{print_all, counted, events, print_all-counted}
use o2k.Dump.Complete.{IsKeyed, ended, dump_loop_complete}
use o2k.Program.{finished, print_statistics, new_printer, new_reader, loop_at, after_loop_at, main}

module _ (lib : Librdkafka) (pb : Formats) (options : List (ℕ × List ℕ)) (a : Args)
    (topic : TopicInfo) (raw : Bool)
    (read_options : get_input_arg options new_topic_info false ≡ ok a)
    (named : name_topic a ≡ args topic raw) where
  -- Where the arguments name a topic and the options ask for no waiting, librdkafka subscribes to it, the
  -- first `fillOffset` finds ends of partitions, the topic has a batch of messages with keys and then
  -- nothing more until the timeout, at which the positions are answered and are those of the ends, and
  -- there are turns enough, in none of which SIGINT has come: `main` comes to its end. It has consumed the
  -- whole topic and printed exactly the messages that the tables let through, it has committed if it was
  -- asked to, and the statistics that it prints count the rows among these messages, and the inserts,
  -- updates and deletes among the rows, in 64 bits.
  pub main_complete :
      (h : Handle) (m : Message) (q q' : Answers) (r : Reader) (batch : List (Message × Answers))
      (turns : List (Bool × Answers))
      → init lib (until_nul topic.bootstrap) (until_nul topic.topic_name) topic.group_id_num
        ≡ subscribed h
      → (no_wait : topic.wait_mode ≡ false) → (is_timeout : m.err ≡ timed_out)
      → (marked : is_empty r.log_offset ≡ false)
      → (answered : is_no_error (q.position r.read_offset).0 ≡ true)
      → (all_read : read_over r.log_offset (q.position r.read_offset).1 ≡ ok true)
      → (fill_offset q' new_reader).1 ≡ r
      → All (λ x. IsKeyed x.0) batch
      → All (λ t. t.0 ≡ false) turns
      → length (wanted topic.table_name batch) ≤ length turns
      → main lib pb options ((false, q') ∷ turns) (batch ++ ((m, q) ∷ []))
        ≡ ok (
            finished
              (ended q r (print_all pb raw (wanted topic.table_name batch) new_printer))
              (if topic.commit then some (commit_offset lib) else none)
              (print_statistics
                (counted new_printer.stat (events pb (wanted topic.table_name batch)))))
  unfolding main
  main_complete h m q q' r batch turns ready no_wait is_timeout marked answered all_read start keyed
        on enough =
      let counts =
        print_all-counted pb raw (wanted topic.table_name batch) new_printer
          (omega arith, omega arith, omega arith, omega arith) in
      rw
        (
          read_options,
          named,
          ready,
          dump_loop_complete pb raw topic no_wait m q is_timeout r marked answered all_read q'
              new_reader batch turns new_printer start keyed on enough,
        )
        (rw counts refl)

  -- Where librdkafka does not accept the group, `main` goes on with a reader that has no consumer: its
  -- first call of `Read` goes through the null pointer; and where SIGINT comes before that call, so does
  -- `CommitOffset`, or, if no commit was asked for, `main` comes to its end with nothing counted.
  pub main-refused :
      (q : Answers) (turns : List (Bool × Answers)) (ms : List (Message × Answers))
      → lib.accepts (group_id topic.group_id_num) ≡ false
      → (main lib pb options ((false, q) ∷ turns) ms ≡ fault)
        × (main lib pb options ((true, q) ∷ turns) ms ≡ (
            if topic.commit
            then fault
            else ok (
                finished
                  (record {
                    how = interrupted;
                    printer = new_printer;
                    reader = new_reader;
                    left = ms;
                  })
                  none
                  (print_statistics new_printer.stat))))
  unfolding main init loop_at after_loop_at
  main-refused q turns ms bad = elim (Bool-cases topic.commit) [
    | inl asked ↦
        (rw (read_options, named, bad) refl, rw (read_options, named, bad) (rw asked refl))
    | inr plain ↦
        (rw (read_options, named, bad) refl, rw (read_options, named, bad) (rw plain refl))
  ]
