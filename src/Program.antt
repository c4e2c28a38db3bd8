-- ===== src/Program.antt =====
-- `main` of binlogdump/binlogdumpK.cpp as a whole: the arguments, the reader, the loop, and what follows
-- it. `fprintf` to stderr and `printf` of the statistics are the bytes that they write.
pub mod Runs
pub mod Ends
pub mod Usage
use o2k.Prelude.{
  ℕ, ◌+◌, ◌-◌, ◌^◌, ◌==◌, ltb, ℤ, pos, negsuc, Bool, true, false, not, ◌&&◌, List, [], ◌∷◌, ◌++◌,
  Option, none, some, if◌then◌else◌, codes, until_nul, decimal, show_int,
}
use o2k.Outcome.{Outcome, ok, fault, ◌>>=◌}
use o2k.Kafka.{ErrorCode, Message, Answers, Reader, is_no_error}
use o2k.Kafka.Pointer.{read_at}
use o2k.Consumer.{Librdkafka, Handle, Init, refused, aborts, subscribed, init, commit_offset}
use o2k.Arguments.{TopicInfo, Args, exits, args, new_topic_info, get_input_arg, name_topic}
use o2k.Dump.{
  Statistics, Formats, Printer, Stopped, read_ended, interrupted, running, Dumped, after_read,
  dump_loop,
}

abbrev show_bool : Bool → List ℕ
show_bool true = codes "1"
show_bool false = codes "0"

abbrev table_lines : List (List ℕ) → List ℕ
table_lines [] = []
table_lines (t ∷ ts) = codes "tableName= " ++ (until_nul t ++ (codes " \n" ++ table_lines ts))

-- `PintfArg`, to stderr.
unfoldable pub print_arg : TopicInfo → List ℕ
print_arg t =
    codes "nodeName= "
    ++ (until_nul t.node_name
        ++ (codes " \nschemaName= "
            ++ (until_nul t.schema_name
                ++ (codes " \n"
                    ++ (table_lines t.table_name
                        ++ (codes "bootstrap= "
                            ++ (until_nul t.bootstrap
                                ++ (codes " \nwaitMode= "
                                    ++ (show_bool t.wait_mode
                                        ++ (codes " \ngroupId= "
                                            ++ (until_nul t.group_id_num
                                                ++ (codes " \ncommit= "
                                                    ++ (show_bool t.commit
                                                        ++ codes " \n")))))))))))))

-- `%ld` of a uint64_t: its bits as a signed number of twenty characters at most.
unfoldable pub show_count : ℕ → List ℕ
show_count n = if ltb n (2 ^ 63) then decimal 20 n else 45 ∷ decimal 20 (2 ^ 64 - n)

unfoldable pub print_statistics : Statistics → List ℕ
unfolding show_count
print_statistics s =
    codes "=========== Statistics ===========\ntotal rows  : "
    ++ (show_count s.total_rows
        ++ (codes "\ninsert rows : "
            ++ (show_count s.insert_cnt
                ++ (codes "\nupdate rows : "
                    ++ (show_count s.update_cnt
                        ++ (codes "\ndelete rows : "
                            ++ (show_count s.delete_cnt ++ codes "\n")))))))

-- `sig_handler` on bExit, where SIGINT is 2; the loop reads bExit before each of its turns.
unfoldable pub sig_handler : ℕ → Bool → Bool
sig_handler sig b_exit = if sig == 2 then true else b_exit

-- What `main` has done: where it came to its end, what the loop left, what `CommitOffset` returned
-- where it was called, and the statistics; or where the loop is still running.
pub data MainEnd : Type 0 where
  exited : ℤ → MainEnd
  aborted : MainEnd
  still_running : Dumped → MainEnd
  finished : Dumped → Option ErrorCode → List ℕ → MainEnd

-- What follows the loop.
unfoldable pub finish : Librdkafka → TopicInfo → Dumped → MainEnd
unfolding print_statistics
finish lib topic d =
    finished d (if topic.commit then some (commit_offset lib) else none)
      (print_statistics d.printer.stat)

unfoldable pub after_loop : Librdkafka → TopicInfo → Stopped → Dumped → MainEnd
unfolding finish
after_loop lib topic running d = still_running d
after_loop lib topic interrupted d = finish lib topic d
after_loop lib topic (read_ended e) d = finish lib topic d

abbrev pub new_printer : Printer
new_printer = record {
  stat = record { total_rows = 0; insert_cnt = 0; update_cnt = 0; delete_cnt = 0 };
  out = [];
}

abbrev pub new_reader : Reader
new_reader = record { log_offset = []; read_offset = [] }

-- The loop, on a reader that may have no consumer.
unfoldable pub loop_at :
    Bool
    → Formats
    → Bool
    → TopicInfo
    → List (Bool × Answers)
    → Printer
    → Reader
    → List (Message × Answers)
    → Outcome Dumped
unfolding read_at
loop_at consumer pb print_raw topic [] p r ms =
    ok (record { how = running; printer = p; reader = r; left = ms })
loop_at consumer pb print_raw topic ((true, q) ∷ turns) p r ms =
    ok (record { how = interrupted; printer = p; reader = r; left = ms })
loop_at consumer pb print_raw topic ((false, q) ∷ turns) p r ms =
    read_at consumer topic.table_name q ms r
    >>= after_read (λ p' r' ms'. loop_at consumer pb print_raw topic turns p' r' ms') pb print_raw
        topic.wait_mode p

-- What follows it: `CommitOffset` calls `commitSync`.
unfoldable pub after_loop_at : Bool → Librdkafka → TopicInfo → Stopped → Dumped → Outcome MainEnd
unfolding after_loop
after_loop_at consumer lib topic running d = ok (after_loop lib topic running d)
after_loop_at consumer lib topic how d =
    if topic.commit && not consumer then fault else ok (after_loop lib topic how d)

-- What follows the constructor of the reader, which drops what `Init` returns.
unfoldable pub with_reader :
    Librdkafka
    → Formats
    → Bool
    → TopicInfo
    → List (Bool × Answers)
    → List (Message × Answers)
    → Init
    → Outcome MainEnd
unfolding loop_at after_loop after_loop_at
with_reader lib pb raw topic turns ms aborts = ok aborted
with_reader lib pb raw topic turns ms (refused h) =
    loop_at h.consumer pb raw topic turns new_printer new_reader ms >>= λ d.
    after_loop_at h.consumer lib topic d.how d
with_reader lib pb raw topic turns ms (subscribed h) =
    dump_loop pb raw topic turns new_printer new_reader ms >>= λ d.
    ok (after_loop lib topic d.how d)

unfoldable pub with_args :
    Librdkafka → Formats → List (Bool × Answers) → List (Message × Answers) → Args → Outcome MainEnd
unfolding with_reader
with_args lib pb turns ms (exits c) = ok (exited c)
with_args lib pb turns ms (args topic raw) =
    with_reader lib pb raw topic turns ms
      (init lib (until_nul topic.bootstrap) (until_nul topic.topic_name) topic.group_id_num)

unfoldable pub main :
    Librdkafka
    → Formats
    → List (ℕ × List ℕ)
    → List (Bool × Answers)
    → List (Message × Answers)
    → Outcome MainEnd
unfolding with_args
main lib pb options turns ms = do
  a ← get_input_arg options new_topic_info false
  with_args lib pb turns ms (name_topic a)
