-- ===== src/Program/Ends.antt =====
-- What binlogdumpK has done at its end, however its loop ended.
use o2k.Prelude.{
  fun_ext, ℕ, ◌≡◌, refl, sym, ap, subst, ◌∙◌, Bool, true, false, not, ◌&&◌, List, [], ◌∷◌, Option,
  none, some, arith, if◌then◌else◌, until_nul,
}
use o2k.Outcome.{ok, fault, bind-eq-ok, ◌>>=◌}
use o2k.Kafka.{ErrorCode, Message, Answers, Reader, read}
use o2k.Kafka.Pointer.{read_at-true}
use o2k.Kafka.Wanted.{wanted}
use o2k.Consumer.{Librdkafka, Init, aborts, refused, subscribed, init, commit_offset}
use o2k.Arguments.{TopicInfo, Args, args, new_topic_info, get_input_arg, name_topic}
use o2k.Dump.{
  Formats, Printer, after_read, Stopped, running, interrupted, read_ended, Dumped, dump_loop,
}
use o2k.Dump.Counts.{counted, events, print_all-counted}
use o2k.Dump.Texts.{texts, print_all-texts}
use o2k.Dump.Order.{Printed, dump_loop-Printed}
use o2k.Program.{
  finished, finish, after_loop, loop_at, after_loop_at, with_reader, print_statistics, new_printer,
  new_reader, main,
}

ok_injective : {A : Type 0} {x y : A} → ok x ≡ ok y → x ≡ y
ok_injective e = cc

not_fault : {A : Type 0} (b : Bool) {x y : A} → (if b then fault else ok x) ≡ ok y → x ≡ y
not_fault true e = cc
not_fault false e = ok_injective e

loop_at-true :
    (pb : Formats) (raw : Bool) (topic : TopicInfo) (turns : List (Bool × Answers)) (p : Printer)
    (r : Reader) (ms : List (Message × Answers))
    → loop_at true pb raw topic turns p r ms ≡ dump_loop pb raw topic turns p r ms
unfolding loop_at dump_loop
loop_at-true pb raw topic [] p r ms = refl
loop_at-true pb raw topic ((true, q) ∷ turns) p r ms = refl
loop_at-true pb raw topic ((false, q) ∷ turns) p r ms = rw (read_at-true topic.table_name q ms r) (
    ap (λ go. read topic.table_name q ms r >>= after_read go pb raw topic.wait_mode p)
      (fun_ext λ p'. fun_ext λ r'. fun_ext λ ms'. loop_at-true pb raw topic turns p' r' ms'))

module _ (lib : Librdkafka) (pb : Formats) (raw : Bool) (topic : TopicInfo)
    (ms : List (Message × Answers)) where
  -- The messages that were consumed, of which those that the filter lets through were printed, as
  -- `written` says byte by byte, and counted; and whether the offsets were committed.
  pub record Done (d : Dumped) (committed : Option ErrorCode) (text : List ℕ) : Type 0 where
    pub printed : Printed pb raw topic new_printer ms d
    pub written : d.printer.out ≡ texts pb raw (wanted topic.table_name printed.front)
    pub statistics :
        text
        ≡ print_statistics
            (counted new_printer.stat (events pb (wanted topic.table_name printed.front)))
    pub commit : committed ≡ (if topic.commit then some (commit_offset lib) else none)

  finish-Done :
      (d d' : Dumped) (committed : Option ErrorCode) (text : List ℕ)
      → Printed pb raw topic new_printer ms d
      → finish lib topic d ≡ finished d' committed text
      → Done d' committed text
  unfolding finish
  finish-Done d d' committed text p e =
      let same : d ≡ d' = cc in
      let same_commit : (if topic.commit then some (commit_offset lib) else none) ≡ committed =
        cc in
      let same_text : print_statistics d.printer.stat ≡ text = cc in
      subst (λ d. Done d committed text) same
        (record {
          printed = p;
          written =
              ap (λ q. q.out) p.printed
              ∙ print_all-texts pb raw (wanted topic.table_name p.front) new_printer;
          statistics =
              sym same_text
              ∙ ap (λ q. print_statistics q.stat) p.printed
              ∙ ap print_statistics (
                  print_all-counted pb raw (wanted topic.table_name p.front) new_printer
                    (omega arith, omega arith, omega arith, omega arith));
          commit = sym same_commit;
        })

  after_loop-Done :
      (how : Stopped) (d d' : Dumped) (committed : Option ErrorCode) (text : List ℕ)
      → Printed pb raw topic new_printer ms d
      → after_loop lib topic how d ≡ finished d' committed text
      → Done d' committed text
  unfolding after_loop
  after_loop-Done running d d' committed text p e = cc
  after_loop-Done interrupted d d' committed text p e = finish-Done d d' committed text p e
  after_loop-Done (read_ended c) d d' committed text p e = finish-Done d d' committed text p e

  after_loop_at-Done :
      (consumer : Bool) (how : Stopped) (d d' : Dumped) (committed : Option ErrorCode)
      (text : List ℕ)
      → Printed pb raw topic new_printer ms d
      → after_loop_at consumer lib topic how d ≡ ok (finished d' committed text)
      → Done d' committed text
  unfolding after_loop_at
  after_loop_at-Done consumer running d d' committed text p e =
      after_loop-Done running d d' committed text p (ok_injective e)
  after_loop_at-Done consumer interrupted d d' committed text p e =
      after_loop-Done interrupted d d' committed text p (not_fault (topic.commit && not consumer) e)
  after_loop_at-Done consumer (read_ended c) d d' committed text p e =
      after_loop-Done (read_ended c) d d' committed text p
        (not_fault (topic.commit && not consumer) e)

  -- With a consumer it is the loop of `main`, and without one it does not come to a message.
  loop_at-Printed :
      (consumer : Bool) (turns : List (Bool × Answers)) (d : Dumped)
      → loop_at consumer pb raw topic turns new_printer new_reader ms ≡ ok d
      → Printed pb raw topic new_printer ms d
  unfolding loop_at
  loop_at-Printed true turns d e =
      dump_loop-Printed pb raw topic turns new_printer new_reader ms d
        (sym (loop_at-true pb raw topic turns new_printer new_reader ms) ∙ e)
  loop_at-Printed false [] d e =
      subst (Printed pb raw topic new_printer ms) (ok_injective e)
        (record { front = []; split = refl; printed = refl })
  loop_at-Printed false ((true, q) ∷ turns) d e =
      subst (Printed pb raw topic new_printer ms) (ok_injective e)
        (record { front = []; split = refl; printed = refl })
  loop_at-Printed false ((false, q) ∷ turns) d e = cc e

  with_reader-Done :
      (turns : List (Bool × Answers)) (i : Init) (d' : Dumped) (committed : Option ErrorCode)
      (text : List ℕ)
      → with_reader lib pb raw topic turns ms i ≡ ok (finished d' committed text)
      → Done d' committed text
  unfolding with_reader
  with_reader-Done turns aborts d' committed text e = cc
  with_reader-Done turns (refused h) d' committed text e =
      let (d, ran, ended) =
        bind-eq-ok (loop_at h.consumer pb raw topic turns new_printer new_reader ms) _ e in
      after_loop_at-Done h.consumer d.how d d' committed text
        (loop_at-Printed h.consumer turns d ran) ended
  with_reader-Done turns (subscribed h) d' committed text e =
      let (d, ran, ended) =
        bind-eq-ok (dump_loop pb raw topic turns new_printer new_reader ms) _ e in
      after_loop-Done d.how d d' committed text
        (dump_loop-Printed pb raw topic turns new_printer new_reader ms d ran) (ok_injective ended)

  -- However `main` came to its end, at a timeout, an error or SIGINT, and whatever the topic and librdkafka
  -- brought it: it has printed, of the messages that it consumed, exactly those that the tables let
  -- through, in their order, of each the text of its entry and that of the message inside it; the statistics count the rows among these, and the inserts, updates and
  -- deletes among the rows, in 64 bits; and it has committed if and only if it was asked to.
  pub main-Done :
      (options : List (ℕ × List ℕ)) (a : Args) (turns : List (Bool × Answers)) (d : Dumped)
      (committed : Option ErrorCode) (text : List ℕ)
      → get_input_arg options new_topic_info false ≡ ok a
      → name_topic a ≡ args topic raw
      → main lib pb options turns ms ≡ ok (finished d committed text)
      → Done d committed text
  unfolding main
  main-Done options a turns d committed text read_options named e =
      with_reader-Done turns
        (init lib (until_nul topic.bootstrap) (until_nul topic.topic_name) topic.group_id_num) d
        committed text (rw (read_options, named) at e)
