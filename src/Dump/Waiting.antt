-- ===== src/Dump/Waiting.antt =====
-- That the loop of `main` gets through a topic in the wait mode, whatever the timeouts on its way.
use o2k.Prelude.{
  suc, ◌≤◌, ◌≡◌, refl, Bool, true, false, List, [], ◌∷◌, All, length, ◌⊎◌, arith, Bool-cases, inl,
  inr,
}
use o2k.Outcome.{Outcome, ◌>>=◌, Returns, Returns-ok, Returns-if}
use o2k.Kafka.{
  timed_out, TopicPartition, Message, Answers, Reader, passes, fill_offset, pass, on_timeout,
  is_no_error, is_empty, read, read_loop,
}
use o2k.Kafka.Bounds.{IsSteady, IsAligned, read_over_total}
use o2k.Kafka.Wanted.{wanted}
use o2k.Arguments.{TopicInfo}
use o2k.Dump.{Formats, Printer, print_sql, Dumped, running, after_read, dump_loop}
use o2k.Dump.Counts.{print_all}
use o2k.Dump.Complete.{IsKeyed, filled, passed_over, handed_over}

-- A timeout at which librdkafka knows the positions of all partitions.
abbrev pub IsPause : Message → Answers → Type 0
IsPause m q =
    (m.err ≡ timed_out)
    × IsSteady q
    × ((tps : List TopicPartition) → is_no_error (q.position tps).0 ≡ true)

-- What a quiet topic brings: messages with keys, and timeouts.
abbrev pub AreExpected : List (Message × Answers) → Type 0
AreExpected = All (λ x. IsKeyed x.0 ⊎ IsPause x.0 x.1)

abbrev pub IsMarked : Reader → Type 0
IsMarked r = (is_empty r.log_offset ≡ false) × IsAligned r

module _ (pb : Formats) (raw : Bool) (topic : TopicInfo) (waits : topic.wait_mode ≡ true) where
  -- All of it is consumed, and printed as far as the filter lets it through.
  abbrev pub EndsWith : Printer → Dumped → Type 0
  EndsWith p d = (d.how ≡ running) × (d.left ≡ []) × (d.printer ≡ p)

  abbrev pub printing : Printer → List (Message × Answers) → Printer
  printing p ms = print_all pb raw (wanted topic.table_name ms) p

  abbrev go_on :
      List (Bool × Answers) → Printer → Reader → List (Message × Answers) → Outcome Dumped
  go_on turns p r ms =
      read_loop topic.table_name ms r
      >>= after_read (λ p' r' ms'. dump_loop pb raw topic turns p' r' ms') pb raw topic.wait_mode p

  abbrev GoesOn : List (Message × Answers) → Type 0
  GoesOn ms =
      (turns : List (Bool × Answers)) (p : Printer) (r : Reader)
      → IsMarked r
      → All (λ t. t.0 ≡ false) turns
      → length ms ≤ length turns
      → Returns (EndsWith (printing p ms)) (go_on turns p r ms)

  next_turn :
      (ms : List (Message × Answers))
      → GoesOn ms
      → (turns : List (Bool × Answers)) (p : Printer) (r : Reader) → IsMarked r
      → All (λ t. t.0 ≡ false) turns
      → suc (length ms) ≤ length turns
      → Returns (EndsWith (printing p ms)) (dump_loop pb raw topic turns p r ms)
  unfolding dump_loop read
  next_turn ms ih [] p r marked on enough = absurd (omega arith)
  next_turn ms ih ((true, q') ∷ turns) p r marked (on, later) enough = cc
  next_turn ms ih ((false, q') ∷ turns) p r (marked, fits) (on, later) enough =
      rw (filled q' r marked) (ih turns p r (marked, fits) later (omega arith))

  after_pause :
      (m : Message) (q : Answers) (ms : List (Message × Answers))
      → GoesOn ms
      → IsPause m q
      → GoesOn ((m, q) ∷ ms)
  unfolding read_loop pass on_timeout
  after_pause m q ms ih (is_timeout, steady, known) turns p r (marked, fits) on enough =
      let same = steady.kept r.read_offset in
      let r' : Reader = record r { read_offset = (q.position r.read_offset).1 } in
      let fits' : IsAligned r' = omega arith in
      let (over, all_read) = read_over_total r.log_offset (q.position r.read_offset).1 fits' in
      elim (Bool-cases over) [
        | inl reached ↦
            rw (is_timeout, marked, known r.read_offset, all_read, reached)
              (Returns-if topic.wait_mode _ _
                (λ _. next_turn ms ih turns p r' (marked, fits') on (omega arith)) (λ ends. cc))
        | inr behind ↦
            rw (is_timeout, marked, known r.read_offset, all_read, behind)
              (ih turns p r' (marked, fits') on (omega arith))
      ]

  after_message :
      (m : Message) (q : Answers) (ms : List (Message × Answers))
      → GoesOn ms
      → IsKeyed m
      → GoesOn ((m, q) ∷ ms)
  unfolding read_loop
  after_message m q ms ih (good, key, has) turns p r (marked, fits) on enough =
      elim (Bool-cases (passes topic.table_name key)) [
        | inr held_back ↦
            let (step, no_payload) =
              passed_over topic.table_name m q r key marked good has held_back in
            rw (step, no_payload) (ih turns p r (marked, fits) on (omega arith))
        | inl through ↦
            let (step, one) = handed_over topic.table_name m q r key marked good has through in
            rw (step, one)
              (next_turn ms ih turns (print_sql pb raw m.payload p).1 r (marked, fits) on
                (omega arith))
      ]

  goes_on : (ms : List (Message × Answers)) → AreExpected ms → GoesOn ms
  unfolding read_loop
  goes_on [] none = λ turns p r marked on enough. Returns-ok _ (refl, refl, refl)
  goes_on ((m, q) ∷ ms) (inl keyed, later) = after_message m q ms (goes_on ms later) keyed
  goes_on ((m, q) ∷ ms) (inr pause, later) = after_pause m q ms (goes_on ms later) pause

  -- In the wait mode, where the ends of the partitions are known, the topic brings messages with keys
  -- and timeouts at which the positions are known, in any order, there is a turn for each of them and
  -- one more, and SIGINT does not come: the loop of `main` consumes them all without an end of its own
  -- and an index out of range, and prints exactly those that the filter lets through, in their order.
  pub dump_loop_waiting :
      (q' : Answers) (r r' : Reader) (turns : List (Bool × Answers)) (p : Printer)
      (ms : List (Message × Answers))
      → (fill_offset q' r').1 ≡ r
      → IsMarked r
      → AreExpected ms
      → All (λ t. t.0 ≡ false) turns
      → length ms ≤ length turns
      → Returns (EndsWith (printing p ms)) (dump_loop pb raw topic ((false, q') ∷ turns) p r' ms)
  unfolding dump_loop read
  dump_loop_waiting q' r r' turns p ms start marked expected on enough =
      rw start (goes_on ms expected turns p r marked on enough)
