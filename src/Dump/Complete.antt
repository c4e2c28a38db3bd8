-- ===== src/Dump/Complete.antt =====
-- That the loop of `main` gets through a topic.
use o2k.Prelude.{
  ℕ, suc, ◌≤◌, ◌≡◌, refl, Bool, true, false, List, [], ◌∷◌, ◌++◌, All, length, some, arith,
  Bool-cases, inl, inr,
}
use o2k.Outcome.{Outcome, ok, ◌>>=◌}
use o2k.Kafka.{
  no_error, timed_out, Message, Answers, Reader, returned, delivered, passes, fill_offset,
  read_over, pass, on_message, on_timeout, stop, is_no_error, is_empty, read, read_loop, next,
}
use o2k.Kafka.Wanted.{wants, wanted}
use o2k.Arguments.{TopicInfo}
use o2k.Dump.{Formats, Printer, print_sql, read_ended, Dumped, after_read, dump_loop}
use o2k.Dump.Counts.{print_all}

-- A message of the topic, which binlog messages are: without an error and with a key.
abbrev pub IsKeyed : Message → Type 0
IsKeyed m = (m.err ≡ no_error) × (key : List ℕ) × (m.key ≡ some key)

-- Once the ends of the partitions are known `fillOffset` changes nothing.
pub filled : (q : Answers) (r : Reader) → is_empty r.log_offset ≡ false → (fill_offset q r).1 ≡ r
unfolding fill_offset
filled q r h = rw h refl

-- What a pass and the filter make of a keyed message.
module _ (keys : List (List ℕ)) (m : Message) (q : Answers) (r : Reader) (key : List ℕ)
    (marked : is_empty r.log_offset ≡ false) (good : m.err ≡ no_error)
    (has : m.key ≡ some key) where
  pub passed_over :
      passes keys key ≡ false → (pass keys m.err m q r ≡ ok (next r)) × (wants keys m.err m ≡ [])
  unfolding pass on_message
  passed_over h = (
    rw (good, pass) (rw (has, filled q r marked) (rw h refl)),
    rw (good, wants) (rw has (rw h refl)),
  )

  pub handed_over :
      passes keys key ≡ true
      → (pass keys m.err m q r ≡ ok (stop (delivered m.payload) r))
        × (wants keys m.err m ≡ m.payload ∷ [])
  unfolding pass on_message
  handed_over h = (
    rw (good, pass) (rw (has, filled q r marked) (rw h refl)),
    rw (good, wants) (rw has (rw h refl)),
  )

-- What the loop leaves where it has printed `p` and `Read` has then found all read.
abbrev pub ended : Answers → Reader → Printer → Dumped
ended q r p = record {
  how = read_ended (returned timed_out);
  printer = p;
  reader = record r { read_offset = (q.position r.read_offset).1 };
  left = [];
}

-- At a timeout, with the offsets that `position` answers with.
module _ (pb : Formats) (raw : Bool) (topic : TopicInfo) (no_wait : topic.wait_mode ≡ false)
    (m : Message) (q : Answers) (is_timeout : m.err ≡ timed_out) (r : Reader)
    (marked : is_empty r.log_offset ≡ false)
    (answered : is_no_error (q.position r.read_offset).0 ≡ true)
    (all_read : read_over r.log_offset (q.position r.read_offset).1 ≡ ok true) where
  abbrev continue_with : List (Bool × Answers) → Printer → List (Message × Answers) → Outcome Dumped
  continue_with turns p ms =
      read_loop topic.table_name ms r
      >>= after_read (λ p' r' ms'. dump_loop pb raw topic turns p' r' ms') pb raw topic.wait_mode p

  continue_timeout :
      (turns : List (Bool × Answers)) (p : Printer)
      → continue_with turns p ((m, q) ∷ []) ≡ ok (ended q r p)
  unfolding read_loop pass on_timeout
  continue_timeout turns p = rw (is_timeout, pass) (rw (marked, answered, all_read, no_wait) refl)

  abbrev Continues : List (Message × Answers) → Type 0
  Continues batch =
      (turns : List (Bool × Answers)) (p : Printer)
      → All (λ x. IsKeyed x.0) batch
      → All (λ t. t.0 ≡ false) turns
      → length (wanted topic.table_name batch) ≤ length turns
      → continue_with turns p (batch ++ ((m, q) ∷ []))
        ≡ ok (ended q r (print_all pb raw (wanted topic.table_name batch) p))

  -- The turn behind a message that was printed.
  next_turn :
      (batch : List (Message × Answers)) (turns : List (Bool × Answers)) (p : Printer)
      → Continues batch
      → All (λ x. IsKeyed x.0) batch
      → All (λ t. t.0 ≡ false) turns
      → suc (length (wanted topic.table_name batch)) ≤ length turns
      → dump_loop pb raw topic turns p r (batch ++ ((m, q) ∷ []))
        ≡ ok (ended q r (print_all pb raw (wanted topic.table_name batch) p))
  unfolding dump_loop read
  next_turn batch [] p ih keyed on enough = absurd (omega arith)
  next_turn batch ((true, q') ∷ turns) p ih keyed (on, later) enough = cc
  next_turn batch ((false, q') ∷ turns) p ih keyed (on, later) enough =
      rw (filled q' r marked) (ih turns p keyed later (omega arith))

  continue_all : (batch : List (Message × Answers)) → Continues batch
  unfolding read_loop
  continue_all [] turns p keyed on enough = continue_timeout turns p
  continue_all ((m', q') ∷ batch) turns p ((good, key, has), keyed) on enough =
      elim (Bool-cases (passes topic.table_name key)) [
        | inr held_back ↦
            let (step, no_payload) =
              passed_over topic.table_name m' q' r key marked good has held_back in
            rw (step, no_payload) (continue_all batch turns p keyed on (rw no_payload at enough))
        | inl through ↦
            let (step, one) = handed_over topic.table_name m' q' r key marked good has through in
            rw (step, one)
              (next_turn batch turns (print_sql pb raw m'.payload p).1 (continue_all batch) keyed on
                (rw one at enough))
      ]

  -- Of a topic with a batch of messages with keys and then nothing more, where the loop of `main` does
  -- not wait, has a turn for each message that the filter lets through and one more, and is not
  -- interrupted, and where the positions at the timeout are those of the ends: the loop ends with that
  -- timeout, and it has consumed the whole topic and printed of it exactly what the filter lets through.
  pub dump_loop_complete :
      (q' : Answers) (r' : Reader) (batch : List (Message × Answers))
      (turns : List (Bool × Answers)) (p : Printer)
      → (fill_offset q' r').1 ≡ r
      → All (λ x. IsKeyed x.0) batch
      → All (λ t. t.0 ≡ false) turns
      → length (wanted topic.table_name batch) ≤ length turns
      → dump_loop pb raw topic ((false, q') ∷ turns) p r' (batch ++ ((m, q) ∷ []))
        ≡ ok (ended q r (print_all pb raw (wanted topic.table_name batch) p))
  unfolding dump_loop read
  dump_loop_complete q' r' batch turns p start keyed on enough =
      rw start (continue_all batch turns p keyed on enough)
