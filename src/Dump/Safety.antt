-- ===== src/Dump/Safety.antt =====
-- That the loop of `main` stays inside the reader's vectors.
use o2k.Prelude.{subst, Bool, true, false, List, [], ◌∷◌, ◌++◌, All, Bool-cases, inl, inr}
use o2k.Outcome.{Outcome, Returns, Returns-ok, Returns-bind}
use o2k.Kafka.{timed_out, Message, Answers, Reader, returned, delivered, waiting, Call}
use o2k.Kafka.Bounds.{IsSteady, IsAligned, read-Returns}
use o2k.Kafka.Wanted.{read-Consumed}
use o2k.Arguments.{TopicInfo}
use o2k.Dump.{Formats, Printer, print_sql, Dumped, after_read, dump_loop}

abbrev pub AreSteady : List (Message × Answers) → Type 0
AreSteady = All (λ x. IsSteady x.1)

AreSteady-behind : (xs ys : List (Message × Answers)) → AreSteady (xs ++ ys) → AreSteady ys
AreSteady-behind [] ys h = h
AreSteady-behind (x ∷ xs) ys (_, h) = AreSteady-behind xs ys h

module _ (pb : Formats) (raw : Bool) (topic : TopicInfo) where
  after_read-Returns :
      (go : Printer → Reader → List (Message × Answers) → Outcome Dumped) (p : Printer) (c : Call)
      → ((p' : Printer) → Returns (λ d. IsAligned d.reader) (go p' c.1 c.2))
      → IsAligned c.1
      → Returns (λ d. IsAligned d.reader) (after_read go pb raw topic.wait_mode p c)
  after_read-Returns go p (delivered buf, r, ms) ih h = ih (print_sql pb raw buf p).1
  after_read-Returns go p (waiting, r, ms) ih h = Returns-ok _ h
  after_read-Returns go p (returned timed_out, r, ms) ih h = elim (Bool-cases topic.wait_mode) [
    | inl wait ↦ rw wait (ih p)
    | inr no_wait ↦ rw no_wait (Returns-ok _ h)
  ]
  after_read-Returns go p (returned c, r, ms) ih h = Returns-ok _ h

  -- As long as librdkafka answers both calls of `assignment` with as many partitions and `position`
  -- keeps them, the loop of `main` comes to an end of its own or to the end of the turns and messages
  -- at hand, on every branch of every `Read` in it without an index out of range, and leaves the
  -- vectors of the reader aligned.
  pub dump_loop-Returns :
      (turns : List (Bool × Answers)) (p : Printer) (r : Reader) (ms : List (Message × Answers))
      → All (λ t. IsSteady t.1) turns
      → AreSteady ms
      → IsAligned r
      → Returns (λ d. IsAligned d.reader) (dump_loop pb raw topic turns p r ms)
  unfolding dump_loop
  dump_loop-Returns [] p r ms turns_steady steady h = Returns-ok _ h
  dump_loop-Returns ((true, q) ∷ turns) p r ms turns_steady steady h = Returns-ok _ h
  dump_loop-Returns ((false, q) ∷ turns) p r ms (q_steady, later) steady h =
      Returns-bind _ _ (read-Returns topic.table_name q ms r q_steady steady h) λ c e h'.
        let used = read-Consumed topic.table_name q ms r c e in
        let rest = AreSteady-behind used.front c.2 (subst AreSteady used.split steady) in
        after_read-Returns (λ p' r' ms'. dump_loop pb raw topic turns p' r' ms') p c
          (λ p'. dump_loop-Returns turns p' c.1 c.2 later rest h') h'
