-- ===== src/Dump/Order.antt =====
-- What the loop of `main` prints, and in which order.
use o2k.Prelude.{
  ℕ, ◌≡◌, refl, sym, ap, ◌∙◌, Bool, true, false, List, [], ◌∷◌, ◌++◌, append_assoc, arith,
  Bool-cases, inl, inr,
}
use o2k.Outcome.{Outcome, ok, bind-eq-ok}
use o2k.Kafka.{timed_out, Message, Answers, Reader, returned, delivered, waiting, Call, read}
use o2k.Kafka.Wanted.{wants, wanted, payload_of, Consumed, read-Consumed}
use o2k.Arguments.{TopicInfo}
use o2k.Dump.{Formats, Printer, print_sql, Dumped, after_read, dump_loop}
use o2k.Dump.Counts.{print_all}

wanted-append :
    (keys : List (List ℕ)) (xs ys : List (Message × Answers))
    → wanted keys (xs ++ ys) ≡ wanted keys xs ++ wanted keys ys
wanted-append keys [] ys = refl
wanted-append keys ((m, q) ∷ xs) ys =
    rw (wanted-append keys xs ys)
      (sym (append_assoc (wants keys m.err m) (wanted keys xs) (wanted keys ys)))

module _ (pb : Formats) (raw : Bool) (topic : TopicInfo) where
  print_all-append :
      (xs ys : List (List ℕ)) (p : Printer)
      → print_all pb raw (xs ++ ys) p ≡ print_all pb raw ys (print_all pb raw xs p)
  print_all-append [] ys p = refl
  print_all-append (x ∷ xs) ys p = print_all-append xs ys (print_sql pb raw x p).1

  -- The messages that the loop consumed, and that it printed of them all that the filter lets
  -- through.
  pub record Printed (p : Printer) (ms : List (Message × Answers)) (d : Dumped) : Type 0 where
    pub front : List (Message × Answers)
    pub split : ms ≡ front ++ d.left
    pub printed : d.printer ≡ print_all pb raw (wanted topic.table_name front) p

  Printed-stop :
      (p : Printer) (ms : List (Message × Answers)) (d : Dumped)
      → d.left ≡ ms
      → d.printer ≡ p
      → Printed p ms d
  Printed-stop p ms d e f = record { front = []; split = sym e; printed = f }

  -- A call of `Read` that consumed `c`, and what followed it.
  Printed-after :
      (p : Printer) (ms : List (Message × Answers)) (c : Call) (d : Dumped)
      → Consumed topic.table_name ms c
      → Printed (print_all pb raw (payload_of c.0) p) c.2 d
      → Printed p ms d
  Printed-after p ms c d read later = record {
    front = read.front ++ later.front;
    split =
        read.split
        ∙ ap (λ t. read.front ++ t) later.split
        ∙ sym (append_assoc read.front later.front d.left);
    printed =
        later.printed
        ∙ sym (
            ap (λ bufs. print_all pb raw bufs p)
              (wanted-append topic.table_name read.front later.front)
            ∙ print_all-append (wanted topic.table_name read.front) _ p
            ∙ ap
                (λ bufs.
                  print_all pb raw (wanted topic.table_name later.front) (print_all pb raw bufs p))
                read.payloads);
  }

  after_read-Printed :
      (go : Printer → Reader → List (Message × Answers) → Outcome Dumped) (p : Printer)
      (ms : List (Message × Answers)) (c : Call) (d : Dumped)
      → ((p' : Printer) (r : Reader) (ms' : List (Message × Answers))
          → go p' r ms' ≡ ok d
          → Printed p' ms' d)
      → Consumed topic.table_name ms c
      → after_read go pb raw topic.wait_mode p c ≡ ok d
      → Printed p ms d
  after_read-Printed go p ms (delivered buf, r, rest) d ih used e =
      Printed-after p ms (delivered buf, r, rest) d used (ih (print_sql pb raw buf p).1 r rest e)
  after_read-Printed go p ms (waiting, r, rest) d ih used e =
      Printed-after p ms (waiting, r, rest) d used
        (Printed-stop p rest d (ground arith) (ground arith))
  after_read-Printed go p ms (returned timed_out, r, rest) d ih used e =
      Printed-after p ms (returned timed_out, r, rest) d used
        (elim (Bool-cases topic.wait_mode) [
          | inl wait ↦ ih p r rest (rw wait at e)
          | inr no_wait ↦
              Printed-stop p rest d (let e' = rw no_wait at e in ground arith)
                (let e' = rw no_wait at e in ground arith)
        ])
  after_read-Printed go p ms (returned c, r, rest) d ih used e =
      Printed-after p ms (returned c, r, rest) d used
        (Printed-stop p rest d (ground arith) (ground arith))

  -- However the loop of `main` ends, what it has counted and printed is what `PrintSql` makes of the
  -- messages that it consumed and that the filter lets through, of each once and in their order.
  pub dump_loop-Printed :
      (turns : List (Bool × Answers)) (p : Printer) (r : Reader) (ms : List (Message × Answers))
      (d : Dumped)
      → dump_loop pb raw topic turns p r ms ≡ ok d
      → Printed p ms d
  unfolding dump_loop
  dump_loop-Printed [] p r ms d e = Printed-stop p ms d (ground arith) (ground arith)
  dump_loop-Printed ((true, q) ∷ turns) p r ms d e =
      Printed-stop p ms d (ground arith) (ground arith)
  dump_loop-Printed ((false, q) ∷ turns) p r ms d e =
      let (c, first, second) = bind-eq-ok (read topic.table_name q ms r) _ e in
      after_read-Printed _ p ms c d (λ p' r' ms'. dump_loop-Printed turns p' r' ms' d)
        (read-Consumed topic.table_name q ms r c first) second
