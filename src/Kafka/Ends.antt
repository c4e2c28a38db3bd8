-- ===== src/Kafka/Ends.antt =====
-- Where m_logOffset comes from: the answers of librdkafka to the calls of `fillOffset` in a call of `Read`.
use o2k.Prelude.{
  ℕ, ◌≡◌, refl, ap, sym, ◌∙◌, ◌⊎◌, inl, inr, Bool, true, false, not, List, [], ◌∷◌, map, Option,
  none, some, Bool-cases,
}
use o2k.Outcome.{Outcome, Ensures, Ensures-if, Ensures-bind, Ensures-weaken}
use o2k.Keeping.Messages.{Ensures-any}
use o2k.Kafka.{
  ErrorCode, no_error, timed_out, TopicPartition, Message, Answers, Reader, mark_all, fill_offset,
  read_over, Pass, stop, next, conclude, on_timeout, on_message, pass, passes, settle, Call,
  read_loop, read, is_no_error, is_empty,
}

abbrev mark : Answers → TopicPartition → TopicPartition
mark q tp = record tp { offset = (q.watermark tp).1 }

-- The partitions of the assignment, each with the high offset that its watermark query answered.
abbrev pub marked : Answers → List TopicPartition
marked q = map (mark q) q.assignment_log.1

-- The watermark queries are answered, and a call of `assignment` that fails leaves no partitions.
abbrev pub IsAnswered : Answers → Type 0
IsAnswered q =
    ((tp : TopicPartition) → is_no_error (q.watermark tp).0 ≡ true)
    × (is_no_error q.assignment_log.0 ≡ false → q.assignment_log.1 ≡ [])

-- The answers that librdkafka has for a call of `Read`: those at its beginning, and those that come
-- with the messages.
abbrev pub Asked : Answers → Answers → List (Message × Answers) → Type 0
Asked a q [] = a ≡ q
Asked a q ((m, q') ∷ ms) = (a ≡ q) ⊎ Asked a q' ms

pub Asked-first : (q : Answers) (ms : List (Message × Answers)) → Asked q q ms
Asked-first q [] = refl
Asked-first q (x ∷ ms) = inl refl

-- The offsets are as they were, or there were none and they are the marks of some answers.
abbrev pub EndsFrom : (Answers → Type 0) → List TopicPartition → List TopicPartition → Type 0
EndsFrom P log log' = (log' ≡ log) ⊎ ((a : Answers) × P a × (log ≡ []) × (log' ≡ marked a))

mark_all-marked :
    (q : Answers) (tps : List TopicPartition)
    → ((tp : TopicPartition) → is_no_error (q.watermark tp).0 ≡ true)
    → (mark_all q.watermark tps).1 ≡ map (mark q) tps
unfolding mark_all
mark_all-marked q [] good = refl
mark_all-marked q (tp ∷ tps) good =
    rw (good tp) (ap (λ rest. mark q tp ∷ rest) (mark_all-marked q tps good))

empty_lem : (tps : List TopicPartition) → is_empty tps ≡ true → tps ≡ []
empty_lem [] e = refl
empty_lem (tp ∷ tps) e = cc

module _ (P : Answers → Type 0) where
  EndsFrom-trans : (a b c : List TopicPartition) → EndsFrom P a b → EndsFrom P b c → EndsFrom P a c
  EndsFrom-trans a b c (inl same) (inl same') = inl (same' ∙ same)
  EndsFrom-trans a b c (inl same) (inr (q, p, none_yet, e)) = inr (q, p, cc, e)
  EndsFrom-trans a b c (inr (q, p, none_yet, e)) (inl same) = inr (q, p, none_yet, same ∙ e)
  EndsFrom-trans a b c (inr (q, p, none_yet, e)) (inr (q', p', none_yet', e')) =
      inr (q', p', none_yet, e')

  fill_offset-Ends :
      (q : Answers) (r : Reader)
      → P q
      → IsAnswered q
      → EndsFrom P r.log_offset ((fill_offset q r).1).log_offset
  unfolding fill_offset
  fill_offset-Ends q r p (good, nothing) = elim (Bool-cases (is_empty r.log_offset)) [
    | inr some_yet ↦ rw some_yet (inl refl)
    | inl none_yet ↦
        let first : r.log_offset ≡ [] = empty_lem r.log_offset none_yet in
        elim (Bool-cases (is_no_error q.assignment_read.0)) [
          | inr failed ↦ rw (none_yet, failed) (inl refl)
          | inl well ↦ elim (Bool-cases (is_no_error q.assignment_log.0)) [
            | inr failed ↦ rw (none_yet, well, failed) (inl (nothing failed ∙ sym first))
            | inl well' ↦
                rw (none_yet, well, well')
                  (inr (q, p, first, mark_all-marked q q.assignment_log.1 good))
          ]
        ]
  ]

  -- The offsets behind a pass.
  abbrev reader_of : Pass → Reader
  reader_of (stop e r) = r
  reader_of (next r) = r

  abbrev PassEnds : Reader → Pass → Type 0
  PassEnds r x = EndsFrom P r.log_offset (reader_of x).log_offset

  conclude-Ends :
      (r r' : Reader) (over : Bool) → r'.log_offset ≡ r.log_offset → PassEnds r (conclude r' over)
  conclude-Ends r r' true e = inl e
  conclude-Ends r r' false e = inl e

  on_timeout-Ends :
      (q : Answers) (r : Reader) → P q → IsAnswered q → Ensures (PassEnds r) (on_timeout q r)
  unfolding on_timeout
  on_timeout-Ends q r p good =
      Ensures-if (PassEnds r) (is_empty r.log_offset) _ _ (fill_offset-Ends q r p good) (
        Ensures-if (PassEnds r) (not (is_no_error (q.position r.read_offset).0)) _ _ (inl refl) (
          Ensures-any (PassEnds r) (read_over r.log_offset (q.position r.read_offset).1) _
            λ over. conclude-Ends r _ over refl))

  on_message-Ends :
      (filter_keys : List (List ℕ)) (k : Option (List ℕ)) (payload : List ℕ) (r : Reader)
      → (reader_of (on_message filter_keys k payload r)).log_offset ≡ r.log_offset
  unfolding on_message
  on_message-Ends filter_keys none payload r = refl
  on_message-Ends filter_keys (some key) payload r = elim (Bool-cases (passes filter_keys key)) [
    | inl found ↦ rw found refl
    | inr wrong ↦ rw wrong refl
  ]

  pass-Ends :
      (filter_keys : List (List ℕ)) (c : ErrorCode) (m : Message) (q : Answers) (r : Reader)
      → P q
      → IsAnswered q
      → Ensures (PassEnds r) (pass filter_keys c m q r)
  unfolding pass
  pass-Ends filter_keys timed_out m q r p good = on_timeout-Ends q r p good
  pass-Ends filter_keys no_error m q r p good =
      EndsFrom-trans r.log_offset (fill_offset q r).1.log_offset _ (fill_offset-Ends q r p good)
        (inl (on_message-Ends filter_keys m.key m.payload (fill_offset q r).1))
  pass-Ends filter_keys _ m q r p good = inl refl

  -- The offsets behind a call.
  abbrev pub CallEnds : Reader → Call → Type 0
  CallEnds r end = EndsFrom P r.log_offset (end.1).log_offset

  settle-Ends :
      (ms : List (Message × Answers)) (go : Reader → Outcome Call) (r : Reader) (x : Pass)
      → PassEnds r x
      → ((s : Reader) → Ensures (CallEnds s) (go s))
      → Ensures (CallEnds r) (settle ms go x)
  settle-Ends ms go r (stop e s) h k = h
  settle-Ends ms go r (next s) h k =
      Ensures-weaken (CallEnds s) (CallEnds r) (go s) (k s)
        λ end h'. EndsFrom-trans r.log_offset s.log_offset (end.1).log_offset h h'

  read_loop-Ends :
      (filter_keys : List (List ℕ)) (q : Answers) (ms : List (Message × Answers)) (r : Reader)
      → ((a : Answers) → Asked a q ms → P a × IsAnswered a)
      → Ensures (CallEnds r) (read_loop filter_keys ms r)
  unfolding read_loop
  read_loop-Ends filter_keys q [] r asked = inl refl
  read_loop-Ends filter_keys q ((m, q') ∷ ms) r asked =
      let (p, good) = asked q' (inr (Asked-first q' ms)) in
      Ensures-bind (PassEnds r) (CallEnds r) (pass filter_keys m.err m q' r) _
        (pass-Ends filter_keys m.err m q' r p good)
        λ x h. settle-Ends ms _ r x h λ s. read_loop-Ends filter_keys q' ms s λ a i. asked a (inr i)

  pub read-Ends :
      (filter_keys : List (List ℕ)) (q : Answers) (ms : List (Message × Answers)) (r : Reader)
      → ((a : Answers) → Asked a q ms → P a × IsAnswered a)
      → Ensures (CallEnds r) (read filter_keys q ms r)
  unfolding read
  read-Ends filter_keys q ms r asked =
      let (p, good) = asked q (Asked-first q ms) in
      let s = (fill_offset q r).1 in
      Ensures-weaken (CallEnds s) (CallEnds r) (read_loop filter_keys ms s)
        (read_loop-Ends filter_keys q ms s asked)
        λ end h.
          EndsFrom-trans r.log_offset s.log_offset (end.1).log_offset (fill_offset-Ends q r p good)
            h
