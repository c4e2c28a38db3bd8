-- ===== src/Kafka/Offsets.antt =====
-- When `Read` says that all is read, and that its index into the offsets stays inside the vector.
use o2k.Prelude.{
  ℕ, ◌≡◌, refl, ap, sym, ◌∙◌, ◌⊎◌, inl, inr, ltℤ, Bool, true, false, List, [], ◌∷◌, Option, none,
  some, arith, Bool-cases, subst,
}
use o2k.Outcome.{ok, Ensures, bind-eq-ok, ◌>>=◌}
use o2k.Kafka.Ends.{marked, IsAnswered, Asked, EndsFrom, CallEnds, read-Ends}
use o2k.Kafka.{
  ErrorCode, no_error, timed_out, TopicPartition, Message, Answers, Reader, fill_offset,
  offset_invalid, read_over, returned, Pass, stop, next, conclude, on_timeout, on_message, pass,
  settle, read_loop, read, is_no_error, is_empty,
}

-- Every partition is read up to its offset in m_logOffset, or has no valid read offset.
abbrev pub AllRead : List TopicPartition → List TopicPartition → Type 0
AllRead [] reads = Unit
AllRead (log ∷ logs) [] = ⊥
AllRead (log ∷ logs) (read ∷ reads) =
    ((ltℤ offset_invalid read.offset ≡ false) ⊎ (ltℤ read.offset log.offset ≡ false))
    × AllRead logs reads

-- There are partitions, and all are read.
abbrev IsReadUp : Reader → Type 0
IsReadUp r = (is_empty r.log_offset ≡ false) × AllRead r.log_offset r.read_offset

read_over→AllRead :
    (logs reads : List TopicPartition) → read_over logs reads ≡ ok true → AllRead logs reads
unfolding read_over
read_over→AllRead [] reads e = tt
read_over→AllRead (log ∷ logs) [] e = cc
read_over→AllRead (log ∷ logs) (read ∷ reads) e =
    elim (Bool-cases (ltℤ offset_invalid read.offset)) [
      | inl valid ↦ elim (Bool-cases (ltℤ read.offset log.offset)) [
        | inl behind ↦ cc (rw (valid, behind) at e)
        | inr there ↦ (inr there, read_over→AllRead logs reads (rw (valid, there) at e))
      ]
      | inr none_read ↦ (inl none_read, read_over→AllRead logs reads (rw none_read at e))
    ]

conclude-stop :
    (r r' : Reader) (b : Bool)
    → ok (conclude r b) ≡ ok (stop (returned timed_out) r')
    → (b ≡ true) × (r ≡ r')
conclude-stop r r' true e = (refl, cc)
conclude-stop r r' false e = cc

over-AllRead :
    (log reads : List TopicPartition) (r r' : Reader)
    → (read_over log reads >>= λ over. ok (conclude r over)) ≡ ok (stop (returned timed_out) r')
    → r.log_offset ≡ log
    → r.read_offset ≡ reads
    → is_empty log ≡ false
    → IsReadUp r'
over-AllRead log reads r r' e same_log same_read some_yet =
    let (b, done, left) = bind-eq-ok (read_over log reads) (λ over. ok (conclude r over)) e in
    let (is_true, same) = conclude-stop r r' b left in
    subst IsReadUp same
      (rw (same_log, same_read) (some_yet, read_over→AllRead log reads (rw is_true at done)))

on_timeout-AllRead :
    (q : Answers) (r r' : Reader) → on_timeout q r ≡ ok (stop (returned timed_out) r') → IsReadUp r'
unfolding on_timeout
on_timeout-AllRead q r r' e = elim (Bool-cases (is_empty r.log_offset)) [
  | inl none_yet ↦ cc (rw none_yet at e)
  | inr some_yet ↦ elim (Bool-cases (is_no_error (q.position r.read_offset).0)) [
    | inr failed ↦ cc (rw (some_yet, failed) at e)
    | inl good ↦
        over-AllRead r.log_offset (q.position r.read_offset).1
          (record r { read_offset = (q.position r.read_offset).1 }) r' (rw (some_yet, good) at e)
          refl refl some_yet
  ]
]

module _ (filter_keys : List (List ℕ)) where
  on_message-timed_out :
      (k : Option (List ℕ)) (payload : List ℕ) (r r' : Reader)
      → on_message filter_keys k payload r ≡ stop (returned timed_out) r'
      → ⊥
  unfolding on_message
  on_message-timed_out none payload r r' e = cc
  on_message-timed_out (some key) payload r r' e = ground arith

  pass-AllRead :
      (c : ErrorCode) (m : Message) (q : Answers) (r r' : Reader)
      → pass filter_keys c m q r ≡ ok (stop (returned timed_out) r')
      → IsReadUp r'
  unfolding pass
  pass-AllRead timed_out m q r r' e = on_timeout-AllRead q r r' e
  pass-AllRead no_error m q r r' e =
      absurd (on_message-timed_out m.key m.payload (fill_offset q r).1 r' (ground arith))
  pass-AllRead _ m q r r' e = cc

  settle-AllRead :
      (x : Pass) (m : Message) (q : Answers) (ms rest : List (Message × Answers)) (r r' : Reader)
      → pass filter_keys m.err m q r ≡ ok x
      → settle ms (λ s. read_loop filter_keys ms s) x ≡ ok (returned timed_out, r', rest)
      → ((s : Reader)
          → read_loop filter_keys ms s ≡ ok (returned timed_out, r', rest)
          → IsReadUp r')
      → IsReadUp r'
  settle-AllRead (next s) m q ms rest r r' e f ih = ih s f
  settle-AllRead (stop t s) m q ms rest r r' e f ih =
      let here : (t ≡ returned timed_out) × (s ≡ r') = ground arith in
      pass-AllRead m.err m q r r'
        (e ∙ ap (λ u. ok (stop u s)) here.0 ∙ ap (λ u. ok (stop (returned timed_out) u)) here.1)

  read_loop-AllRead :
      (ms rest : List (Message × Answers)) (r r' : Reader)
      → read_loop filter_keys ms r ≡ ok (returned timed_out, r', rest)
      → IsReadUp r'
  unfolding read_loop
  read_loop-AllRead [] rest r r' e = cc
  read_loop-AllRead ((m, q) ∷ ms) rest r r' e =
      let (x, first, second) = bind-eq-ok (pass filter_keys m.err m q r) _ e in
      settle-AllRead x m q ms rest r r' first second (λ s. read_loop-AllRead ms rest s r')

  read-IsReadUp :
      (q : Answers) (ms rest : List (Message × Answers)) (r r' : Reader)
      → read filter_keys q ms r ≡ ok (returned timed_out, r', rest)
      → IsReadUp r'
  unfolding read
  read-IsReadUp q ms rest r r' e = read_loop-AllRead ms rest (fill_offset q r).1 r' e

  -- The end of the log of each partition: as a call of `fillOffset` before this `Read` has left them, or,
  -- where there were none yet, the high offsets that the watermark queries of one in this `Read`
  -- answered.
  abbrev pub Ended : Answers → List (Message × Answers) → Reader → Reader → Type 0
  Ended q ms r r' =
      ((is_empty r.log_offset ≡ false) × (r'.log_offset ≡ r.log_offset))
      ⊎ ((a : Answers) × Asked a q ms × (r.log_offset ≡ []) × (r'.log_offset ≡ marked a))

  -- Where the watermark queries are answered, and `assignment` leaves no partitions where it fails: when
  -- `Read` returns ERR__TIMED_OUT, there are partitions, and at each index the position is not below
  -- the end of the log of the partition, or it is no valid offset. The ends are those that an earlier
  -- `Read` has left, or, where there were none, the high offsets that librdkafka answered in this one.
  pub read-AllRead :
      (q : Answers) (ms rest : List (Message × Answers)) (r r' : Reader)
      → ((a : Answers) → Asked a q ms → IsAnswered a)
      → read filter_keys q ms r ≡ ok (returned timed_out, r', rest)
      → (is_empty r'.log_offset ≡ false) × AllRead r'.log_offset r'.read_offset × Ended q ms r r'
  read-AllRead q ms rest r r' answered e =
      let (some_yet, all_read) = read-IsReadUp q ms rest r r' e in
      let from : EndsFrom (λ a. Asked a q ms) r.log_offset r'.log_offset =
        subst (Ensures (CallEnds (λ a. Asked a q ms) r)) e
          (read-Ends (λ a. Asked a q ms) filter_keys q ms r λ a i. (i, answered a i)) in
      (
        some_yet,
        all_read,
        elim from [
          | inl same ↦ inl (ap is_empty (sym same) ∙ some_yet, same)
          | inr found ↦ inr found
        ],
      )
