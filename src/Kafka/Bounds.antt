-- ===== src/Kafka/Bounds.antt =====
-- That the index of `Read` into the offsets stays inside the vector.
use o2k.Prelude.{
  ℕ, suc, ◌≤◌, ◌≡◌, refl, ap, ℤ, ltℤ, Bool, true, false, List, [], ◌∷◌, All, length, Option, none,
  some, arith, Bool-cases, inl, inr,
}
use o2k.Outcome.{ok, Returns, Returns-bind}
use o2k.Kafka.{
  ErrorCode, no_error, timed_out, fail, TopicPartition, Message, Answers, Reader, mark_all,
  fill_offset, offset_invalid, read_over, returned, waiting, Call, Pass, stop, next, conclude,
  on_timeout, on_message, pass, passes, settle, read_loop, read, is_no_error, is_empty,
}

-- The two calls of `assignment` answer with as many partitions, and `position` keeps them.
pub record IsSteady (q : Answers) : Type 0 where
  pub assigned : length q.assignment_log.1 ≡ length q.assignment_read.1
  pub kept : (tps : List TopicPartition) → length (q.position tps).1 ≡ length tps

-- Every index of m_logOffset is one of m_readOffSet.
abbrev pub IsAligned : Reader → Type 0
IsAligned r = length r.log_offset ≤ length r.read_offset

length-mark_all :
    (watermark : TopicPartition → ErrorCode × ℤ) (tps : List TopicPartition)
    → length (mark_all watermark tps).1 ≡ length tps
unfolding mark_all
length-mark_all watermark [] = refl
length-mark_all watermark (tp ∷ tps) =
    let ih = length-mark_all watermark tps in
    elim (Bool-cases (is_no_error (watermark tp).0)) [
      | inl good ↦ rw good (ap suc ih)
      | inr failed ↦ rw failed refl
    ]

is_empty-length : (tps : List TopicPartition) (n : ℕ) → is_empty tps ≡ true → length tps ≤ n
is_empty-length [] n e = omega arith
is_empty-length (tp ∷ tps) n e = cc

-- `fillOffset` keeps the two vectors aligned, on its error paths too.
pub fill_offset-IsAligned :
    (q : Answers) (r : Reader) → IsSteady q → IsAligned r → IsAligned (fill_offset q r).1
unfolding fill_offset
fill_offset-IsAligned q r steady h =
    let same = steady.assigned in
    let marked = length-mark_all q.watermark q.assignment_log.1 in
    elim (Bool-cases (is_empty r.log_offset)) [
      | inr filled ↦ rw filled h
      | inl none_yet ↦ elim (Bool-cases (is_no_error q.assignment_read.0)) [
        | inr failed ↦ rw (none_yet, failed) (is_empty-length r.log_offset _ none_yet)
        | inl good ↦ elim (Bool-cases (is_no_error q.assignment_log.0)) [
          | inr failed ↦ rw (none_yet, good, failed) (omega arith)
          | inl good' ↦ rw (none_yet, good, good') (omega arith)
        ]
      ]
    ]

pub read_over_total :
    (logs reads : List TopicPartition)
    → length logs ≤ length reads
    → (b : Bool) × (read_over logs reads ≡ ok b)
unfolding read_over
read_over_total [] reads h = (true, refl)
read_over_total (log ∷ logs) [] h = absurd (omega arith)
read_over_total (log ∷ logs) (tp ∷ reads) h =
    let (b, e) = read_over_total logs reads (omega arith) in
    elim (Bool-cases (ltℤ offset_invalid tp.offset)) [
      | inr none_read ↦ (b, rw none_read e)
      | inl valid ↦ elim (Bool-cases (ltℤ tp.offset log.offset)) [
        | inl behind ↦ (false, rw (valid, behind) refl)
        | inr there ↦ (b, rw (valid, there) e)
      ]
    ]

-- The offsets that a pass leaves.
abbrev after : Pass → Reader
after (stop e r) = r
after (next r) = r

after-conclude : (r : Reader) (b : Bool) → after (conclude r b) ≡ r
after-conclude r true = refl
after-conclude r false = refl

on_timeout-Returns :
    (q : Answers) (r : Reader)
    → IsSteady q
    → IsAligned r
    → Returns (λ x. IsAligned (after x)) (on_timeout q r)
unfolding on_timeout
on_timeout-Returns q r steady h = elim (Bool-cases (is_empty r.log_offset)) [
  | inl none_yet ↦ record {
    value = next (fill_offset q r).1;
    ends = rw none_yet refl;
    holds = fill_offset-IsAligned q r steady h;
  }
  | inr filled ↦
      let same = steady.kept r.read_offset in
      let r' : Reader = record r { read_offset = (q.position r.read_offset).1 } in
      let h' : IsAligned r' = omega arith in
      elim (Bool-cases (is_no_error (q.position r.read_offset).0)) [
        | inr failed ↦ record {
          value = stop (returned fail) r';
          ends = rw (filled, failed) refl;
          holds = h';
        }
        | inl good ↦
            let (b, e) = read_over_total r.log_offset (q.position r.read_offset).1 h' in
            record {
              value = conclude r' b;
              ends = rw (filled, good, e) refl;
              holds = rw (after-conclude r' b) h';
            }
      ]
]

module _ (filter_keys : List (List ℕ)) where
  on_message-IsAligned :
      (k : Option (List ℕ)) (payload : List ℕ) (r : Reader)
      → IsAligned r
      → IsAligned (after (on_message filter_keys k payload r))
  unfolding on_message
  on_message-IsAligned none payload r h = h
  on_message-IsAligned (some key) payload r h = elim (Bool-cases (passes filter_keys key)) [
    | inl through ↦ rw through h
    | inr held_back ↦ rw held_back h
  ]

  pass-Returns :
      (c : ErrorCode) (m : Message) (q : Answers) (r : Reader)
      → IsSteady q
      → IsAligned r
      → Returns (λ x. IsAligned (after x)) (pass filter_keys c m q r)
  unfolding pass
  pass-Returns timed_out m q r steady h = on_timeout-Returns q r steady h
  pass-Returns no_error m q r steady h = record {
    value = on_message filter_keys m.key m.payload (fill_offset q r).1;
    ends = refl;
    holds =
        on_message-IsAligned m.key m.payload (fill_offset q r).1
          (fill_offset-IsAligned q r steady h);
  }
  pass-Returns _ m q r steady h = record { value = _; ends = refl; holds = h }

  settle-Returns :
      (x : Pass) (ms : List (Message × Answers))
      → IsAligned (after x)
      → ((s : Reader)
          → IsAligned s
          → Returns (λ (c : Call). IsAligned c.1) (read_loop filter_keys ms s))
      → Returns (λ (c : Call). IsAligned c.1) (settle ms (λ s. read_loop filter_keys ms s) x)
  settle-Returns (stop e r) ms h ih = record { value = (e, r, ms); ends = refl; holds = h }
  settle-Returns (next r) ms h ih = ih r h

  read_loop-Returns :
      (ms : List (Message × Answers)) (r : Reader)
      → All (λ x. IsSteady x.1) ms
      → IsAligned r
      → Returns (λ (c : Call). IsAligned c.1) (read_loop filter_keys ms r)
  unfolding read_loop
  read_loop-Returns [] r steady h = record { value = (waiting, r, []); ends = refl; holds = h }
  read_loop-Returns ((m, q) ∷ ms) r (steady, later) h =
      Returns-bind _ _ (pass-Returns m.err m q r steady h)
        λ x e h'. settle-Returns x ms h' (λ s. read_loop-Returns ms s later)

  -- As long as librdkafka answers both calls of `assignment` with as many partitions and `position`
  -- keeps them, `Read` never indexes m_readOffSet out of range, on any branch, and leaves the two
  -- vectors so that the next call does not either.
  pub read-Returns :
      (q : Answers) (ms : List (Message × Answers)) (r : Reader)
      → IsSteady q
      → All (λ x. IsSteady x.1) ms
      → IsAligned r
      → Returns (λ (c : Call). IsAligned c.1) (read filter_keys q ms r)
  unfolding read
  read-Returns q ms r steady later h =
      read_loop-Returns ms (fill_offset q r).1 later (fill_offset-IsAligned q r steady h)
