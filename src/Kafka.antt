-- ===== src/Kafka.antt =====
-- The class `CBinlogKafkaReader` of binlogdump/CBinlogKafka.h and binlogdump/CBinlogKafka.cpp. What
-- librdkafka answers is an argument: the messages that `consume` returns, in order, each with what
-- the other calls answer after it.
pub mod Ends
pub mod Pointer
pub mod Offsets
pub mod Matching
pub mod Bounds
pub mod Wanted
pub mod Failures
use o2k.Prelude.{
  ℕ, ℤ, pos, negsuc, ltℤ, Bool, true, false, not, ◌&&◌, ◌||◌, List, [], ◌∷◌, if◌then◌else◌, Option,
  none, some, bytes_eq,
}
use o2k.Outcome.{Outcome, ok, fault, ◌>>=◌}

-- RdKafka::ErrorCode, as far as the program tells its values apart.
pub data ErrorCode : Type 0 where
  no_error timed_out partition_eof unknown_topic unknown_partition fail : ErrorCode
  other : ℤ → ErrorCode

pub record TopicPartition : Type 0 where
  pub topic : List ℕ
  pub partition : ℤ
  pub offset : ℤ

pub record Message : Type 0 where
  pub err : ErrorCode
  pub key : Option (List ℕ)
  pub payload : List ℕ

-- The answers of `assignment` (for m_readOffSet, then for m_logOffset), of
-- `query_watermark_offsets` (with the high offset) and of `position`, each with the vector that the
-- call leaves.
pub record Answers : Type 0 where
  pub assignment_read : ErrorCode × List TopicPartition
  pub assignment_log : ErrorCode × List TopicPartition
  pub watermark : TopicPartition → ErrorCode × ℤ
  pub position : List TopicPartition → ErrorCode × List TopicPartition

-- m_logOffset and m_readOffSet
pub record Reader : Type 0 where
  pub log_offset : List TopicPartition
  pub read_offset : List TopicPartition

abbrev pub is_no_error : ErrorCode → Bool
is_no_error no_error = true
is_no_error _ = false

abbrev pub is_empty {ℓ} : {A : Type ℓ} → List A → Bool
is_empty [] = true
is_empty (x ∷ xs) = false

-- The loop over `m_logOffset`; a partition whose query fails ends it, and those behind keep their
-- offsets.
unfoldable pub mark_all :
    (TopicPartition → ErrorCode × ℤ) → List TopicPartition → Bool × List TopicPartition
mark_all watermark [] = (true, [])
mark_all watermark (tp ∷ tps) =
    let (done, rest) = mark_all watermark tps in
    let (e, high) = watermark tp in
    if is_no_error e then (done, record tp { offset = high } ∷ rest) else (false, tp ∷ tps)

-- `fillOffset`: whether it returned 0, and the offsets.
unfoldable pub fill_offset : Answers → Reader → Bool × Reader
unfolding mark_all
fill_offset q r =
    let (e, read) = q.assignment_read in
    let (e', log) = q.assignment_log in
    let (done, log') = mark_all q.watermark log in
    if not (is_empty r.log_offset)
    then (true, r)
    else if not (is_no_error e)
    then (false, record r { read_offset = read })
    else if not (is_no_error e')
    then (false, record r { read_offset = read; log_offset = log })
    else (done, record { read_offset = read; log_offset = log' })

-- OFFSET_INVALID
abbrev pub offset_invalid : ℤ
offset_invalid = negsuc 1000

-- The loop "check read over": whether it leaves `readEnd` at 1. An index of m_logOffset that
-- m_readOffSet does not have is a fault.
unfoldable pub read_over : List TopicPartition → List TopicPartition → Outcome Bool
read_over [] reads = ok true
read_over (log ∷ logs) [] = fault
read_over (log ∷ logs) (read ∷ reads) =
    let rest = read_over logs reads in
    if not (ltℤ offset_invalid read.offset)
    then rest
    else if ltℤ read.offset log.offset
    then ok false
    else rest

-- The filter on the key: an empty filter lets every key through.
unfoldable pub has_key : List (List ℕ) → List ℕ → Bool
has_key [] key = false
has_key (f ∷ fs) key = bytes_eq f key || has_key fs key

unfoldable pub passes : List (List ℕ) → List ℕ → Bool
unfolding has_key
passes filter_keys key = is_empty filter_keys || has_key filter_keys key

-- How `Read` ends: with a code and, for ERR_NO_ERROR, the message's bytes; or it is still waiting
-- when the messages at hand are used up.
pub data End : Type 0 where
  returned : ErrorCode → End
  delivered : List ℕ → End
  waiting : End

-- The end of a call, the offsets that it leaves, and the messages that it has not consumed.
abbrev pub Call : Type 0
Call = End × Reader × List (Message × Answers)

-- What one pass of the loop does with its message: it ends the call, or the next pass begins with the
-- offsets given.
pub data Pass : Type 0 where
  stop : End → Reader → Pass
  next : Reader → Pass

-- What follows the loop "check read over".
abbrev pub conclude : Reader → Bool → Pass
conclude r true = stop (returned timed_out) r
conclude r false = next r

-- The case ERR__TIMED_OUT.
unfoldable pub on_timeout : Answers → Reader → Outcome Pass
unfolding fill_offset read_over
on_timeout q r =
    let (e, reads) = q.position r.read_offset in
    let r' = record r { read_offset = reads } in
    if is_empty r.log_offset
    then ok (next (fill_offset q r).1)
    else if not (is_no_error e)
    then ok (stop (returned fail) r')
    else (read_over r.log_offset reads >>= λ over. ok (conclude r' over))

-- The case ERR_NO_ERROR.
unfoldable pub on_message : List (List ℕ) → Option (List ℕ) → List ℕ → Reader → Pass
unfolding passes
on_message filter_keys none payload r = stop (returned fail) r
on_message filter_keys (some key) payload r =
    if passes filter_keys key then stop (delivered payload) r else next r

unfoldable pub pass : List (List ℕ) → ErrorCode → Message → Answers → Reader → Outcome Pass
unfolding on_timeout on_message
pass filter_keys timed_out m q r = on_timeout q r
pass filter_keys no_error m q r = ok (on_message filter_keys m.key m.payload (fill_offset q r).1)
pass filter_keys partition_eof m q r = ok (stop (returned partition_eof) r)
pass filter_keys unknown_topic m q r = ok (stop (returned unknown_partition) r)
pass filter_keys unknown_partition m q r = ok (stop (returned unknown_partition) r)
pass filter_keys _ m q r = ok (stop (returned fail) r)

-- The end of the loop, or its next pass.
abbrev pub settle : List (Message × Answers) → (Reader → Outcome Call) → Pass → Outcome Call
settle ms go (stop e r) = ok (e, r, ms)
settle ms go (next r) = go r

unfoldable pub read_loop : List (List ℕ) → List (Message × Answers) → Reader → Outcome Call
unfolding pass
read_loop filter_keys [] r = ok (waiting, r, [])
read_loop filter_keys ((m, q) ∷ ms) r =
    pass filter_keys m.err m q r >>= settle ms (λ r'. read_loop filter_keys ms r')

-- `Read`, with the answers to the `fillOffset` at its beginning.
unfoldable pub read : List (List ℕ) → Answers → List (Message × Answers) → Reader → Outcome Call
unfolding read_loop fill_offset
read filter_keys q ms r = read_loop filter_keys ms (fill_offset q r).1
