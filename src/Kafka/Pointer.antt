-- ===== src/Kafka/Pointer.antt =====
-- `fillOffset` and `Read` of binlogdump/CBinlogKafka.cpp on an object that may have no consumer: a call
-- through m_consumer is a fault where that is null.
use o2k.Prelude.{ℕ, ◌≡◌, refl, Bool, true, not, ◌&&◌, List, if◌then◌else◌, Bool-cases, inl, inr}
use o2k.Outcome.{Outcome, ok, fault, ◌>>=◌}
use o2k.Kafka.{Message, Answers, Reader, Call, fill_offset, read_loop, read, is_empty}

-- `fillOffset` calls `assignment` first, where there are no offsets.
unfoldable pub fill_offset_at : Bool → Answers → Reader → Outcome (Bool × Reader)
unfolding fill_offset
fill_offset_at consumer q r =
    if is_empty r.log_offset && not consumer then fault else ok (fill_offset q r)

-- The loop of `Read` calls `consume` first in each of its passes.
unfoldable pub read_loop_at :
    Bool → List (List ℕ) → List (Message × Answers) → Reader → Outcome Call
unfolding read_loop
read_loop_at consumer filter_keys ms r = if consumer then read_loop filter_keys ms r else fault

unfoldable pub read_at :
    Bool → List (List ℕ) → Answers → List (Message × Answers) → Reader → Outcome Call
unfolding fill_offset_at read_loop_at
read_at consumer filter_keys q ms r = do
  (_, r') ← fill_offset_at consumer q r
  read_loop_at consumer filter_keys ms r'

pub read_at-true :
    (filter_keys : List (List ℕ)) (q : Answers) (ms : List (Message × Answers)) (r : Reader)
    → read_at true filter_keys q ms r ≡ read filter_keys q ms r
unfolding read_at read fill_offset_at read_loop_at
read_at-true filter_keys q ms r = elim (Bool-cases (is_empty r.log_offset)) [
  | inl none_yet ↦ rw none_yet refl
  | inr some_yet ↦ rw some_yet refl
]
