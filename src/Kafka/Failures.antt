-- ===== src/Kafka/Failures.antt =====
-- What a failing call of librdkafka leaves behind.
use o2k.Prelude.{◌≡◌, refl, true, false, List, ◌∷◌}
use o2k.Kafka.{
  no_error, TopicPartition, Answers, Reader, mark_all, fill_offset, is_no_error, is_empty,
}

-- Where the watermark query fails for the first partition, `fillOffset` returns -1 but leaves
-- m_logOffset with the offsets of the assignment; each later call then returns 0 and changes
-- nothing, so the ends of the partitions are never asked for again.
pub fill_offset-unmarked :
    (q later : Answers) (r : Reader) (tp : TopicPartition) (tps : List TopicPartition)
    → is_empty r.log_offset ≡ true
    → is_no_error q.assignment_read.0 ≡ true
    → q.assignment_log ≡ (no_error, tp ∷ tps)
    → is_no_error (q.watermark tp).0 ≡ false
    → ((fill_offset q r).0 ≡ false)
      × ((fill_offset q r).1.log_offset ≡ tp ∷ tps)
      × (fill_offset later (fill_offset q r).1 ≡ (true, (fill_offset q r).1))
unfolding fill_offset mark_all
fill_offset-unmarked q later r tp tps none_yet good assigned failed =
    rw (none_yet, good, assigned, failed) (refl, refl, refl)
