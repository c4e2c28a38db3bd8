-- ===== src/Kafka/Matching.antt =====
-- That `Read` hands over the first message that passes the filter.
use o2k.Prelude.{◌≡◌, true, false, List, [], ◌∷◌, ◌++◌, All, some, ℕ}
use o2k.Outcome.{ok}
use o2k.Kafka.{
  no_error, Message, Answers, Reader, passes, fill_offset, delivered, on_message, pass, read_loop,
  read,
}

-- A message that passes the filter, and one whose key the filter does not let through.
abbrev pub Matches : List (List ℕ) → Message → Type 0
Matches filter_keys m =
    (m.err ≡ no_error) × (key : List ℕ) × (m.key ≡ some key) × (passes filter_keys key ≡ true)

abbrev pub Filtered : List (List ℕ) → Message → Type 0
Filtered filter_keys m =
    (m.err ≡ no_error) × (key : List ℕ) × (m.key ≡ some key) × (passes filter_keys key ≡ false)

module _ (filter_keys : List (List ℕ)) where
  read_loop-delivers :
      (before rest : List (Message × Answers)) (m : Message) (a : Answers) (r : Reader)
      → All (λ x. Filtered filter_keys x.0) before
      → Matches filter_keys m
      → (r' : Reader) × (read_loop filter_keys (before ++ ((m, a) ∷ rest)) r
          ≡ ok (delivered m.payload, r', rest))
  unfolding read_loop pass on_message
  read_loop-delivers [] rest m a r h (e, key, k, f) = ((fill_offset a r).1, rw (e, k, f))
  read_loop-delivers ((m', q) ∷ before) rest m a r ((e, key, k, f), h) found =
      rw (e, k, f) (read_loop-delivers before rest m a (fill_offset q r).1 h found)

  -- A message that passes the filter is handed over, if only messages that do not pass come before
  -- it.
  pub read-delivers :
      (q : Answers) (before rest : List (Message × Answers)) (m : Message) (a : Answers)
      (r : Reader)
      → All (λ x. Filtered filter_keys x.0) before
      → Matches filter_keys m
      → (r' : Reader) × (read filter_keys q (before ++ ((m, a) ∷ rest)) r
          ≡ ok (delivered m.payload, r', rest))
  unfolding read
  read-delivers q before rest m a r h found =
      read_loop-delivers before rest m a (fill_offset q r).1 h found
