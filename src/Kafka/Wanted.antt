-- ===== src/Kafka/Wanted.antt =====
-- Every message that `Read` consumes, and what it makes of it.
use o2k.Prelude.{
  ℕ, ◌≡◌, refl, ap, ◌∙◌, Bool, true, false, List, [], ◌∷◌, ◌++◌, append-nil, Option, none, some,
  arith, Bool-cases, inl, inr, if◌then◌else◌,
}
use o2k.Outcome.{ok, bind-eq-ok}
use o2k.Kafka.{
  ErrorCode, no_error, timed_out, Message, Answers, Reader, passes, fill_offset, End, delivered,
  returned, waiting, Call, Pass, stop, next, conclude, on_timeout, on_message, pass, settle,
  read_loop, read, read_over, is_no_error, is_empty,
}

abbrev pub key_passes : List (List ℕ) → Option (List ℕ) → Bool
key_passes filter_keys none = false
key_passes filter_keys (some key) = passes filter_keys key

-- The payload of a message that the filter lets through.
abbrev pub wants : List (List ℕ) → ErrorCode → Message → List (List ℕ)
wants filter_keys no_error m = if key_passes filter_keys m.key then m.payload ∷ [] else []
wants filter_keys _ m = []

-- The payloads of the messages that the filter lets through, in their order.
abbrev pub wanted : List (List ℕ) → List (Message × Answers) → List (List ℕ)
wanted filter_keys [] = []
wanted filter_keys ((m, q) ∷ ms) = wants filter_keys m.err m ++ wanted filter_keys ms

abbrev pub payload_of : End → List (List ℕ)
payload_of (delivered p) = p ∷ []
payload_of (returned c) = []
payload_of waiting = []

abbrev carried : Pass → List (List ℕ)
carried (stop e r) = payload_of e
carried (next r) = []

module _ (filter_keys : List (List ℕ)) where
  on_message-carried :
      (m : Message) (k : Option (List ℕ)) (r : Reader)
      → (if key_passes filter_keys k then m.payload ∷ [] else [])
        ≡ carried (on_message filter_keys k m.payload r)
  unfolding on_message
  on_message-carried m none r = refl
  on_message-carried m (some key) r = elim (Bool-cases (passes filter_keys key)) [
    | inl through ↦ rw through refl
    | inr held_back ↦ rw held_back refl
  ]

  conclude-carried : (r : Reader) (b : Bool) → [] ≡ carried (conclude r b)
  conclude-carried r true = refl
  conclude-carried r false = refl

  carried_of : (x y : Pass) → ok x ≡ ok y → [] ≡ carried x → [] ≡ carried y
  carried_of x y e h = h ∙ ap carried (ground arith)

  on_timeout-carried :
      (q : Answers) (r : Reader) (x : Pass) → on_timeout q r ≡ ok x → [] ≡ carried x
  unfolding on_timeout
  on_timeout-carried q r x e = elim (Bool-cases (is_empty r.log_offset)) [
    | inl none_yet ↦ carried_of _ x (rw none_yet at e) refl
    | inr filled ↦ elim (Bool-cases (is_no_error (q.position r.read_offset).0)) [
      | inr failed ↦ carried_of _ x (rw (filled, failed) at e) refl
      | inl good ↦
          let r' : Reader = record r { read_offset = (q.position r.read_offset).1 } in
          let (b, over, left) =
            bind-eq-ok (read_over r.log_offset (q.position r.read_offset).1)
              (λ b. ok (conclude r' b)) (rw (filled, good) at e) in
          carried_of _ x left (conclude-carried r' b)
    ]
  ]

  pass-carried :
      (c : ErrorCode) (m : Message) (q : Answers) (r : Reader) (x : Pass)
      → pass filter_keys c m q r ≡ ok x
      → wants filter_keys c m ≡ carried x
  unfolding pass
  pass-carried timed_out m q r x e = on_timeout-carried q r x e
  pass-carried no_error m q r x e =
      on_message-carried m m.key (fill_offset q r).1 ∙ ap carried (ground arith)
  pass-carried _ m q r x e = carried_of _ x e refl

  -- The messages that a call consumed of those at hand.
  pub record Consumed (ms : List (Message × Answers)) (c : Call) : Type 0 where
    pub front : List (Message × Answers)
    pub split : ms ≡ front ++ c.2
    pub payloads : wanted filter_keys front ≡ payload_of c.0

  settle-Consumed :
      (x : Pass) (m : Message) (q : Answers) (ms : List (Message × Answers)) (c : Call)
      → wants filter_keys m.err m ≡ carried x
      → settle ms (λ s. read_loop filter_keys ms s) x ≡ ok c
      → ((s : Reader) → read_loop filter_keys ms s ≡ ok c → Consumed ms c)
      → Consumed ((m, q) ∷ ms) c
  settle-Consumed (next s) m q ms c w e ih =
      let later = ih s e in
      record {
        front = (m, q) ∷ later.front;
        split = ap (λ t. (m, q) ∷ t) later.split;
        payloads = rw w later.payloads;
      }
  settle-Consumed (stop t s) m q ms (t', s', rest) w e ih =
      let here : (t ≡ t') × (ms ≡ rest) = ground arith in
      record {
        front = (m, q) ∷ [];
        split = ap (λ u. (m, q) ∷ u) here.1;
        payloads = append-nil (wants filter_keys m.err m) ∙ w ∙ ap payload_of here.0;
      }

  read_loop-Consumed :
      (ms : List (Message × Answers)) (r : Reader) (c : Call)
      → read_loop filter_keys ms r ≡ ok c
      → Consumed ms c
  unfolding read_loop
  read_loop-Consumed [] r (t, s, rest) e =
      let here : (waiting ≡ t) × ([] ≡ rest) = ground arith in
      record { front = []; split = here.1; payloads = ap payload_of here.0 }
  read_loop-Consumed ((m, q) ∷ ms) r c e =
      let (x, first, second) = bind-eq-ok (pass filter_keys m.err m q r) _ e in
      settle-Consumed x m q ms c (pass-carried m.err m q r x first) second
        (λ s. read_loop-Consumed ms s c)

  -- A call of `Read` consumes a front of the messages; of those in it that the filter lets through
  -- there is one, and it is handed over, when the call delivers, and none when it ends in any other
  -- way.
  pub read-Consumed :
      (q : Answers) (ms : List (Message × Answers)) (r : Reader) (c : Call)
      → read filter_keys q ms r ≡ ok c
      → Consumed ms c
  unfolding read
  read-Consumed q ms r c e = read_loop-Consumed ms (fill_offset q r).1 c e
