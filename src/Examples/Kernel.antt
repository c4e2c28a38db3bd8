-- ===== src/Examples/Kernel.antt =====
-- An operating system for the examples: one stream in each direction, cut into pieces by a script.
use o2k.Prelude.{
  ℕ, zero, suc, ◌+◌, ◌≤◌, ◌<◌, ◌≡◌, refl, pos, true, List, [], ◌∷◌, ◌++◌, length, length-take, take,
  drop, take-append-drop, take_all, some, min, arith,
}
use o2k.Os.{
  Os, RecvResult, got, recv_error, SendResult, sent, send_error, eintr, IsStream, IsHealthy,
}

-- Each piece serves one call: 0 interrupts it, another number bounds the bytes that it moves. When
-- the script is over, a call moves all it can.
pub record Net : Type 0 where
  pub inbox : List ℕ
  pub outbox : List ℕ
  pub pieces : List ℕ
  pub error : ℕ

unfoldable pub recv_by : List ℕ → ℕ → Net → RecvResult × Net
recv_by [] n w = (got (take n w.inbox), record w { inbox = drop n w.inbox; error = 0 })
recv_by (zero ∷ ps) n w = (recv_error, record w { pieces = ps; error = eintr })
recv_by (suc k ∷ ps) n w =
    let m = min (suc k) n in
    (got (take m w.inbox), record w { inbox = drop m w.inbox; pieces = ps; error = 0 })

unfoldable pub send_by : List ℕ → List ℕ → Net → SendResult × Net
send_by [] bs w = (sent (length bs), record w { outbox = w.outbox ++ bs; error = 0 })
send_by (zero ∷ ps) bs w = (send_error, record w { pieces = ps; error = eintr })
send_by (suc k ∷ ps) bs w =
    let m = min (suc k) (length bs) in
    (sent m, record w { outbox = w.outbox ++ take m bs; pieces = ps; error = 0 })

abbrev pub net_os : Os Net
net_os = record {
  recv = λ _ n w. recv_by w.pieces n w;
  send = λ _ bs w. send_by w.pieces bs w;
  errno = λ w. w.error;
  shutdown = λ _ w. w;
  close = λ _ w. w;
  inet_addr = λ _. some 0;
  socket = λ w. (pos 3, w);
  connect = λ _ _ _ w. (true, w);
  set_timeout = λ _ _ _ w. (pos 0, w);
  junk = λ _ i. i + 200;
}

pub recv_by-got :
    (ps : List ℕ) (n : ℕ) (w w' : Net) (bs : List ℕ)
    → w.pieces ≡ ps
    → recv_by ps n w ≡ (got bs, w')
    → (length bs ≤ n)
      × (w.inbox ≡ bs ++ w'.inbox)
      × (w'.outbox ≡ w.outbox)
      × (length w'.pieces ≤ length w.pieces)
unfolding recv_by
recv_by-got [] n w w' bs p e = ground (arith, length-take n w.inbox, take-append-drop n w.inbox)
recv_by-got (zero ∷ ps) n w w' bs p e = ground arith
recv_by-got (suc k ∷ ps) n w w' bs p e =
    ground (arith, length-take (min (suc k) n) w.inbox, take-append-drop (min (suc k) n) w.inbox)

pub recv_by-failed :
    (ps : List ℕ) (n : ℕ) (w w' : Net)
    → w.pieces ≡ ps
    → recv_by ps n w ≡ (recv_error, w')
    → (w'.inbox ≡ w.inbox)
      × (w'.outbox ≡ w.outbox)
      × (length w'.pieces < length w.pieces)
      × (w'.error ≡ eintr)
unfolding recv_by
recv_by-failed [] n w w' p e = ground arith
recv_by-failed (zero ∷ ps) n w w' p e = ground arith
recv_by-failed (suc k ∷ ps) n w w' p e = ground arith

take_nothing : (n : ℕ) (xs : List ℕ) → 0 < n → take n xs ≡ [] → xs ≡ []
take_nothing zero xs h e = absurd (omega arith)
take_nothing (suc n) [] h e = refl
take_nothing (suc n) (x ∷ xs) h e = cc

pub recv_by-ended :
    (ps : List ℕ) (n : ℕ) (w w' : Net) → recv_by ps n w ≡ (got [], w') → 0 < n → w.inbox ≡ []
unfolding recv_by
recv_by-ended [] n w w' e h = ground (arith, take_nothing n w.inbox)
recv_by-ended (zero ∷ ps) n w w' e h = ground arith
recv_by-ended (suc k ∷ ps) n w w' e h = ground (arith, take_nothing (min (suc k) n) w.inbox)

pub send_by-sent :
    (ps bs : List ℕ) (w w' : Net) (k : ℕ)
    → w.pieces ≡ ps
    → send_by ps bs w ≡ (sent k, w')
    → (k ≤ length bs)
      × (w'.outbox ≡ w.outbox ++ take k bs)
      × (w'.inbox ≡ w.inbox)
      × (length w'.pieces ≤ length w.pieces)
      × (0 < length bs → k ≡ 0 → w'.error ≡ eintr → length w'.pieces < length w.pieces)
unfolding send_by
send_by-sent [] bs w w' k p e = (
  ground arith,
  ground (arith, take_all (length bs) bs (omega arith)),
  ground arith,
  ground arith,
  λ more none_sent interrupted. ground arith,
)
send_by-sent (zero ∷ ps) bs w w' k p e = (
  ground arith,
  ground arith,
  ground arith,
  ground arith,
  λ more none_sent interrupted. ground arith,
)
send_by-sent (suc j ∷ ps) bs w w' k p e = (
  ground arith,
  ground arith,
  ground arith,
  ground arith,
  λ more none_sent interrupted. ground arith,
)

pub send_by-failed :
    (ps bs : List ℕ) (w w' : Net)
    → w.pieces ≡ ps
    → send_by ps bs w ≡ (send_error, w')
    → (w'.outbox ≡ w.outbox)
      × (w'.inbox ≡ w.inbox)
      × (length w'.pieces < length w.pieces)
      × (w'.error ≡ eintr)
unfolding send_by
send_by-failed [] bs w w' p e = ground arith
send_by-failed (zero ∷ ps) bs w w' p e = ground arith
send_by-failed (suc k ∷ ps) bs w w' p e = ground arith

pub send_by-some :
    (ps bs : List ℕ) (w w' : Net)
    → send_by ps bs w ≡ (sent 0, w')
    → 0 < length bs
    → w'.error ≡ eintr
unfolding send_by
send_by-some [] bs w w' e h = ground arith
send_by-some (zero ∷ ps) bs w w' e h = ground arith
send_by-some (suc k ∷ ps) bs w w' e h = ground arith

pub le_of_lt : {m n : ℕ} → m < n → m ≤ n
le_of_lt h = omega arith

abbrev pub net_stream : IsStream net_os
net_stream = record {
  inbox = λ w _. w.inbox;
  outbox = λ w _. w.outbox;
  signals = λ w. length w.pieces;
  recv_got = λ _ n w w' bs e. recv_by-got w.pieces n w w' bs refl e;
  recv_failed = λ _ n w w' e.
      let (a, b, c, _) = recv_by-failed w.pieces n w w' refl e in (a, b, le_of_lt c, λ _. c);
  send_sent = λ _ bs w w' k e. send_by-sent w.pieces bs w w' k refl e;
  send_failed = λ _ bs w w' e.
      let (a, b, c, _) = send_by-failed w.pieces bs w w' refl e in (a, b, le_of_lt c, λ _. c);
}

abbrev pub net_healthy : IsHealthy net_os net_stream
net_healthy = record {
  recv_interrupted = λ _ n w w' e. (recv_by-failed w.pieces n w w' refl e).3;
  recv_ended = λ _ n w w' e h. recv_by-ended w.pieces n w w' e h;
  send_interrupted = λ _ bs w w' e. (send_by-failed w.pieces bs w w' refl e).3;
  send_some = λ _ bs w w' e h. send_by-some w.pieces bs w w' e h;
}
