-- ===== src/Keeping/Sockets.antt =====
-- Reading and writing a socket.
use o2k.Prelude.{
  ℕ, zero, suc, ◌+◌, ◌-◌, ℤ, pos, is_neg, ◌==◌, ltb, pos_part, to_word, htonl, List, [], ◌∷◌, ◌++◌,
  length, take, drop, Bool-cases, inl, inr,
}
use o2k.Outcome.{Outcome, Ensures, Ensures-bind, Ensures-if}
use o2k.Os.{Os, RecvResult, got, recv_error, SendResult, sent, send_error, eintr}
use o2k.Socket.{
  ErrText, Read, Write, after_recv, socket_read_loop, socket_read, after_send, socket_write_loop,
  socket_write, send_packet,
}
use o2k.Keeping.{IsKept}

module _ {World : Type 0} (os : Os World) (I : World → Type 0) (kept : IsKept os I) where
  after_recv-Kept :
      (r : RecvResult) (w : World) (done : List ℕ) (err : ErrText)
      (more : List ℕ → Outcome (Read × World))
      → I w
      → ((done' : List ℕ) → Ensures (λ end. I end.1) (more done'))
      → Ensures (λ end. I end.1) (after_recv os r w done err more)
  unfolding after_recv
  after_recv-Kept recv_error w done err more h k = elim (Bool-cases (os.errno w == eintr)) [
    | inl again ↦ rw (again, Ensures) (k done)
    | inr failed ↦ rw (failed, Ensures) h
  ]
  after_recv-Kept (got []) w done err more h k = h
  after_recv-Kept (got (b ∷ bs)) w done err more h k = k (done ++ (b ∷ bs))

  socket_read_loop-Kept :
      (fuel : ℕ) (fd : ℤ) (len : ℕ) (done : List ℕ) (err : ErrText) (w : World)
      → I w
      → Ensures (λ end. I end.1) (socket_read_loop os fuel fd len done err w)
  unfolding socket_read_loop
  socket_read_loop-Kept zero fd len done err w h = tt
  socket_read_loop-Kept (suc fuel) fd len done err w h =
      let h' = kept.recv_keeps fd (len - length done) w h in
      Ensures-if (λ end. I end.1) (ltb (length done) len) _ _
        (after_recv-Kept _ _ done err _ h'
          λ done'. socket_read_loop-Kept fuel fd len done' err _ h')
        h

  pub socket_read-Kept :
      (fuel : ℕ) (fd len : ℤ) (err : ErrText) (w : World)
      → I w
      → Ensures (λ end. I end.1) (socket_read os fuel fd len err w)
  unfolding socket_read
  socket_read-Kept fuel fd len err w h = socket_read_loop-Kept fuel fd (pos_part len) [] err w h

  after_send-Kept :
      (r : SendResult) (w : World) (n : ℕ) (more : ℕ → Outcome (Write × World))
      → I w
      → ((n' : ℕ) → Ensures (λ end. I end.1) (more n'))
      → Ensures (λ end. I end.1) (after_send os r w n more)
  unfolding after_send
  after_send-Kept send_error w n more h k = elim (Bool-cases (os.errno w == eintr)) [
    | inl again ↦ rw (again, Ensures) (k n)
    | inr failed ↦ rw (failed, Ensures) h
  ]
  after_send-Kept (sent zero) w n more h k = elim (Bool-cases (os.errno w == eintr)) [
    | inl again ↦ rw (again, Ensures) (k n)
    | inr failed ↦ rw (failed, Ensures) h
  ]
  after_send-Kept (sent (suc j)) w n more h k = k (n + suc j)

  socket_write_loop-Kept :
      (fuel : ℕ) (fd : ℤ) (p : List ℕ) (len n : ℕ) (err : ErrText) (w : World)
      → I w
      → Ensures (λ end. I end.1) (socket_write_loop os fuel fd p len n err w)
  unfolding socket_write_loop
  socket_write_loop-Kept zero fd p len n err w h = tt
  socket_write_loop-Kept (suc fuel) fd p len n err w h =
      let h' = kept.send_keeps fd (take (len - n) (drop n p)) w h in
      Ensures-if (λ end. I end.1) (ltb n len) _ _
        (after_send-Kept _ _ n _ h' λ n'. socket_write_loop-Kept fuel fd p len n' err _ h') h

  socket_write-Kept :
      (fuel : ℕ) (fd : ℤ) (p : List ℕ) (len : ℤ) (err : ErrText) (w : World)
      → I w
      → Ensures (λ end. I end.1) (socket_write os fuel fd p len err w)
  unfolding socket_write
  socket_write-Kept fuel fd p len err w h =
      socket_write_loop-Kept fuel fd p (pos_part len) 0 err w h

  pub send_packet-Kept :
      (fuel : ℕ) (fd : ℤ) (p : List ℕ) (len : ℤ) (err : ErrText) (w : World)
      → I w
      → Ensures (λ end. I end.1) (send_packet os fuel fd p len err w)
  unfolding send_packet
  send_packet-Kept fuel fd p len err w h =
      Ensures-bind (λ end. I end.1) (λ end. I end.1) _ _
        (socket_write-Kept fuel fd (htonl (to_word len)) (pos 4) err w h)
        λ x h'.
          Ensures-if (λ end. I end.1) (is_neg x.0.code) _ _ h'
            (socket_write-Kept fuel fd p len x.0.err x.1 h')
