-- ===== src/Socket/Reading.antt =====
-- What `SocketRead` does with the stream, whatever the pieces in which `recv` returns it.
use o2k.Prelude.{
  ℕ, zero, suc, ◌+◌, ◌-◌, ◌≤◌, ◌<◌, ◌≡◌, ◌≢◌, refl, sym, ap, ◌∙◌, ◌⊎◌, inl, inr, ℤ, pos, negsuc,
  List, [], ◌∷◌, ◌++◌, length, length-append, append_assoc, ltb, ◌==◌, Bool-cases, ==_iff, ltb→lt,
  not_ltb→le, lt→ltb, le→not_ltb, arith,
}
use o2k.Outcome.{Outcome, ok, Returns, Returns-weaken}
use o2k.Os.{Os, RecvResult, got, recv_error, eintr, IsStream, IsHealthy}
use o2k.Socket.{ErrText, sys_error, Read, after_recv, socket_read_loop, socket_read}

-- The ways in which a `recv` ends.
data Received {World : Type 0} (p : RecvResult × World) : Type 0 where
  some_bytes : (b : ℕ) (bs : List ℕ) (w : World) → p ≡ (got (b ∷ bs), w) → Received p
  end_of_stream : (w : World) → p ≡ (got [], w) → Received p
  failed : (w : World) → p ≡ (recv_error, w) → Received p

received : {World : Type 0} (p : RecvResult × World) → Received p
received (got [], w) = end_of_stream w refl
received (got (b ∷ bs), w) = some_bytes b bs w refl
received (recv_error, w) = failed w refl

module _ {World : Type 0} (os : Os World) (fd : ℤ) (len : ℕ) (err : ErrText) where
  read_step :
      (fuel : ℕ) (done : List ℕ) (w w' : World) (r : RecvResult)
      → length done < len
      → os.recv fd (len - length done) w ≡ (r, w')
      → socket_read_loop os (suc fuel) fd len done err w
        ≡ after_recv os r w' done err (λ done'. socket_read_loop os fuel fd len done' err w')
  unfolding socket_read_loop
  read_step fuel done w w' r h e = rw (lt→ltb _ _ h, e)

  read_done :
      (fuel : ℕ) (done : List ℕ) (w : World)
      → len ≤ length done
      → socket_read_loop os (suc fuel) fd len done err w
        ≡ ok (record { code = pos (length done); bytes = done; err = err }, w)
  unfolding socket_read_loop
  read_done fuel done w h = rw (le→not_ltb _ _ h)

-- Why `SocketRead` gave up, with its return value and the error text: the peer closed the
-- connection, or a call failed that no signal had interrupted.
pub data Stopped {World : Type 0} (os : Os World) (fd : ℤ) (end : Read × World) : Type 0 where
  peer_closed :
      (n : ℕ) (w : World)
      → end.0.code ≡ pos 0
      → 0 < n
      → os.recv fd n w ≡ (got [], end.1)
      → Stopped os fd end
  call_failed :
      (n : ℕ) (w : World)
      → end.0.code ≡ negsuc 0
      → os.recv fd n w ≡ (recv_error, end.1)
      → os.errno end.1 ≢ eintr
      → end.0.err ≡ sys_error (os.errno end.1)
      → Stopped os fd end

-- What a call has done when it returns: `total` is what the buffer held and the stream was to give.
pub record ReadPost {World : Type 0} {os : Os World} (stream : IsStream os) (fd : ℤ) (len : ℕ)
    (total : List ℕ) (w : World) (end : Read × World) : Type 0 where
  pub in_order : total ≡ end.0.bytes ++ stream.inbox end.1 fd
  pub outbox_kept : stream.outbox end.1 fd ≡ stream.outbox w fd
  pub signals_kept : stream.signals end.1 ≤ stream.signals w
  pub code_cases :
      ((end.0.code ≡ pos len) × (length end.0.bytes ≡ len))
      ⊎ (Stopped os fd end × (length end.0.bytes < len))

module _ {World : Type 0} {os : Os World} (stream : IsStream os) (fd : ℤ) (len : ℕ) where
  ReadPost-earlier :
      {total total' : List ℕ} {w w' : World} (end : Read × World)
      → total ≡ total'
      → stream.outbox w' fd ≡ stream.outbox w fd
      → stream.signals w' ≤ stream.signals w
      → ReadPost stream fd len total' w' end
      → ReadPost stream fd len total w end
  ReadPost-earlier end e out sig p = record {
    in_order = e ∙ p.in_order;
    outbox_kept = p.outbox_kept ∙ out;
    signals_kept = omega (arith, p.signals_kept);
    code_cases = p.code_cases;
  }

module _ {World : Type 0} (os : Os World) (stream : IsStream os) (fd : ℤ) (len : ℕ)
    (err : ErrText) where
  after_recv_post :
      (done : List ℕ) (w w' : World) (r : RecvResult) (more : List ℕ → Outcome (Read × World))
      → length done < len
      → os.recv fd (len - length done) w ≡ (r, w')
      → ((done' : List ℕ)
          → length done' ≤ len
          → (len - length done') + stream.signals w' < (len - length done) + stream.signals w
          → Returns (ReadPost stream fd len (done' ++ stream.inbox w' fd) w') (more done'))
      → Returns
          (ReadPost stream fd len (done ++ stream.inbox w fd) w)
          (after_recv os r w' done err more)
  unfolding after_recv
  after_recv_post done w w' (got []) more h e k =
      let (_, same, out, sig) = stream.recv_got fd (len - length done) w w' [] e in
      record {
        value = (record { code = pos 0; bytes = done; err = err }, w');
        ends = refl;
        holds = record {
          in_order = rw same refl;
          outbox_kept = out;
          signals_kept = sig;
          code_cases = inr (peer_closed (len - length done) w refl (omega arith) e, h);
        };
      }
  after_recv_post done w w' (got (b ∷ bs)) more h e k =
      let (fits, same, out, sig) = stream.recv_got fd (len - length done) w w' (b ∷ bs) e in
      let grown : length (done ++ (b ∷ bs)) ≡ length done + length (b ∷ bs) =
        length-append done (b ∷ bs) in
      Returns-weaken (k (done ++ (b ∷ bs)) (omega arith) (omega arith)) λ end.
        ReadPost-earlier stream fd len end
          (rw same (sym (append_assoc done (b ∷ bs) (stream.inbox w' fd)))) out sig
  after_recv_post done w w' recv_error more h e k =
      let (same, out, sig, fewer) = stream.recv_failed fd (len - length done) w w' e in
      elim (Bool-cases (os.errno w' == eintr)) [
        | inl again ↦
            rw (again, after_recv)
              (Returns-weaken (k done (omega arith) (omega (arith, fewer ((==_iff _ _).0 again))))
                λ end. ReadPost-earlier stream fd len end (rw same refl) out sig)
        | inr stop ↦
            rw (stop, after_recv)
              (record {
                value =
                    (record { code = negsuc 0; bytes = done; err = sys_error (os.errno w') }, w');
                ends = refl;
                holds = record {
                  in_order = rw same refl;
                  outbox_kept = out;
                  signals_kept = sig;
                  code_cases = inr (
                    call_failed (len - length done) w refl e (λ q. cc (stop, (==_iff _ _).1 q))
                        refl,
                    h,
                  );
                };
              })
      ]

  socket_read_loop_post :
      (fuel : ℕ) (done : List ℕ) (w : World)
      → length done ≤ len
      → (len - length done) + stream.signals w < fuel
      → Returns
          (ReadPost stream fd len (done ++ stream.inbox w fd) w)
          (socket_read_loop os fuel fd len done err w)
  socket_read_loop_post zero done w h enough = absurd (omega arith)
  socket_read_loop_post (suc fuel) done w h enough = elim (Bool-cases (ltb (length done) len)) [
    | inl less ↦
        let (r, w') = os.recv fd (len - length done) w in
        rw (read_step os fd len err fuel done w w' r (ltb→lt _ _ less) refl) (
          after_recv_post done w w' r _ (ltb→lt _ _ less) refl
            λ done' h' down. socket_read_loop_post fuel done' w' h' (omega arith))
    | inr full ↦ rw (read_done os fd len err fuel done w (not_ltb→le _ _ full)) (record {
      value = (record { code = pos (length done); bytes = done; err = err }, w);
      ends = refl;
      holds = record {
        in_order = refl;
        outbox_kept = refl;
        signals_kept = omega arith;
        code_cases =
            inl (ap pos (omega (arith, not_ltb→le _ _ full)), omega (arith, not_ltb→le _ _ full));
      };
    })
  ]

module _ {World : Type 0} (os : Os World) (stream : IsStream os) where
  -- With fuel above the number of bytes asked for and of signals that are to come, `SocketRead`
  -- returns. Its buffer then holds the front of the stream, in order, and the rest is still to be
  -- read, whatever the pieces in which `recv` gave it. It returns the length asked for, with as many
  -- bytes, or it stopped with fewer, because the peer closed the connection (0) or a call failed
  -- that no signal had interrupted (-1, with the text of its errno).
  pub socket_read-Returns :
      (fuel : ℕ) (fd : ℤ) (len : ℕ) (err : ErrText) (w : World)
      → len + stream.signals w < fuel
      → Returns
          (ReadPost stream fd len (stream.inbox w fd) w)
          (socket_read os fuel fd (pos len) err w)
  unfolding socket_read
  socket_read-Returns fuel fd len err w enough =
      socket_read_loop_post os stream fd len err fuel [] w (omega arith) (omega arith)

-- What `SocketRead` has done on a connection that stands.
pub record ReadAll {World : Type 0} {os : Os World} (stream : IsStream os) (fd : ℤ) (len : ℕ)
    (w : World) (end : Read × World) : Type 0 where
  pub code : end.0.code ≡ pos len
  pub count : length end.0.bytes ≡ len
  pub in_order : stream.inbox w fd ≡ end.0.bytes ++ stream.inbox end.1 fd
  pub signals_kept : stream.signals end.1 ≤ stream.signals w
  pub outbox_kept : stream.outbox end.1 fd ≡ stream.outbox w fd

module _ {World : Type 0} (os : Os World) (stream : IsStream os)
    (healthy : IsHealthy os stream) where
  not_Stopped :
      (fd : ℤ) (len : ℕ) (w : World) (end : Read × World)
      → len ≤ length (stream.inbox w fd)
      → stream.inbox w fd ≡ end.0.bytes ++ stream.inbox end.1 fd
      → length end.0.bytes < len
      → Stopped os fd end
      → ⊥
  not_Stopped fd len w end h order short (call_failed n v c e ne t) =
      ne (healthy.recv_interrupted fd n v end.1 e)
  not_Stopped fd len w end h order short (peer_closed n v c pos_n e) =
      let drained : stream.inbox v fd ≡ [] = healthy.recv_ended fd n v end.1 e pos_n in
      let (_, same, _, _) = stream.recv_got fd n v end.1 [] e in
      let total : length (stream.inbox w fd) ≡ length end.0.bytes + length (stream.inbox end.1 fd) =
        ap length order ∙ length-append end.0.bytes (stream.inbox end.1 fd) in
      let nothing : length (stream.inbox end.1 fd) ≡ 0 = ap length (sym same ∙ drained) in
      omega arith

  -- On a connection that stands, with as many bytes to come as are asked for, `SocketRead` returns
  -- that number and exactly the first bytes of the stream, despite interruptions.
  pub socket_read_complete :
      (fuel : ℕ) (fd : ℤ) (len : ℕ) (err : ErrText) (w : World)
      → len + stream.signals w < fuel
      → len ≤ length (stream.inbox w fd)
      → Returns (ReadAll stream fd len w) (socket_read os fuel fd (pos len) err w)
  socket_read_complete fuel fd len err w enough h =
      Returns-weaken (socket_read-Returns os stream fuel fd len err w enough) λ end p.
        elim p.code_cases [
          | inl (c, n) ↦ record {
            code = c;
            count = n;
            in_order = p.in_order;
            signals_kept = p.signals_kept;
            outbox_kept = p.outbox_kept;
          }
          | inr (s, short) ↦ absurd (not_Stopped fd len w end h p.in_order short s)
        ]
