-- ===== src/Socket/Writing.antt =====
-- What `SocketWrite` puts on the stream, whatever the pieces that `send` takes.
use o2k.Prelude.{
  ℕ, zero, suc, ◌+◌, ◌-◌, ◌≤◌, ◌<◌, ◌≡◌, ◌≢◌, refl, sym, ap, ◌∙◌, ◌⊎◌, inl, inr, ℤ, pos, negsuc,
  true, false, List, ◌++◌, length, take, drop, take-take, take_then, take_all, append_assoc,
  append-nil, ltb, ◌==◌, Bool-cases, ==_iff, ltb→lt, not_ltb→le, lt→ltb, le→not_ltb, length-take,
  length-drop, arith,
}
use o2k.Outcome.{Outcome, ok, Returns, Returns-weaken}
use o2k.Os.{Os, SendResult, sent, send_error, eintr, IsStream, IsHealthy}
use o2k.Socket.{ErrText, sys_error, Write, after_send, socket_write_loop, socket_write}

-- The call that made `SocketWrite` give up: `send` took nothing, and no signal had interrupted it.
pub data Refused {World : Type 0} (os : Os World) (fd : ℤ) (p : List ℕ) (end : Write × World)
    : Type 0 where
  send_failed :
      (n : ℕ) (bs : List ℕ) (w : World)
      → n < length p
      → 0 < length bs
      → (os.send fd bs w ≡ (send_error, end.1)) ⊎ (os.send fd bs w ≡ (sent 0, end.1))
      → os.errno end.1 ≢ eintr
      → Refused os fd p end

-- `SocketWrite` has put the first `count` bytes of `p` on the stream, behind `base`.
pub record WritePost {World : Type 0} {os : Os World} (stream : IsStream os) (fd : ℤ) (p : List ℕ)
    (base : List ℕ) (w : World) (end : Write × World) : Type 0 where
  pub count : ℕ
  pub in_order : stream.outbox end.1 fd ≡ base ++ take count p
  pub inbox_kept : stream.inbox end.1 fd ≡ stream.inbox w fd
  pub signals_kept : stream.signals end.1 ≤ stream.signals w
  pub code_cases :
      ((end.0.code ≡ pos (length p)) × (count ≡ length p))
      ⊎ ((end.0.code ≡ negsuc 0)
          × (end.0.err ≡ sys_error (os.errno end.1))
          × (count < length p)
          × Refused os fd p end)

module _ {World : Type 0} {os : Os World} (stream : IsStream os) (fd : ℤ) (p : List ℕ) where
  WritePost-earlier :
      {base : List ℕ} {w w' : World} (end : Write × World)
      → stream.inbox w' fd ≡ stream.inbox w fd
      → stream.signals w' ≤ stream.signals w
      → WritePost stream fd p base w' end
      → WritePost stream fd p base w end
  WritePost-earlier end inb sig q = record {
    count = q.count;
    in_order = q.in_order;
    inbox_kept = q.inbox_kept ∙ inb;
    signals_kept = omega (arith, q.signals_kept);
    code_cases = q.code_cases;
  }

module _ {World : Type 0} (os : Os World) (fd : ℤ) (p : List ℕ) (err : ErrText) where
  write_step :
      (fuel n : ℕ) (w w' : World) (r : SendResult)
      → n < length p
      → os.send fd (take (length p - n) (drop n p)) w ≡ (r, w')
      → socket_write_loop os (suc fuel) fd p (length p) n err w
        ≡ after_send os r w' n (λ n'. socket_write_loop os fuel fd p (length p) n' err w')
  unfolding socket_write_loop
  write_step fuel n w w' r h e = rw (lt→ltb _ _ h, e)

  write_done :
      (fuel n : ℕ) (w : World)
      → length p ≤ n
      → socket_write_loop os (suc fuel) fd p (length p) n err w
        ≡ ok (record { code = pos n; err = err }, w)
  unfolding socket_write_loop
  write_done fuel n w h = rw (le→not_ltb _ _ h)

module _ {World : Type 0} (os : Os World) (stream : IsStream os) (fd : ℤ) (p : List ℕ)
    (base : List ℕ) where
  -- After a `send` that took nothing.
  nothing_sent :
      (n : ℕ) (w w' : World) (more : Outcome (Write × World)) (r : SendResult)
      → n < length p
      → (r ≡ send_error) ⊎ (r ≡ sent 0)
      → os.send fd (take (length p - n) (drop n p)) w ≡ (r, w')
      → stream.outbox w fd ≡ base ++ take n p
      → (stream.outbox w' fd ≡ stream.outbox w fd)
        × (stream.inbox w' fd ≡ stream.inbox w fd)
        × (stream.signals w' ≤ stream.signals w)
      → os.errno w' ≢ eintr
      → WritePost stream fd p base w (record { code = negsuc 0; err = sys_error (os.errno w') }, w')
  nothing_sent n w w' more r h how e at (out, inb, sig) ne = record {
    count = n;
    in_order = out ∙ at;
    inbox_kept = inb;
    signals_kept = sig;
    code_cases = inr (
      refl,
      refl,
      h,
      send_failed n _ w h (rw (length-take, length-drop) (omega arith)) (called how) ne,
    );
  }
    where
      called :
          (r ≡ send_error) ⊎ (r ≡ sent 0)
          → (os.send fd (take (length p - n) (drop n p)) w ≡ (send_error, w'))
            ⊎ (os.send fd (take (length p - n) (drop n p)) w ≡ (sent 0, w'))
      called (inl q) = inl (rw (← q) e)
      called (inr q) = inr (rw (← q) e)

  -- The pass of the loop where `send` took nothing, `again` being its next pass.
  after_nothing :
      (n : ℕ) (w w' : World) (more : Outcome (Write × World)) (r : SendResult)
      → n < length p
      → (r ≡ send_error) ⊎ (r ≡ sent 0)
      → os.send fd (take (length p - n) (drop n p)) w ≡ (r, w')
      → stream.outbox w fd ≡ base ++ take n p
      → (stream.outbox w' fd ≡ stream.outbox w fd)
        × (stream.inbox w' fd ≡ stream.inbox w fd)
        × (stream.signals w' ≤ stream.signals w)
      → (os.errno w' ≡ eintr → Returns (WritePost stream fd p base w') more)
      → Returns (WritePost stream fd p base w) (elim (os.errno w' == eintr) [
        | true ↦ more
        | false ↦ ok (record { code = negsuc 0; err = sys_error (os.errno w') }, w')
      ])
  after_nothing n w w' more r h how e at same again = elim (Bool-cases (os.errno w' == eintr)) [
    | inl yes' ↦ rw yes' (
        Returns-weaken (again ((==_iff _ _).0 yes'))
          λ end. WritePost-earlier stream fd p end same.1 same.2)
    | inr no' ↦ rw no' (record {
      value = (record { code = negsuc 0; err = sys_error (os.errno w') }, w');
      ends = refl;
      holds = nothing_sent n w w' more r h how e at same (λ q. cc (no', (==_iff _ _).1 q));
    })
  ]

  after_send_post :
      (n : ℕ) (w w' : World) (r : SendResult) (more : ℕ → Outcome (Write × World))
      → n < length p
      → os.send fd (take (length p - n) (drop n p)) w ≡ (r, w')
      → stream.outbox w fd ≡ base ++ take n p
      → ((n' : ℕ)
          → n' ≤ length p
          → stream.outbox w' fd ≡ base ++ take n' p
          → (length p - n') + stream.signals w' < (length p - n) + stream.signals w
          → Returns (WritePost stream fd p base w') (more n'))
      → Returns (WritePost stream fd p base w) (after_send os r w' n more)
  unfolding after_send
  after_send_post n w w' send_error more h e at k =
      let (out, inb, sig, fewer) = stream.send_failed fd _ w w' e in
      after_nothing n w w' (more n) send_error h (inl refl) e at (out, inb, sig)
        λ q. k n (omega arith) (out ∙ at) (omega (arith, fewer q))
  after_send_post n w w' (sent zero) more h e at k =
      let (_, out, inb, sig, fewer) = stream.send_sent fd _ w w' 0 e in
      let out' : stream.outbox w' fd ≡ stream.outbox w fd = out ∙ append-nil _ in
      after_nothing n w w' (more n) (sent 0) h (inr refl) e at (out', inb, sig)
        λ q.
          k n (omega arith) (out' ∙ at)
            (omega (arith, fewer (rw (length-take, length-drop) (omega arith)) refl q))
  after_send_post n w w' (sent (suc m)) more h e at k =
      let (fits, out, inb, sig, fewer) = stream.send_sent fd _ w w' (suc m) e in
      let room : suc m ≤ length p - n =
        omega (arith, fits, length-take (length p - n) (drop n p)) in
      Returns-weaken
        (k (n + suc m) (omega arith)
          (out
            ∙ rw (at, take-take (suc m) (length p - n) (drop n p) room)
                (append_assoc base (take n p) _
                  ∙ ap (λ t. base ++ t) (take_then n (suc m) (n + suc m) p refl)))
          (omega arith))
        λ end. WritePost-earlier stream fd p end inb sig

  socket_write_loop_post :
      (err : ErrText) (fuel n : ℕ) (w : World)
      → n ≤ length p
      → stream.outbox w fd ≡ base ++ take n p
      → (length p - n) + stream.signals w < fuel
      → Returns (WritePost stream fd p base w) (socket_write_loop os fuel fd p (length p) n err w)
  socket_write_loop_post err zero n w h at enough = absurd (omega arith)
  socket_write_loop_post err (suc fuel) n w h at enough = elim (Bool-cases (ltb n (length p))) [
    | inl less ↦
        let (r, w') = os.send fd (take (length p - n) (drop n p)) w in
        rw (write_step os fd p err fuel n w w' r (ltb→lt _ _ less) refl) (
          after_send_post n w w' r _ (ltb→lt _ _ less) refl at
            λ n' h' at' down. socket_write_loop_post err fuel n' w' h' at' (omega arith))
    | inr full ↦
        let all : n ≡ length p = omega (arith, not_ltb→le _ _ full) in
        rw (write_done os fd p err fuel n w (not_ltb→le _ _ full)) (record {
          value = (record { code = pos n; err = err }, w);
          ends = refl;
          holds = record {
            count = n;
            in_order = at;
            inbox_kept = refl;
            signals_kept = omega arith;
            code_cases = inl (ap pos all, all);
          };
        })
  ]

module _ {World : Type 0} (os : Os World) (stream : IsStream os) where
  -- With fuel above the length of the buffer and the number of signals that are to come,
  -- `SocketWrite` of a whole buffer returns. It has put a front of the buffer on the stream, in order
  -- and with nothing twice, whatever the pieces that `send` took. It returns the length and has put
  -- all on the stream, or it returns -1 with the text of the errno of a call that took nothing and
  -- that no signal had interrupted, and has put less than all on the stream.
  pub socket_write-Returns :
      (fuel : ℕ) (fd : ℤ) (p : List ℕ) (err : ErrText) (w : World)
      → length p + stream.signals w < fuel
      → Returns
          (WritePost stream fd p (stream.outbox w fd) w)
          (socket_write os fuel fd p (pos (length p)) err w)
  unfolding socket_write
  socket_write-Returns fuel fd p err w enough =
      socket_write_loop_post os stream fd p (stream.outbox w fd) err fuel 0 w (omega arith)
        (sym (append-nil _)) (omega arith)

-- What `SocketWrite` has done on a connection that stands.
pub record WroteAll {World : Type 0} {os : Os World} (stream : IsStream os) (fd : ℤ) (p : List ℕ)
    (w : World) (end : Write × World) : Type 0 where
  pub code : end.0.code ≡ pos (length p)
  pub in_order : stream.outbox end.1 fd ≡ stream.outbox w fd ++ p
  pub inbox_kept : stream.inbox end.1 fd ≡ stream.inbox w fd
  pub signals_kept : stream.signals end.1 ≤ stream.signals w

module _ {World : Type 0} (os : Os World) (stream : IsStream os)
    (healthy : IsHealthy os stream) where
  not_Refused : (fd : ℤ) (p : List ℕ) (end : Write × World) → Refused os fd p end → ⊥
  not_Refused fd p end (send_failed n bs w h more (inl e) ne) =
      ne (healthy.send_interrupted fd bs w end.1 e)
  not_Refused fd p end (send_failed n bs w h more (inr e) ne) =
      ne (healthy.send_some fd bs w end.1 e more)

  -- On a connection that stands `SocketWrite` puts the whole buffer on the stream, and returns its
  -- length, despite interruptions.
  pub socket_write_complete :
      (fuel : ℕ) (fd : ℤ) (p : List ℕ) (err : ErrText) (w : World)
      → length p + stream.signals w < fuel
      → Returns (WroteAll stream fd p w) (socket_write os fuel fd p (pos (length p)) err w)
  socket_write_complete fuel fd p err w enough =
      Returns-weaken (socket_write-Returns os stream fuel fd p err w enough) λ end q.
        elim q.code_cases [
          | inl (c, all) ↦ record {
            code = c;
            in_order = q.in_order ∙ rw (all, take_all (length p) p (omega arith)) refl;
            inbox_kept = q.inbox_kept;
            signals_kept = q.signals_kept;
          }
          | inr (_, _, _, r) ↦ absurd (not_Refused fd p end r)
        ]
