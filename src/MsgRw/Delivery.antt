-- ===== src/MsgRw/Delivery.antt =====
-- `CMsgRW::ReadPacket` on a connection where a packet is to come: the message that it puts at hand,
-- and the one length on which it writes outside its array.
use o2k.Prelude.{
  ℕ, suc, ◌+◌, ◌≤◌, ◌<◌, ◌≡◌, refl, sym, subst, ◌∙◌, inl, inr, ℤ, pos, ==ℤ_refl, List, ◌∷◌, ◌++◌,
  length, length-append, drop, append_assoc, append_split, htonl, le→not_ltb, arith, set,
}
use o2k.Outcome.{fault, Returns, Returns-weaken, Returns-bind}
use o2k.Os.{Os, IsStream, IsHealthy}
use o2k.Socket.{no_error, overlay}
use o2k.Socket.Reading.{socket_read_complete}
use o2k.Socket.Framing.{packet, header_of-htonl}
use o2k.MsgRw.{
  MsgRw, msgbuf, set_msgbuf, make_room, read_payload, check_length, read_packet, len_adm_pkg,
  max_adm_pkg,
}
use o2k.MsgRw.Buffer.{
  IsWellFormed, HeapFits, Overflows, length-make_room, make_room_keeps, make_room_same,
  length-msgbuf, set-overlay, length-overlay, msgbuf-set_msgbuf, write_front_lem, write_at_lem,
}
use o2k.MsgRw.Packets.{read_payload-fault}

-- The message `p` is at hand, with a NUL behind it, and `rest` is still to be read.
pub record Delivered {World : Type 0} {os : Os World} (stream : IsStream os) (fd : ℤ)
    (p rest : List ℕ) (w : World) (end : ℤ × MsgRw × World) : Type 0 where
  pub code : end.0 ≡ pos (length p)
  pub lenmsg : end.1.lenmsg ≡ length p
  pub behind : List ℕ
  pub message : msgbuf end.1 ≡ p ++ (0 ∷ behind)
  pub next : stream.inbox end.2 fd ≡ rest
  pub outbox_kept : stream.outbox end.2 fd ≡ stream.outbox w fd
  pub signals_kept : stream.signals end.2 ≤ stream.signals w

module _ {World : Type 0} (os : Os World) (stream : IsStream os)
    (healthy : IsHealthy os stream) where
  read_payload-delivers :
      (fuel : ℕ) (p rest : List ℕ) (s : MsgRw) (w : World)
      → length p < length (msgbuf s)
      → stream.inbox w s.sock ≡ p ++ rest
      → length p + stream.signals w < fuel
      → Returns (Delivered stream s.sock p rest w) (read_payload os fuel (length p) s w)
  unfolding read_payload
  read_payload-delivers fuel p rest s w fits e enough =
      Returns-bind _ _
        (socket_read_complete os stream healthy fuel s.sock (length p) s.errbuf w enough
          (rw (e, length-append) (omega arith)))
        λ r _ q.
          let (payload, next) =
            append_split r.0.bytes (stream.inbox r.1 s.sock) p rest (sym q.in_order ∙ e) q.count in
          let mem : List ℕ = overlay p (msgbuf s) in
          rw
            (
              payload,
              q.code,
              write_front_lem p (msgbuf s) (omega arith),
              write_at_lem mem (length p) 0 (rw (length-overlay p (msgbuf s) (omega arith)) fits),
              ==ℤ_refl,
            )
            (record {
              value = (
                pos (length p),
                record (set_msgbuf s (set mem (length p) 0)) {
                  errbuf = r.0.err;
                  lenmsg = length p;
                },
                r.1,
              );
              ends = refl;
              holds = record {
                code = refl;
                lenmsg = refl;
                behind = drop (suc (length p)) (msgbuf s);
                message = msgbuf-set_msgbuf s _ ∙ set-overlay p (msgbuf s) 0 fits;
                next = next;
                outbox_kept = q.outbox_kept;
                signals_kept = q.signals_kept;
              };
            })

  check_length-delivers :
      (fuel : ℕ) (p rest : List ℕ) (s : MsgRw) (w : World)
      → length s.buf ≡ len_adm_pkg + 2
      → HeapFits s.heap s.lenbuf
      → length p ≤ max_adm_pkg
      → ¬ Overflows (length p) s
      → stream.inbox w s.sock ≡ p ++ rest
      → length p + stream.signals w < fuel
      → Returns (Delivered stream s.sock p rest w) (check_length os fuel (pos (length p)) s w)
  unfolding check_length
  check_length-delivers fuel p rest s w hb hh short no_over e enough =
      let (_, ks, _, _) = make_room_keeps os (length p) w s in
      rw (le→not_ltb _ _ short) (elim (length-make_room os (length p) w s hb hh) [
        | inl fits ↦
            Returns-weaken
              (read_payload-delivers fuel p rest (make_room os (length p) w s) w fits
                (subst (λ fd. stream.inbox w fd ≡ p ++ rest) (sym ks) e) enough)
              λ end q. subst (λ fd. Delivered stream fd p rest w end) ks q
        | inr (over, _) ↦ absurd (no_over over)
      ])

  -- On a connection that stands, where a packet of at most MAX_ADM_PKG bytes is to come whose length
  -- is not that of an array at hand, `ReadPacket` returns the length of the payload, and has the
  -- payload at hand with a NUL behind it; what follows the packet is still to be read.
  pub read_packet-packet :
      (fuel : ℕ) (p rest : List ℕ) (s : MsgRw) (w : World)
      → IsWellFormed s
      → length p ≤ max_adm_pkg
      → ¬ Overflows (length p) s
      → stream.inbox w s.sock ≡ packet p ++ rest
      → length p + 4 + stream.signals w < fuel
      → Returns (Delivered stream s.sock p rest w) (read_packet os fuel s w)
  unfolding read_packet
  read_packet-packet fuel p rest s w v short no_over e enough =
      let e' : stream.inbox w s.sock ≡ htonl (length p) ++ (p ++ rest) =
        e ∙ append_assoc (htonl (length p)) p rest in
      Returns-bind _ _
        (socket_read_complete os stream healthy fuel s.sock 4 no_error w (omega arith)
          (rw e' (omega arith)))
        λ h _ q.
          let (header, later) =
            append_split h.0.bytes (stream.inbox h.1 s.sock) (htonl (length p)) (p ++ rest)
              (sym q.in_order ∙ e') q.count in
          rw (q.code, header, header_of-htonl os w (length p) (omega arith))
            (Returns-weaken
              (check_length-delivers fuel p rest _ h.1 v.buf_size v.heap_size short no_over later
                (omega (arith, q.signals_kept)))
              λ end d. record {
                code = d.code;
                lenmsg = d.lenmsg;
                behind = d.behind;
                message = d.message;
                next = d.next;
                outbox_kept = d.outbox_kept ∙ q.outbox_kept;
                signals_kept = omega (arith, d.signals_kept, q.signals_kept);
              })

  check_length-fault :
      (fuel n : ℕ) (s : MsgRw) (w : World)
      → HeapFits s.heap s.lenbuf
      → n ≤ max_adm_pkg
      → Overflows n s
      → n + stream.signals w < fuel
      → check_length os fuel (pos n) s w ≡ fault
  unfolding check_length
  check_length-fault fuel n s w hh short (long, same) enough =
      rw (le→not_ltb _ _ short, make_room_same os n w s (omega arith))
        (read_payload-fault os stream fuel n s w (length-msgbuf n s hh long same) enough)

  -- Where the header of the packet to come announces more than LEN_ADM_PKG bytes and exactly the
  -- length of the array at hand, `ReadPacket` writes its NUL outside that array, whatever follows the
  -- header.
  pub read_packet_overflow :
      (fuel n : ℕ) (rest : List ℕ) (s : MsgRw) (w : World)
      → IsWellFormed s
      → n ≤ max_adm_pkg
      → Overflows n s
      → stream.inbox w s.sock ≡ htonl n ++ rest
      → max_adm_pkg + 4 + stream.signals w < fuel
      → read_packet os fuel s w ≡ fault
  unfolding read_packet
  read_packet_overflow fuel n rest s w v short over e enough =
      let h =
        socket_read_complete os stream healthy fuel s.sock 4 no_error w (omega arith)
          (rw e (omega arith)) in
      let (header, _) =
        append_split h.value.0.bytes (stream.inbox h.value.1 s.sock) (htonl n) rest
          (sym h.holds.in_order ∙ e) h.holds.count in
      rw (h.ends, h.holds.code, header, header_of-htonl os w n (omega arith))
        (check_length-fault fuel n _ h.value.1 v.heap_size short over
          (omega (arith, h.holds.signals_kept)))
