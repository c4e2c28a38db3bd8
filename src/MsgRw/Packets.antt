-- ===== src/MsgRw/Packets.antt =====
-- `CMsgRW::ReadPacket`: what every call keeps, what it returns on a packet, and the packets on which
-- it writes outside its array.
use o2k.Prelude.{
  ℕ, ◌+◌, ◌≤◌, ◌<◌, ◌≡◌, refl, ap, subst, ◌∙◌, ◌⊎◌, inl, inr, ℤ, pos, negsuc, is_neg, ◌==ℤ◌, ==ℤ→eq,
  true, false, List, length, length-set, set, get_elem?, some, ltb, Bool-cases, not_ltb→le, arith,
}
use o2k.Outcome.{ok, fault, Returns, Returns-weaken, Returns-bind}
use o2k.Os.{Os, IsStream}
use o2k.Socket.{
  no_error, not_enough_data, invalid_format, size_too_long, Read, socket_read, overlay, header_of,
}
use o2k.Socket.Reading.{ReadPost, peer_closed, call_failed, socket_read-Returns}
use o2k.MsgRw.{
  MsgRw, msgbuf, set_msgbuf, clear, make_room, read_payload, check_length, read_packet, len_adm_pkg,
  max_adm_pkg,
}
use o2k.MsgRw.Buffer.{
  IsWellFormed, HeapFits, Overflows, length-make_room, make_room-HeapFits, make_room_keeps,
  length-overlay, get_elem?-set_self, msgbuf-set_msgbuf, set_msgbuf_keeps, write_front_lem,
  write_at_lem, write_at_fault,
}

-- What a call of `ReadPacket` leaves: well-formed buffers, and a return value that is the length of
-- the message at hand, or -1 with no message.
pub record PacketPost {World : Type 0} (sock : ℤ) (end : ℤ × MsgRw × World) : Type 0 where
  pub well_formed : IsWellFormed end.1
  pub sock_kept : end.1.sock ≡ sock
  pub code_cases : (end.0 ≡ pos end.1.lenmsg) ⊎ ((end.0 ≡ negsuc 0) × (end.1.lenmsg ≡ 0))

bytes-le :
    {World : Type 0} {os : Os World} {stream : IsStream os} {fd : ℤ} {len : ℕ} {total : List ℕ}
    {w : World} {end : Read × World}
    → ReadPost stream fd len total w end
    → length end.0.bytes ≤ len
bytes-le p = elim p.code_cases [ inl (_, e) ↦ omega (arith, e) | inr (_, h) ↦ omega (arith, h) ]

-- The one negative value that `SocketRead` returns.
code_of_failure :
    {World : Type 0} {os : Os World} {stream : IsStream os} {fd : ℤ} {len : ℕ} {total : List ℕ}
    {w : World} {end : Read × World}
    → ReadPost stream fd len total w end
    → is_neg end.0.code ≡ true
    → end.0.code ≡ negsuc 0
code_of_failure {end = end} p neg = elim p.code_cases [
  | inl (e, _) ↦ cc (neg, ap is_neg e)
  | inr (peer_closed _ _ e _ _, _) ↦ cc (neg, ap is_neg e)
  | inr (call_failed _ _ e _ _ _, _) ↦ e
]

module _ {World : Type 0} (os : Os World) (stream : IsStream os) where
  read_payload-Returns :
      (fuel n : ℕ) (s : MsgRw) (w : World)
      → length s.buf ≡ len_adm_pkg + 2
      → HeapFits s.heap s.lenbuf
      → s.lenmsg ≡ 0
      → n < length (msgbuf s)
      → n + stream.signals w < fuel
      → Returns (PacketPost s.sock) (read_payload os fuel n s w)
  unfolding read_payload
  read_payload-Returns fuel n s w hb hh hm fits enough =
      Returns-bind _ _ (socket_read-Returns os stream fuel s.sock n s.errbuf w enough) λ r _ p.
        let mem : List ℕ = overlay r.0.bytes (msgbuf s) in
        let size : length mem ≡ length (msgbuf s) =
          length-overlay r.0.bytes (msgbuf s) (omega (arith, bytes-le p)) in
        let size' : length (set mem n 0) ≡ length (msgbuf s) = length-set mem n 0 ∙ size in
        let (hb', hh', hs', hm', _) = set_msgbuf_keeps s (set mem n 0) hb hh size' in
        let nul : get_elem? (msgbuf (set_msgbuf s (set mem n 0))) n ≡ some 0 =
          rw msgbuf-set_msgbuf (get_elem?-set_self mem n 0 (omega arith)) in
        rw
          (
            write_front_lem r.0.bytes (msgbuf s) (omega (arith, bytes-le p)),
            write_at_lem mem n 0 (omega arith),
          )
          (elim (Bool-cases (r.0.code ==ℤ pos n)) [
            | inl all ↦ rw all (record {
              value = (
                r.0.code,
                record (set_msgbuf s (set mem n 0)) { errbuf = r.0.err; lenmsg = n },
                r.1,
              );
              ends = refl;
              holds = record {
                well_formed = record { buf_size = hb'; heap_size = hh'; terminated = λ _. nul };
                sock_kept = hs';
                code_cases = inl (==ℤ→eq _ _ all);
              };
            })
            | inr few ↦ rw few (record {
              value =
                  (negsuc 0, record (set_msgbuf s (set mem n 0)) { errbuf = not_enough_data }, r.1);
              ends = refl;
              holds = record {
                well_formed = record {
                  buf_size = hb';
                  heap_size = hh';
                  terminated = λ h. absurd (omega (arith, hm', hm));
                };
                sock_kept = hs';
                code_cases = inr (refl, hm' ∙ hm);
              };
            })
          ])

  pub read_payload-fault :
      (fuel n : ℕ) (s : MsgRw) (w : World)
      → length (msgbuf s) ≡ n
      → n + stream.signals w < fuel
      → read_payload os fuel n s w ≡ fault
  unfolding read_payload
  read_payload-fault fuel n s w e enough =
      let q = socket_read-Returns os stream fuel s.sock n s.errbuf w enough in
      let short : length q.value.0.bytes ≤ length (msgbuf s) = omega (arith, bytes-le q.holds) in
      rw (
        q.ends,
        write_front_lem q.value.0.bytes (msgbuf s) short,
        write_at_fault (overlay q.value.0.bytes (msgbuf s)) n 0
            (omega (arith, length-overlay q.value.0.bytes (msgbuf s) short)),
      )

  check_length-Returns :
      (fuel : ℕ) (len : ℤ) (s : MsgRw) (w : World)
      → length s.buf ≡ len_adm_pkg + 2
      → HeapFits s.heap s.lenbuf
      → s.lenmsg ≡ 0
      → max_adm_pkg + stream.signals w < fuel
      → Returns (PacketPost s.sock) (check_length os fuel len s w)
        ⊎ ((n : ℕ) × (check_length os fuel len s w ≡ fault) × (len ≡ pos n) × Overflows n s)
  unfolding check_length
  check_length-Returns fuel (negsuc k) s w hb hh hm enough = inl (record {
    value = (negsuc 0, record s { errbuf = invalid_format }, w);
    ends = refl;
    holds = record {
      well_formed = record {
        buf_size = hb;
        heap_size = hh;
        terminated = λ h. absurd (omega (arith, hm));
      };
      sock_kept = refl;
      code_cases = inr (refl, hm);
    };
  })
  check_length-Returns fuel (pos n) s w hb hh hm enough = elim (Bool-cases (ltb max_adm_pkg n)) [
    | inl long ↦ rw long (
        inl (record {
          value = (negsuc 0, record s { errbuf = size_too_long n }, w);
          ends = refl;
          holds = record {
            well_formed = record {
              buf_size = hb;
              heap_size = hh;
              terminated = λ h. absurd (omega (arith, hm));
            };
            sock_kept = refl;
            code_cases = inr (refl, hm);
          };
        }))
    | inr short ↦
        let (kb, ks, ke, km) = make_room_keeps os n w s in
        rw short (elim (length-make_room os n w s hb hh) [
          | inl fits ↦ inl (
              Returns-weaken
                (read_payload-Returns fuel n (make_room os n w s) w (ap length kb ∙ hb)
                  (make_room-HeapFits os n w s (not_ltb→le _ _ short) hh) (km ∙ hm) fits
                  (omega (arith, not_ltb→le _ _ short)))
                λ end p. subst (λ fd. PacketPost fd end) ks p)
          | inr (over, full) ↦ inr (
            n,
            read_payload-fault fuel n (make_room os n w s) w full
                (omega (arith, not_ltb→le _ _ short)),
            refl,
            over,
          )
        ])
  ]

  -- The header that `ReadPacket` reads first has a packet of `n` bytes.
  pub record Announced (fuel : ℕ) (s : MsgRw) (w : World) (n : ℕ) : Type 0 where
    pub header : Read
    pub behind : World
    pub answered : socket_read os fuel s.sock (pos 4) no_error w ≡ ok (header, behind)
    pub no_failure : is_neg header.code ≡ false
    pub announced : header_of os header.bytes w ≡ pos n

  -- On well-formed buffers, with fuel above the largest packet and the number of signals that are to
  -- come, `ReadPacket` returns with well-formed buffers and, as its value, the length of the message
  -- at hand, or -1 with no message at hand; or it writes outside its array, and then the header that
  -- it has read has a length which is more than LEN_ADM_PKG and that of the array at hand, `m_lenbuf`.
  pub read_packet-Returns :
      (fuel : ℕ) (s : MsgRw) (w : World)
      → IsWellFormed s
      → max_adm_pkg + 4 + stream.signals w < fuel
      → Returns (PacketPost s.sock) (read_packet os fuel s w)
        ⊎ ((n : ℕ) × (read_packet os fuel s w ≡ fault) × Announced fuel s w n × Overflows n s)
  unfolding read_packet
  read_packet-Returns fuel s w v enough =
      let h = socket_read-Returns os stream fuel s.sock 4 no_error w (omega arith) in
      rw h.ends (elim (Bool-cases (is_neg h.value.0.code)) [
        | inl bad ↦ rw bad (
            inl (record {
              value =
                  (h.value.0.code, record (clear s false) { errbuf = h.value.0.err }, h.value.1);
              ends = refl;
              holds = record {
                well_formed = record {
                  buf_size = v.buf_size;
                  heap_size = v.heap_size;
                  terminated = λ more. absurd (omega arith);
                };
                sock_kept = refl;
                code_cases = inr (code_of_failure h.holds bad, refl);
              };
            }))
        | inr good ↦
            rw good
              (elim (check_length-Returns fuel (header_of os h.value.0.bytes w) _ h.value.1
                v.buf_size v.heap_size refl (omega (arith, h.holds.signals_kept))) [
                  | inl r ↦ inl r
                  | inr (n, bad, len, over) ↦ inr (
                    n,
                    bad,
                    record {
                      header = h.value.0;
                      behind = h.value.1;
                      answered = h.ends;
                      no_failure = good;
                      announced = len;
                    },
                    over,
                  )
                ])
      ])
