-- ===== src/MsgRw/Termination.antt =====
-- That the calls of `CMsgRW` come to their end on a new object, whatever the stream holds.
use o2k.Prelude.{
  ℕ, zero, suc, ◌+◌, ◌^◌, ◌≤◌, ◌<◌, ◌≡◌, refl, ap, inl, inr, ℤ, pos, not_pos, to_int, to_int-pos,
  ◌==ℤ◌, false, List, [], ◌∷◌, length, get_elem?, Option, none, some, Option-cases, c_str, arith,
}
use o2k.Outcome.{Returns, Returns-ok, Returns-if, Returns-bind, Returns-weaken, Returns-Ensures}
use o2k.Os.{Os, IsStream, RecvResult, recv_error, got, SendResult, sent, send_error}
use o2k.Socket.{ErrText}
use o2k.Socket.Framing.{send_packet-Returns}
use o2k.AdminMsg.{MsgCmd, MsgHeaderWrap, Codec, type_result, header_or_default}
use o2k.MsgRw.{MsgRw, msgbuf, read_packet, send, parse_msgbuf, max_adm_pkg}
use o2k.MsgRw.Buffer.{IsWellFormed}
use o2k.MsgRw.Packets.{PacketPost, read_packet-Returns}
use o2k.MsgRw.Messages.{check_header, read_message, read_result, exec_cmd_result}
use o2k.Keeping.{IsKept}
use o2k.Keeping.Messages.{read_packet-Kept}

-- An array with a NUL is a C string.
pub c_str-get_elem? :
    (xs : List ℕ) (i : ℕ) → get_elem? xs i ≡ some 0 → (text : List ℕ) × (c_str xs ≡ some text)
c_str-get_elem? [] i h = cc
c_str-get_elem? (zero ∷ xs) i h = ([], refl)
c_str-get_elem? (suc b ∷ xs) zero h = let same : suc b ≡ 0 = cc in absurd (omega arith)
c_str-get_elem? (suc b ∷ xs) (suc i) h =
    let (text, e) = c_str-get_elem? xs i h in (suc b ∷ text, rw e refl)

-- The packet at hand is a C string, so that it can be parsed.
pub parse_msgbuf-Returns {ℓ} :
    {A : Type ℓ} (parse : List ℕ → Option A) (s : MsgRw)
    → IsWellFormed s
    → 0 < s.lenmsg
    → Returns {ℓ, 0} (λ _. Unit) (parse_msgbuf parse s)
unfolding parse_msgbuf
parse_msgbuf-Returns parse s v more =
    let (text, e) = c_str-get_elem? (msgbuf s) s.lenmsg (v.terminated more) in
    rw e (Returns-ok _ tt)

-- A value above 0 is the length of a packet at hand.
pub at_hand :
    {World : Type 0} (sock : ℤ) (end : ℤ × MsgRw × World)
    → PacketPost sock end
    → not_pos end.0 ≡ false
    → 0 < end.1.lenmsg
at_hand sock end p good = elim p.code_cases [
  | inl e ↦ above end.1.lenmsg (ap not_pos e)
  | inr (e, _) ↦ cc (ap not_pos e)
]
  where
    above : (n : ℕ) → not_pos end.0 ≡ not_pos (pos n) → 0 < n
    above zero e = cc
    above (suc n) e = omega arith

module _ {World : Type 0} (os : Os World) (stream : IsStream os) where
  -- No call brings more interruptions than there were to come.
  abbrev pub Fewer : ℕ → World → Type 0
  Fewer b w = stream.signals w ≤ b

  Fewer-IsKept : (b : ℕ) → IsKept os (Fewer b)
  Fewer-IsKept b = record {
    recv_keeps = λ fd n w h. after_recv fd n w (os.recv fd n w) refl h;
    send_keeps = λ fd bs w h. after_send fd bs w (os.send fd bs w) refl h;
  }
    where
      after_recv :
          (fd : ℤ) (n : ℕ) (w : World) (end : RecvResult × World)
          → os.recv fd n w ≡ end
          → Fewer b w
          → Fewer b end.1
      after_recv fd n w (got bs, w') e h = omega (arith, (stream.recv_got fd n w w' bs e).3)
      after_recv fd n w (recv_error, w') e h = omega (arith, (stream.recv_failed fd n w w' e).2)

      after_send :
          (fd : ℤ) (bs : List ℕ) (w : World) (end : SendResult × World)
          → os.send fd bs w ≡ end
          → Fewer b w
          → Fewer b end.1
      after_send fd bs w (sent k, w') e h = omega (arith, (stream.send_sent fd bs w w' k e).3)
      after_send fd bs w (send_error, w') e h = omega (arith, (stream.send_failed fd bs w w' e).2)

  -- An object whose buffers fit every packet.
  abbrev pub IsFresh : MsgRw → Type 0
  IsFresh s = IsWellFormed s × (s.lenbuf ≡ 0)

  pub err-IsFresh : (s : MsgRw) (t : ErrText) → IsFresh s → IsFresh (record s { errbuf = t })
  err-IsFresh s t (v, e) =
      (record { buf_size = v.buf_size; heap_size = v.heap_size; terminated = v.terminated }, e)

  pub read_packet-Returns_fresh :
      (fuel : ℕ) (s : MsgRw) (w : World)
      → IsFresh s
      → max_adm_pkg + 4 + stream.signals w < fuel
      → Returns
          (λ end. PacketPost s.sock end × Fewer (stream.signals w) end.2)
          (read_packet os fuel s w)
  read_packet-Returns_fresh fuel s w (v, small) enough =
      Returns-Ensures _ _ _
        (elim (read_packet-Returns os stream fuel s w v enough) [
          | inl r ↦ r
          | inr (n, _, _, (long, e)) ↦ absurd (omega arith)
        ])
        (read_packet-Kept os (Fewer (stream.signals w)) (Fewer-IsKept (stream.signals w)) fuel s w
          (omega arith))

  module _ (codec : Codec) (fuel : ℕ) where
    check_header-Returns {ℓ} :
        {A : Type ℓ} (wrong : ErrText) (parse : List ℕ → Option A) (s : MsgRw)
        (hdr : Option MsgHeaderWrap)
        → IsWellFormed s
        → 0 < s.lenmsg
        → Returns {ℓ, 0} (λ _. Unit) (check_header type_result wrong parse s hdr)
    unfolding check_header
    check_header-Returns wrong parse s none v more = Returns-ok _ tt
    check_header-Returns wrong parse s (some hdr) v more =
        Returns-if ((header_or_default hdr.msg_header).msg_type ==ℤ type_result) _ _
          (λ _. Returns-bind _ _ (parse_msgbuf-Returns parse s v more) λ m _ _. Returns-ok _ tt)
          (λ _. Returns-ok _ tt)

    read_result-Returns :
        (s : MsgRw) (w : World)
        → IsFresh s
        → max_adm_pkg + 4 + stream.signals w < fuel
        → Returns (λ end. Fewer (stream.signals w) end.2) (read_result os codec fuel s w)
    unfolding read_result read_message
    read_result-Returns s w fresh enough =
        Returns-bind _ _ (read_packet-Returns_fresh fuel s w fresh enough) λ x _ (p, fewer).
          Returns-if (not_pos x.0) _ _ (λ _. Returns-ok _ fewer)
            λ good.
              let more = at_hand s.sock x p good in
              Returns-bind _ _ (parse_msgbuf-Returns codec.parse_wrap x.1 p.well_formed more)
                λ hdr _ _.
                  Returns-bind _ _
                    (check_header-Returns _ codec.parse_result x.1 hdr p.well_formed more)
                    λ m _ _. Returns-ok _ fewer

    -- A new object after a packet was sent is as good as new.
    pub send-Returns :
        (pkg : List ℕ) (s : MsgRw) (w : World)
        → length pkg < 2 ^ 31
        → length pkg + 4 + stream.signals w < fuel
        → Returns
            (λ end. (end.1 ≡ record s { errbuf = end.1.errbuf }) × Fewer (stream.signals w) end.2)
            (send os fuel pkg (to_int (length pkg)) s w)
    unfolding send
    send-Returns pkg s w small enough = rw (to_int-pos (length pkg) small) (
        Returns-bind _ _ (send_packet-Returns os stream fuel s.sock pkg s.errbuf w small enough)
          λ x _ p. Returns-ok _ (refl, p.signals_kept))

    -- The exchange of a command for a result, with fuel for any packet.
    pub exec_cmd_result-Returns :
        (cmd : MsgCmd) (s : MsgRw) (w : World)
        → IsFresh s
        → ((pkg : List ℕ) → codec.serialize_cmd cmd ≡ some pkg → length pkg < 2 ^ 31)
        → 2 ^ 31 + 4 + stream.signals w < fuel
        → Returns (λ end. Fewer (stream.signals w) end.2) (exec_cmd_result os codec fuel cmd s w)
    unfolding exec_cmd_result
    exec_cmd_result-Returns cmd s w fresh small enough =
        elim (Option-cases (codec.serialize_cmd cmd)) [
          | inl unmade ↦ rw (unmade, exec_cmd_result) (Returns-ok _ (omega arith))
          | inr (pkg, made) ↦
              rw (made, exec_cmd_result)
                (Returns-bind _ _
                  (send-Returns pkg s w (small pkg made) (omega (arith, small pkg made)))
                  λ x _ (e, fewer).
                    Returns-if (not_pos x.0) _ _ (λ _. Returns-ok _ fewer)
                      λ _.
                        Returns-weaken
                          (read_result-Returns x.1 x.2 (rw e (err-IsFresh s x.1.errbuf fresh))
                            (omega (arith, fewer)))
                          λ end fewer'. omega (arith, fewer, fewer'))
        ]
