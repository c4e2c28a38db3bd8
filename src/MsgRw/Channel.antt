-- ===== src/MsgRw/Channel.antt =====
-- Two ends of a connection: what one sends packet by packet, the other reads packet by packet.
use o2k.Prelude.{
  ℕ, zero, suc, ◌+◌, ◌≤◌, ◌<◌, ◌≡◌, refl, ap, sym, subst, ◌∙◌, inl, inr, to_int, List, [], ◌∷◌,
  ◌++◌, map, All, length, append_assoc, append-nil, Option, some, arith,
}
use o2k.Outcome.{Outcome, ok, Returns, Returns-ok, Returns-bind, Returns-weaken, ◌>>=◌}
use o2k.Os.{Os, IsStream, IsHealthy}
use o2k.Socket.Framing.{packet}
use o2k.MsgRw.{MsgRw, get_packet, read_packet, send, len_adm_pkg, max_adm_pkg}
use o2k.MsgRw.Buffer.{IsWellFormed}
use o2k.MsgRw.Packets.{PacketPost, read_packet-Returns}
use o2k.MsgRw.Delivery.{Delivered, read_packet-packet}
use o2k.MsgRw.Exchange.{send_complete, Delivered-AtHand, get_packet-AtHand}

-- Payloads that fit `m_buf`, and are not empty.
abbrev pub AreShort : List (List ℕ) → Type 0
AreShort ps = All (λ p. (0 < length p) × (length p ≤ len_adm_pkg)) ps

-- The bytes of a sequence of packets.
abbrev pub packets : List (List ℕ) → List ℕ
packets [] = []
packets (p ∷ ps) = packet p ++ packets ps

module _ {World : Type 0} (os : Os World) where
  -- `SendPacket` of each payload.
  unfoldable pub transmit : ℕ → List (List ℕ) → MsgRw → World → Outcome (MsgRw × World)
  transmit fuel [] s w = ok (s, w)
  transmit fuel (p ∷ ps) s w = do
    (rc, s', w') ← send os fuel p (to_int (length p)) s w
    transmit fuel ps s' w'

  -- `ReadPacket` and `GetPacket`, as often as told.
  unfoldable pub receive : ℕ → ℕ → MsgRw → World → Outcome (List (Option (List ℕ)) × MsgRw × World)
  receive fuel zero s w = ok ([], s, w)
  receive fuel (suc n) s w = do
    (rc, s', w') ← read_packet os fuel s w
    (more, s'', w'') ← receive fuel n s' w'
    ok (get_packet s' ∷ more, s'', w'')

-- What a call ends with has all that holds of it.
Returns-both :
    {A : Type 0} (P Q : A → Type 0) (m : Outcome A)
    → Returns P m
    → Returns Q m
    → Returns (λ a. P a × Q a) m
Returns-both P Q m r q =
    let same : r.value ≡ q.value = cc (r.ends, q.ends) in
    record { value = q.value; ends = q.ends; holds = (subst P same r.holds, q.holds) }

module _ {World : Type 0} (os : Os World) (stream : IsStream os)
    (healthy : IsHealthy os stream) where
  -- What the packets leave on the stream.
  transmit-packets :
      (fuel : ℕ) (ps : List (List ℕ)) (s : MsgRw) (w : World)
      → AreShort ps
      → len_adm_pkg + 4 + stream.signals w < fuel
      → Returns
          (λ end. stream.outbox end.1 s.sock ≡ stream.outbox w s.sock ++ packets ps)
          (transmit os fuel ps s w)
  unfolding transmit
  transmit-packets fuel [] s w short enough =
      Returns-ok _ (sym (append-nil (stream.outbox w s.sock)))
  transmit-packets fuel (p ∷ ps) s w ((some_p, small), short) enough =
      Returns-bind _ _ (send_complete os stream healthy fuel p s w (omega arith) (omega arith))
        λ x _ q.
          let same : x.1.sock ≡ s.sock = ap (λ t. t.sock) q.state in
          Returns-weaken (transmit-packets fuel ps x.1 x.2 short (omega (arith, q.signals_kept)))
            λ end e.
              subst (λ fd. stream.outbox end.1 fd ≡ stream.outbox x.2 fd ++ packets ps) same e
              ∙ ap (λ t. t ++ packets ps) q.in_order
              ∙ append_assoc (stream.outbox w s.sock) (packet p) (packets ps)

  -- A packet that fits `m_buf` is delivered into well-formed buffers.
  read_packet-short :
      (fuel : ℕ) (p rest : List ℕ) (s : MsgRw) (w : World)
      → IsWellFormed s
      → length p ≤ len_adm_pkg
      → stream.inbox w s.sock ≡ packet p ++ rest
      → max_adm_pkg + 4 + stream.signals w < fuel
      → Returns
          (λ end. PacketPost s.sock end × Delivered stream s.sock p rest w end)
          (read_packet os fuel s w)
  read_packet-short fuel p rest s w v short e enough =
      let delivered =
        read_packet-packet os stream healthy fuel p rest s w v (omega arith)
          (λ (long, _). omega arith) e (omega arith) in
      elim (read_packet-Returns os stream fuel s w v enough) [
        | inl kept ↦ Returns-both _ _ _ kept delivered
        | inr (n, bad, _, _) ↦ cc (bad, delivered.ends)
      ]

  receive-packets :
      (fuel : ℕ) (ps : List (List ℕ)) (s : MsgRw) (w : World)
      → AreShort ps
      → IsWellFormed s
      → stream.inbox w s.sock ≡ packets ps
      → max_adm_pkg + 4 + stream.signals w < fuel
      → Returns
          (λ end. (end.0 ≡ map some ps) × (stream.inbox end.2 s.sock ≡ []))
          (receive os fuel (length ps) s w)
  unfolding receive
  receive-packets fuel [] s w short v e enough = Returns-ok _ (refl, e)
  receive-packets fuel (p ∷ ps) s w ((some_p, small), short) v e enough =
      Returns-bind _ _ (read_packet-short fuel p (packets ps) s w v small e enough) λ x _ (kept, d).
        Returns-bind _ _
          (receive-packets fuel ps x.1 x.2 short kept.well_formed
            (subst (λ fd. stream.inbox x.2 fd ≡ packets ps) (sym kept.sock_kept) d.next)
            (omega (arith, d.signals_kept)))
          λ y _ (all, nothing). Returns-ok _ (
            rw (get_packet-AtHand p x.1 (Delivered-AtHand d) some_p, all) refl,
            subst (λ fd. stream.inbox y.2 fd ≡ []) kept.sock_kept nothing,
          )

-- Two connections that stand, of which the second reads what the first writes: payloads that are not
-- empty and fit `m_buf`, sent one by one with `SendPacket` into a stream that was empty, are what as many
-- calls of `ReadPacket` and `GetPacket` return, in their order, and nothing is left to be read. So the
-- stream is a queue of packets, whatever the pieces in which it carries them.
pub transmit-receive :
    {World World' : Type 0} (os : Os World) (stream : IsStream os) (healthy : IsHealthy os stream)
    (os' : Os World') (stream' : IsStream os') (healthy' : IsHealthy os' stream')
    (peer : World → World') (fuel : ℕ) (ps : List (List ℕ)) (s s' : MsgRw) (w : World)
    → ((w' : World) → stream'.inbox (peer w') s'.sock ≡ stream.outbox w' s.sock)
    → ((w' : World) → max_adm_pkg + 4 + stream'.signals (peer w') < fuel)
    → len_adm_pkg + 4 + stream.signals w < fuel
    → AreShort ps
    → IsWellFormed s'
    → stream.outbox w s.sock ≡ []
    → Returns
        (λ end. (end.0 ≡ map some ps) × (stream'.inbox end.2 s'.sock ≡ []))
        (transmit os fuel ps s w >>= λ (_, w'). receive os' fuel (length ps) s' (peer w'))
transmit-receive os stream healthy os' stream' healthy' peer fuel ps s s' w joined enough' enough
      short v empty =
    Returns-bind _ _ (transmit-packets os stream healthy fuel ps s w short enough) λ x _ e.
      receive-packets os' stream' healthy' fuel ps s' (peer x.1) short v
        (joined x.1 ∙ e ∙ ap (λ t. t ++ packets ps) empty) (enough' x.1)
