-- ===== src/Socket/Framing.antt =====
-- Packets: what `SendPacket` puts on the stream, `ReadPacket` takes off it.
use o2k.Prelude.{
  ℕ, zero, suc, ◌+◌, ◌^◌, ◌%◌, ◌≤◌, ◌<◌, ◌≡◌, refl, sym, ap, ◌∙◌, ◌⊎◌, inl, inr, ℤ, pos, negsuc,
  to_int-pos, is_neg, List, ◌++◌, length, take, append_assoc, htonl, ntohl-htonl, append_split,
  length-append, arith, if◌then◌else◌,
}
use o2k.Outcome.{Returns, Returns-weaken, Returns-bind}
use o2k.Os.{Os, IsStream, IsHealthy}
use o2k.Socket.{ErrText, sys_error, Read, Write, header_of, read_packet, send_packet}
use o2k.Socket.Reading.{socket_read_complete}
use o2k.Socket.Writing.{WritePost, socket_write-Returns, socket_write_complete}
use native.Mathlib.Numerals.{towards_suc}

-- A packet on the stream: the length of the payload in network order, then the payload.
abbrev pub packet : List ℕ → List ℕ
packet p = htonl (length p) ++ p

-- `header` as it stands after a read of all its four bytes.
pub header_of-htonl :
    {World : Type 0} (os : Os World) (w : World) (n : ℕ)
    → n < 2 ^ 31
    → header_of os (htonl n) w ≡ pos n
unfolding header_of
header_of-htonl os w n h = rw (ntohl-htonl n (omega arith)) (to_int-pos n h)

-- What `SendPacket` has done: the first `count` bytes of the packet are on the stream, behind what
-- was there. All of them, or fewer and -1.
pub record SendPost {World : Type 0} {os : Os World} (stream : IsStream os) (fd : ℤ) (p : List ℕ)
    (w : World) (end : Write × World) : Type 0 where
  pub count : ℕ
  pub in_order : stream.outbox end.1 fd ≡ stream.outbox w fd ++ take count (packet p)
  pub inbox_kept : stream.inbox end.1 fd ≡ stream.inbox w fd
  pub signals_kept : stream.signals end.1 ≤ stream.signals w
  pub code_cases :
      ((end.0.code ≡ pos (length p)) × (count ≡ length p + 4))
      ⊎ ((end.0.code ≡ negsuc 0)
          × (end.0.err ≡ sys_error (os.errno end.1))
          × (count < length p + 4))

-- The branch of a failed call.
is_neg_lem {ℓ} : {A : Type ℓ} (c : ℤ) (x y : A) → c ≡ negsuc 0 → (if is_neg c then x else y) ≡ x
is_neg_lem c x y e = rw e

-- A front of the header is the same front of the packet, and a front of the payload stands behind
-- the whole header.
take_of_header : (n : ℕ) (p : List ℕ) (k : ℕ) → k < 4 → take k (htonl n) ≡ take k (htonl n ++ p)
take_of_header n p zero h = refl
take_of_header n p (suc zero) h = refl
take_of_header n p (suc (suc zero)) h = refl
take_of_header n p (suc (suc (suc zero))) h = refl
take_of_header n p (suc (suc (suc (suc k)))) h = absurd (omega arith)

take_past_header : (n : ℕ) (p : List ℕ) (k : ℕ) → htonl n ++ take k p ≡ take (k + 4) (htonl n ++ p)
take_past_header n p k = simp towards_suc

module _ {World : Type 0} (os : Os World) (stream : IsStream os) where
  after_header :
      (h : Write × World) (fd : ℤ) (p : List ℕ) (w : World)
      (q : WritePost stream fd (htonl (length p)) (stream.outbox w fd) w h)
      → q.count ≡ 4
      → (end : Write × World) → WritePost stream fd p (stream.outbox h.1 fd) h.1 end
      → SendPost stream fd p w end
  after_header h fd p w q all end r = record {
    count = r.count + 4;
    in_order =
        r.in_order
        ∙ rw (q.in_order, all)
            (append_assoc (stream.outbox w fd) (htonl (length p)) (take r.count p)
              ∙ ap (λ t. stream.outbox w fd ++ t) (take_past_header (length p) p r.count));
    inbox_kept = r.inbox_kept ∙ q.inbox_kept;
    signals_kept = omega (arith, r.signals_kept, q.signals_kept);
    code_cases = elim r.code_cases [
      | inl (c, k) ↦ inl (c, omega (arith, k))
      | inr (c, t, short, _) ↦ inr (c, t, omega (arith, short))
    ];
  }

  -- `SendPacket` of a payload whose length fits an `int` returns, with enough fuel. It returns the
  -- payload's length and has put the length header and the payload on the stream, or it returns -1
  -- with the text of an errno, and a proper front of that packet is on the stream.
  pub send_packet-Returns :
      (fuel : ℕ) (fd : ℤ) (p : List ℕ) (err : ErrText) (w : World)
      → length p < 2 ^ 31
      → length p + 4 + stream.signals w < fuel
      → Returns (SendPost stream fd p w) (send_packet os fuel fd p (pos (length p)) err w)
  unfolding send_packet
  send_packet-Returns fuel fd p err w small enough =
      let same : length p % 2 ^ 32 ≡ length p = omega arith in
      rw same (
        Returns-bind _ _
          (socket_write-Returns os stream fuel fd (htonl (length p)) err w (omega arith))
          λ h e q. elim q.code_cases [
            | inl (c, all) ↦ rw c (
                Returns-weaken
                  (socket_write-Returns os stream fuel fd p h.0.err h.1
                    (omega (arith, q.signals_kept)))
                  (after_header h fd p w q all))
            | inr (c, t, short, _) ↦ rw (is_neg_lem h.0.code _ _ c) (record {
              value = h;
              ends = refl;
              holds = record {
                count = q.count;
                in_order = rw (← take_of_header (length p) p q.count short) q.in_order;
                inbox_kept = q.inbox_kept;
                signals_kept = q.signals_kept;
                code_cases = inr (c, t, omega (arith, short));
              };
            })
          ])

-- What `SendPacket` has done on a connection that stands.
pub record PacketSent {World : Type 0} {os : Os World} (stream : IsStream os) (fd : ℤ) (p : List ℕ)
    (w : World) (end : Write × World) : Type 0 where
  pub code : end.0.code ≡ pos (length p)
  pub in_order : stream.outbox end.1 fd ≡ stream.outbox w fd ++ packet p
  pub inbox_kept : stream.inbox end.1 fd ≡ stream.inbox w fd
  pub signals_kept : stream.signals end.1 ≤ stream.signals w

module _ {World : Type 0} (os : Os World) (stream : IsStream os)
    (healthy : IsHealthy os stream) where
  -- On a connection that stands `SendPacket` returns the length of the payload, and the whole packet
  -- is on the stream, behind what was there.
  pub send_packet_complete :
      (fuel : ℕ) (fd : ℤ) (p : List ℕ) (err : ErrText) (w : World)
      → length p < 2 ^ 31
      → length p + 4 + stream.signals w < fuel
      → Returns (PacketSent stream fd p w) (send_packet os fuel fd p (pos (length p)) err w)
  unfolding send_packet
  send_packet_complete fuel fd p err w small enough =
      let same : length p % 2 ^ 32 ≡ length p = omega arith in
      rw same (
        Returns-bind _ _
          (socket_write_complete os stream healthy fuel fd (htonl (length p)) err w (omega arith))
          λ h _ q. rw q.code (
            Returns-weaken
              (socket_write_complete os stream healthy fuel fd p h.0.err h.1
                (omega (arith, q.signals_kept)))
              λ end r. record {
                code = r.code;
                in_order =
                    r.in_order
                    ∙ rw q.in_order (append_assoc (stream.outbox w fd) (htonl (length p)) p);
                inbox_kept = r.inbox_kept ∙ q.inbox_kept;
                signals_kept = omega (arith, r.signals_kept, q.signals_kept);
              }))

-- What `ReadPacket` has done where a whole packet was to come.
pub record PacketRead {World : Type 0} {os : Os World} (stream : IsStream os) (fd : ℤ)
    (p rest : List ℕ) (end : Read × World) : Type 0 where
  pub code : end.0.code ≡ pos (length p)
  pub payload : end.0.bytes ≡ p
  pub next : stream.inbox end.1 fd ≡ rest

module _ {World : Type 0} (os : Os World) (stream : IsStream os)
    (healthy : IsHealthy os stream) where
  -- On a connection that stands, where a packet with a payload that fits an `int` is to come,
  -- `ReadPacket` returns exactly the payload and its length, and what follows the packet is still to
  -- be read, whatever the pieces in which `recv` gives it.
  pub framed_packet :
      (fuel : ℕ) (fd : ℤ) (p rest : List ℕ) (err : ErrText) (w : World)
      → length p < 2 ^ 31
      → stream.inbox w fd ≡ packet p ++ rest
      → length p + 4 + stream.signals w < fuel
      → Returns (PacketRead stream fd p rest) (read_packet os fuel fd err w)
  unfolding read_packet
  framed_packet fuel fd p rest err w small e enough =
      Returns-bind _ _
        (socket_read_complete os stream healthy fuel fd 4 err w (omega arith) (rw e (omega arith)))
        λ h _ q.
          let (header, later) =
            append_split h.0.bytes (stream.inbox h.1 fd) (htonl (length p)) (p ++ rest)
              (sym q.in_order ∙ e) q.count in
          rw (q.code, header, header_of-htonl os w (length p) small)
            (Returns-weaken
              (socket_read_complete os stream healthy fuel fd (length p) h.0.err h.1
                (omega (arith, q.signals_kept)) (rw (later, length-append) (omega arith)))
              λ end r.
                let (payload, next) =
                  append_split end.0.bytes (stream.inbox end.1 fd) p rest (sym r.in_order ∙ later)
                    r.count in
                record { code = r.code; payload = payload; next = next })
