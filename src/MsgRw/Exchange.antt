-- ===== src/MsgRw/Exchange.antt =====
-- Messages at hand and exchanges with a server that answers with one packet.
use o2k.Prelude.{
  ℕ, ◌+◌, ◌^◌, ◌≤◌, ◌<◌, ◌≡◌, refl, ◌∙◌, inl, inr, ℤ, pos, not_pos, ◌==ℤ◌, to_int, to_int-pos, List,
  ◌∷◌, ◌++◌, length, take, take_front, Option, none, some, until_nul, c_str-append_nul, ◌==◌,
  if◌then◌else◌, false, Bool-cases, Option-cases, arith,
}
use o2k.Outcome.{ok, Returns, Returns-weaken, Returns-bind}
use o2k.Os.{Os, IsStream, IsHealthy}
use o2k.Socket.{ErrText, invalid_msg_hdr, invalid_msg_bdy, not_result}
use o2k.Socket.Framing.{packet, send_packet_complete}
use o2k.AdminMsg.{MsgHeaderWrap, MsgCmd, type_result, header_or_default, Codec}
use o2k.MsgRw.{MsgRw, msgbuf, send, parse_either, parse_msgbuf, get_packet, max_adm_pkg}
use o2k.MsgRw.Buffer.{IsWellFormed, Overflows}
use o2k.MsgRw.Delivery.{Delivered, read_packet-packet}
use o2k.MsgRw.Messages.{parsed, check_header, read_message, read_result, exec_cmd_result}

-- The parser of a message as the class applies it to the bytes at hand: first to those before the
-- first NUL, and only where it refuses these to all of them.
abbrev pub parse_text {ℓ} : {A : Type ℓ} → (List ℕ → Option A) → List ℕ → Option A
parse_text parse p = parse_either parse (until_nul p) p

-- `s` has the bytes `p` at hand, with a NUL behind them.
pub record AtHand (p : List ℕ) (s : MsgRw) : Type 0 where
  pub lenmsg : s.lenmsg ≡ length p
  pub behind : List ℕ
  pub message : msgbuf s ≡ p ++ (0 ∷ behind)

pub Delivered-AtHand :
    {World : Type 0} {os : Os World} {stream : IsStream os} {fd : ℤ} {p rest : List ℕ} {w : World}
    {end : ℤ × MsgRw × World}
    → Delivered stream fd p rest w end
    → AtHand p end.1
Delivered-AtHand d = record { lenmsg = d.lenmsg; behind = d.behind; message = d.message }

AtHand-taken : (p : List ℕ) (s : MsgRw) → AtHand p s → take s.lenmsg (msgbuf s) ≡ p
AtHand-taken p s h = rw (h.lenmsg, h.message) (take_front (length p) p (0 ∷ h.behind) refl)

-- With a message at hand no read leaves the array, and the parse is that of its bytes alone.
pub parse_msgbuf-AtHand {ℓ} :
    {A : Type ℓ} (parse : List ℕ → Option A) (p : List ℕ) (s : MsgRw)
    → AtHand p s
    → parse_msgbuf parse s ≡ ok (parse_text parse p)
unfolding parse_msgbuf
parse_msgbuf-AtHand parse p s h = rw (AtHand-taken p s h, h.message, c_str-append_nul p h.behind)

-- `GetPacket` gives the message at hand, if it is not empty.
pub get_packet-AtHand : (p : List ℕ) (s : MsgRw) → AtHand p s → 0 < length p → get_packet s ≡ some p
unfolding get_packet
get_packet-AtHand p s h some_bytes = ground (arith, h.lenmsg, AtHand-taken p s h)

-- What `ReadCommand` and `ReadResult` make of the bytes of a packet.
abbrev pub answer_to {ℓ} :
    {A : Type ℓ} → ℤ → (List ℕ → Option A) → List ℕ → Option MsgHeaderWrap → Option A
answer_to expected parse p none = none
answer_to expected parse p (some hdr) =
    if (header_or_default hdr.msg_header).msg_type ==ℤ expected then parse_text parse p else none

abbrev pub answer {ℓ} : {A : Type ℓ} → Codec → ℤ → (List ℕ → Option A) → List ℕ → Option A
answer codec expected parse p = answer_to expected parse p (parse_text codec.parse_wrap p)

-- What a read of a message has done where the packet `p` was to come.
pub record MessageRead {ℓ} {World : Type 0} {os : Os World} (stream : IsStream os) (fd : ℤ)
    {A : Type ℓ} (message : Option A) (p rest : List ℕ) (w : World) (end : Option A × MsgRw × World)
    : Type ℓ where
  pub message_read : end.0 ≡ message
  pub at_hand : AtHand p end.1
  pub next : stream.inbox end.2 fd ≡ rest
  pub outbox_kept : stream.outbox end.2 fd ≡ stream.outbox w fd
  pub signals_kept : stream.signals end.2 ≤ stream.signals w

module _ {ℓ} {A : Type ℓ} (codec : Codec) (expected : ℤ) (wrong : ErrText)
    (parse : List ℕ → Option A) where
  -- The checks on a message at hand.
  checks_lem :
      (p : List ℕ) (s : MsgRw)
      → AtHand p s
      → Returns
          (λ (end : Option A × MsgRw). (end.0 ≡ answer codec expected parse p) × AtHand p end.1)
          (check_header expected wrong parse s (parse_text codec.parse_wrap p))
  unfolding check_header
  checks_lem p s h = elim (Option-cases (parse_text codec.parse_wrap p)) [
    | inl bad ↦ rw bad (record {
      value = (none, record s { errbuf = invalid_msg_hdr });
      ends = refl;
      holds = (refl, same invalid_msg_hdr);
    })
    | inr (hdr, good) ↦
        rw good (elim (Bool-cases ((header_or_default hdr.msg_header).msg_type ==ℤ expected)) [
          | inl right ↦
              rw (right, parse_msgbuf-AtHand parse p s h)
                (record {
                  value = parsed s (parse_text parse p);
                  ends = refl;
                  holds = parsed_lem (parse_text parse p);
                })
          | inr other ↦ rw other (record {
            value = (none, record s { errbuf = wrong });
            ends = refl;
            holds = (refl, same wrong);
          })
        ])
  ]
    where
      same : (e : ErrText) → AtHand p (record s { errbuf = e })
      same e = record { lenmsg = h.lenmsg; behind = h.behind; message = h.message }

      parsed_lem : (m : Option A) → ((parsed s m).0 ≡ m) × AtHand p (parsed s m).1
      parsed_lem none = (refl, same invalid_msg_bdy)
      parsed_lem (some m) = (refl, h)

module _ {World : Type 0} (os : Os World) (stream : IsStream os) (healthy : IsHealthy os stream)
    (codec : Codec) where
  -- On a connection that stands, where a packet is to come that is not empty, has at most MAX_ADM_PKG
  -- bytes and fits the buffers, `ReadCommand` and `ReadResult` give the message that its bytes parse
  -- to if its header has the type expected, and none otherwise; what follows is still to be read.
  pub read_message-packet {ℓ} :
      {A : Type ℓ} (expected : ℤ) (wrong : ErrText) (parse : List ℕ → Option A) (fuel : ℕ)
      (p rest : List ℕ) (s : MsgRw) (w : World)
      → IsWellFormed s
      → 0 < length p
      → length p ≤ max_adm_pkg
      → ¬ Overflows (length p) s
      → stream.inbox w s.sock ≡ packet p ++ rest
      → length p + 4 + stream.signals w < fuel
      → Returns
          (MessageRead stream s.sock (answer codec expected parse p) p rest w)
          (read_message os codec expected wrong parse fuel s w)
  unfolding read_message
  read_message-packet expected wrong parse fuel p rest s w v some_bytes short no_over e enough =
      Returns-bind _ _
        (read_packet-packet os stream healthy fuel p rest s w v short no_over e enough)
        λ d _ q.
          let h : AtHand p d.1 = Delivered-AtHand q in
          rw (q.code, nonzero (length p) some_bytes, parse_msgbuf-AtHand codec.parse_wrap p d.1 h)
            (Returns-bind _ _ (checks_lem codec expected wrong parse p d.1 h) λ m _ c. record {
              value = (m.0, m.1, d.2);
              ends = refl;
              holds = record {
                message_read = c.0;
                at_hand = c.1;
                next = q.next;
                outbox_kept = q.outbox_kept;
                signals_kept = q.signals_kept;
              };
            })
    where
      nonzero : (n : ℕ) → 0 < n → (n == 0) ≡ false
      nonzero n h = ground arith

-- What an exchange has done: the request is on the stream, the reply was read, and nothing else.
pub record Exchanged {ℓ} {World : Type 0} {os : Os World} (stream : IsStream os) (fd : ℤ)
    {A : Type ℓ} (message : Option A) (pkg rest : List ℕ) (w : World)
    (end : Option A × MsgRw × World) : Type ℓ where
  pub message_read : end.0 ≡ message
  pub request_sent : stream.outbox end.2 fd ≡ stream.outbox w fd ++ packet pkg
  pub next : stream.inbox end.2 fd ≡ rest
  pub signals_kept : stream.signals end.2 ≤ stream.signals w

pub positive : (n : ℕ) → 0 < n → not_pos (pos n) ≡ false
positive n h = ground arith

-- What a packet's sending has done to the object and the stream.
pub record Sent {World : Type 0} {os : Os World} (stream : IsStream os) (s : MsgRw) (pkg : List ℕ)
    (w : World) (end : ℤ × MsgRw × World) : Type 0 where
  pub code : end.0 ≡ pos (length pkg)
  pub err : ErrText
  pub state : end.1 ≡ record s { errbuf = err }
  pub in_order : stream.outbox end.2 s.sock ≡ stream.outbox w s.sock ++ packet pkg
  pub inbox_kept : stream.inbox end.2 s.sock ≡ stream.inbox w s.sock
  pub signals_kept : stream.signals end.2 ≤ stream.signals w

pub send_complete :
    {World : Type 0} (os : Os World) (stream : IsStream os) (healthy : IsHealthy os stream)
    (fuel : ℕ) (pkg : List ℕ) (s : MsgRw) (w : World)
    → length pkg < 2 ^ 31
    → length pkg + 4 + stream.signals w < fuel
    → Returns (Sent stream s pkg w) (send os fuel pkg (to_int (length pkg)) s w)
unfolding send
send_complete os stream healthy fuel pkg s w small enough = rw (to_int-pos (length pkg) small) (
    Returns-bind _ _
      (send_packet_complete os stream healthy fuel s.sock pkg s.errbuf w small enough)
      λ r _ q. record {
        value = (r.0.code, record s { errbuf = r.0.err }, r.1);
        ends = refl;
        holds = record {
          code = q.code;
          err = r.0.err;
          state = refl;
          in_order = q.in_order;
          inbox_kept = q.inbox_kept;
          signals_kept = q.signals_kept;
        };
      })

module _ {World : Type 0} (os : Os World) (stream : IsStream os) (healthy : IsHealthy os stream)
    (codec : Codec) where
  -- On a connection that stands, with one packet to come that is not empty, has at most MAX_ADM_PKG
  -- bytes and fits the buffers, `ExecCmdResult` of a command that serializes puts exactly the
  -- command's packet on the stream and gives the result that the bytes to come parse to, or -1 if
  -- they are no result.
  pub exec_cmd_result-reply :
      (fuel : ℕ) (cmd : MsgCmd) (pkg p rest : List ℕ) (s : MsgRw) (w : World)
      → IsWellFormed s
      → codec.serialize_cmd cmd ≡ some pkg
      → 0 < length pkg
      → length pkg < 2 ^ 31
      → 0 < length p
      → length p ≤ max_adm_pkg
      → ¬ Overflows (length p) s
      → stream.inbox w s.sock ≡ packet p ++ rest
      → length pkg + 4 + stream.signals w < fuel
      → length p + 4 + stream.signals w < fuel
      → Returns
          (Exchanged stream s.sock (answer codec type_result codec.parse_result p) pkg rest w)
          (exec_cmd_result os codec fuel cmd s w)
  unfolding exec_cmd_result read_result
  exec_cmd_result-reply fuel cmd pkg p rest s w v ser some_pkg small some_p short no_over e enough
        enough' =
      rw (ser, exec_cmd_result)
        (Returns-bind _ _ (send_complete os stream healthy fuel pkg s w small enough) λ t _ q.
          rw (q.code, positive (length pkg) some_pkg, q.state)
            (Returns-weaken
              (read_message-packet os stream healthy codec type_result not_result codec.parse_result
                fuel p rest (record s { errbuf = q.err }) t.2
                (record {
                  buf_size = v.buf_size;
                  heap_size = v.heap_size;
                  terminated = v.terminated;
                })
                some_p short no_over (q.inbox_kept ∙ e) (omega (arith, q.signals_kept)))
              λ end r. record {
                message_read = r.message_read;
                request_sent = r.outbox_kept ∙ q.in_order;
                next = r.next;
                signals_kept = omega (arith, r.signals_kept, q.signals_kept);
              }))
