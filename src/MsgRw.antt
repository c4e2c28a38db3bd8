-- ===== src/MsgRw.antt =====
-- The class `CMsgRW` of qdcadm/CAdmMsg.h and qdcadm/CAdmMsg.cpp: packets and messages over a socket.
pub mod Messages
pub mod Buffer
pub mod Packets
pub mod Delivery
pub mod Exchange
pub mod Termination
pub mod Channel
pub mod Reply
pub mod Encoding
pub mod Memory
use o2k.Prelude.{
  ℕ, zero, ◌+◌, ◌^◌, ℤ, pos, negsuc, is_neg, not_pos, ◌==ℤ◌, to_int, pos_part, Bool, true, false,
  not, ◌&&◌, List, [], ◌∷◌, length, take, set, tabulate, ltb, leb, ◌==◌, if◌then◌else◌, Option,
  none, some, c_str, codes,
}
use o2k.Outcome.{Outcome, ok, fault, ◌>>=◌}
use o2k.Os.{Os}
use o2k.Socket.{
  ErrText, no_error, invalid_format, size_too_long, not_enough_data, invalid_msg_hdr,
  invalid_msg_bdy, not_cmd, not_result, pack_fail, serialize_fail, overlay, socket_read,
  send_packet, header_of,
}
use o2k.AdminMsg.{
  MsgHeader, MsgHeaderWrap, MsgCmd, MsgResult, PairStrStr, type_command, type_result,
  default_header, default_result, header_or_default, Codec,
}

-- LEN_ADM_PKG and MAX_ADM_PKG
abbrev pub len_adm_pkg : ℕ
len_adm_pkg = 1024

abbrev pub max_adm_pkg : ℕ
max_adm_pkg = 2 ^ 20

-- The fields of the class. `m_msgbuf` points to `m_buf` (`heap` is `none`) or to an array from `new[]`.
pub record MsgRw : Type 0 where
  pub sock : ℤ
  pub errbuf : ErrText
  pub buf : List ℕ
  pub heap : Option (List ℕ)
  pub lenbuf : ℕ
  pub lenmsg : ℕ

-- The array that `m_msgbuf` points to.
abbrev pub msgbuf : MsgRw → List ℕ
msgbuf s = elim s.heap [ none ↦ s.buf | some a ↦ a ]

abbrev pub set_msgbuf : MsgRw → List ℕ → MsgRw
set_msgbuf s mem = elim s.heap [
  | none ↦ record s { buf = mem }
  | some _ ↦ record s { heap = some mem }
]

-- Writes in an array: `n` bytes at its front, and one byte at an index.
unfoldable pub write_front : List ℕ → List ℕ → Outcome (List ℕ)
write_front bs mem = if leb (length bs) (length mem) then ok (overlay bs mem) else fault

unfoldable pub write_at : List ℕ → ℕ → ℕ → Outcome (List ℕ)
write_at mem i v = if ltb i (length mem) then ok (set mem i v) else fault

-- `m_lenbuf > 0 && m_msgbuf != NULL && m_msgbuf != m_buf`, the test before each `delete []`.
unfoldable pub owns_array : MsgRw → Bool
owns_array s = ltb 0 s.lenbuf && elim s.heap [ none ↦ false | some _ ↦ true ]

unfoldable pub clear : MsgRw → Bool → MsgRw
clear s free_buf =
    let s' = record s { lenmsg = 0; errbuf = no_error } in
    if free_buf && owns_array s' then record s' { heap = none; lenbuf = 0 } else s'

module _ {World : Type 0} (os : Os World) where
  -- The constructor.
  unfoldable pub new_msg_rw : ℤ → World → MsgRw
  new_msg_rw sock w = record {
    sock = sock;
    errbuf = no_error;
    buf = set (tabulate (os.junk w) (len_adm_pkg + 2)) 0 0;
    heap = none;
    lenbuf = 0;
    lenmsg = 0;
  }

  -- The array for a payload of `len` bytes: a larger one if the one at hand is too small.
  unfoldable pub make_room : ℕ → World → MsgRw → MsgRw
  make_room len w s =
      if ltb len_adm_pkg len && ltb s.lenbuf len
      then record s { lenbuf = len + 2; heap = some (tabulate (os.junk w) (len + 2)) }
      else s

  -- The payload goes to the front of `m_msgbuf`, with a NUL behind it.
  unfoldable pub read_payload : ℕ → ℕ → MsgRw → World → Outcome (ℤ × MsgRw × World)
  read_payload fuel len s w = do
    (r, w') ← socket_read os fuel s.sock (pos len) s.errbuf w
    mem ← write_front r.bytes (msgbuf s)
    mem' ← write_at mem len 0
    let s' = set_msgbuf s mem'
    if not (r.code ==ℤ pos len)
        then ok (negsuc 0, record s' { errbuf = not_enough_data }, w')
        else ok (r.code, record s' { errbuf = r.err; lenmsg = len }, w')

  -- What `ReadPacket` does with the length from the header.
  unfoldable pub check_length : ℕ → ℤ → MsgRw → World → Outcome (ℤ × MsgRw × World)
  unfolding read_payload
  check_length fuel (negsuc n) s w = ok (negsuc 0, record s { errbuf = invalid_format }, w)
  check_length fuel (pos n) s w =
      if ltb max_adm_pkg n
      then ok (negsuc 0, record s { errbuf = size_too_long n }, w)
      else read_payload fuel n (make_room n w s) w

  -- Nothing is done where the read of the header returns 0, at the end of the stream: the length is
  -- then made of bytes that were not read.
  unfoldable pub read_packet : ℕ → MsgRw → World → Outcome (ℤ × MsgRw × World)
  unfolding check_length clear
  read_packet fuel s w = do
    (h, w') ← socket_read os fuel s.sock (pos 4) no_error w
    let s' = record (clear s false) { errbuf = h.err }
    if is_neg h.code then ok (h.code, s', w') else check_length fuel (header_of os h.bytes w) s' w'

  unfoldable pub send : ℕ → List ℕ → ℤ → MsgRw → World → Outcome (ℤ × MsgRw × World)
  send fuel pkg len s w = do
    (r, w') ← send_packet os fuel s.sock pkg len s.errbuf w
    ok (r.code, record s { errbuf = r.err }, w')

-- `GetPacket`: `none` where it returns false.
unfoldable pub get_packet : MsgRw → Option (List ℕ)
get_packet s = if s.lenmsg == 0 then none else some (take s.lenmsg (msgbuf s))

abbrev pub make_msg_hdr : ℤ → MsgHeader
make_msg_hdr t = record default_header { msg_type = t }

-- `!m.ParseFromString(a) && !m.ParseFromArray(b)`: `none` where both return false.
unfoldable pub parse_either {ℓ} : {A : Type ℓ} → (List ℕ → Option A) → List ℕ → List ℕ → Option A
parse_either parse a b = elim (parse a) [ some m ↦ some m | none ↦ parse b ]

-- The same with `m_msgbuf` and with `m_msgbuf, m_lenmsg`: the conversion of the pointer to a
-- `std::string` ends at the first NUL, and reads outside the array where there is none.
unfoldable pub parse_msgbuf {ℓ} : {A : Type ℓ} → (List ℕ → Option A) → MsgRw → Outcome (Option A)
unfolding parse_either
parse_msgbuf parse s = do
  text ← elim (c_str (msgbuf s)) [ none ↦ fault | some t ↦ ok t ]
  ok (parse_either parse text (take s.lenmsg (msgbuf s)))
