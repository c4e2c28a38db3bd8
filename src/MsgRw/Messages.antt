-- ===== src/MsgRw/Messages.antt =====
-- The methods of `CMsgRW` that parse a message from the packet at hand, read one from the socket,
-- or send one.
use o2k.Prelude.{
  ℕ, ℤ, pos, negsuc, not_pos, ◌==ℤ◌, to_int, List, [], map, length, if◌then◌else◌, ◌==◌, Option,
  none, some, codes,
}
use o2k.Outcome.{Outcome, ok, ◌>>=◌}
use o2k.Os.{Os}
use o2k.Socket.{
  ErrText, invalid_msg_hdr, invalid_msg_bdy, not_cmd, not_result, pack_fail, serialize_fail,
}
use o2k.AdminMsg.{
  MsgHeaderWrap, MsgCmd, MsgResult, PairStrStr, type_command, type_result, default_pair,
  default_result, header_or_default, Codec,
}
use o2k.MsgRw.{MsgRw, read_packet, send, parse_msgbuf, make_msg_hdr}
use o2k.StrMap.{StrMap}

-- RC_OK and RC_ERR
abbrev pub rc_ok : List ℕ
rc_ok = codes "OK"

abbrev pub rc_err : List ℕ
rc_err = codes "error"

-- `add_params` or `add_rt_pairs` for each entry of the map.
abbrev pub pair_of : List ℕ × List ℕ → PairStrStr
pair_of (k, v) = record default_pair { key = k; val = v }

-- What the parsing of the packet at hand leaves: the message, or the error text.
abbrev pub parsed {ℓ} : {A : Type ℓ} → MsgRw → Option A → Option A × MsgRw
parsed s none = (none, record s { errbuf = invalid_msg_bdy })
parsed s (some m) = (some m, s)

-- `ParseMsgHeader`, `ParseCommand` and `ParseResult`, by the parser of the message. `none` stands for
-- the return of -1.
unfoldable pub parse_packet {ℓ} :
    {A : Type ℓ} → (List ℕ → Option A) → MsgRw → Outcome (Option A × MsgRw)
parse_packet parse s =
    if s.lenmsg == 0 then ok (none, s) else (parse_msgbuf parse s >>= λ m. ok (parsed s m))

module _ (codec : Codec) where
  unfoldable pub parse_msg_header : MsgRw → Outcome (Option MsgHeaderWrap × MsgRw)
  unfolding parse_packet
  parse_msg_header = parse_packet codec.parse_wrap

  unfoldable pub parse_command : MsgRw → Outcome (Option MsgCmd × MsgRw)
  unfolding parse_packet
  parse_command = parse_packet codec.parse_cmd

  unfoldable pub parse_result : MsgRw → Outcome (Option MsgResult × MsgRw)
  unfolding parse_packet
  parse_result = parse_packet codec.parse_result

-- What follows the parsing of the header in `ReadCommand` and `ReadResult`.
unfoldable pub check_header {ℓ} :
    {A : Type ℓ}
    → ℤ
    → ErrText
    → (List ℕ → Option A)
    → MsgRw
    → Option MsgHeaderWrap
    → Outcome (Option A × MsgRw)
check_header expected wrong parse s none = ok (none, record s { errbuf = invalid_msg_hdr })
check_header expected wrong parse s (some hdr) =
    if (header_or_default hdr.msg_header).msg_type ==ℤ expected
    then (parse_msgbuf parse s >>= λ m. ok (parsed s m))
    else ok (none, record s { errbuf = wrong })

module _ {World : Type 0} (os : Os World) (codec : Codec) where
  -- The common text of `ReadCommand` and `ReadResult`.
  unfoldable pub read_message {ℓ} :
      {A : Type ℓ}
      → ℤ
      → ErrText
      → (List ℕ → Option A)
      → ℕ
      → MsgRw
      → World
      → Outcome (Option A × MsgRw × World)
  unfolding check_header
  read_message expected wrong parse fuel s w = do
    (rc, s', w') ← read_packet os fuel s w
    if not_pos rc then ok (none, s', w') else do
      hdr ← parse_msgbuf codec.parse_wrap s'
      (m, s'') ← check_header expected wrong parse s' hdr
      ok (m, s'', w')

  unfoldable pub read_command : ℕ → MsgRw → World → Outcome (Option MsgCmd × MsgRw × World)
  unfolding read_message
  read_command = read_message type_command not_cmd codec.parse_cmd

  unfoldable pub read_result : ℕ → MsgRw → World → Outcome (Option MsgResult × MsgRw × World)
  unfolding read_message
  read_result = read_message type_result not_result codec.parse_result

  -- `ReplyResult` with the entries of `apdmsg`; the overload without them sends none. `ReplyOK` and
  -- `ReplyErr` call that with RC_OK and RC_ERR. -1, or 0 where the whole packet was written.
  unfoldable pub reply_result :
      ℕ → List ℕ → List ℕ → StrMap → MsgRw → World → Outcome (ℤ × MsgRw × World)
  reply_result fuel rc msg apdmsg s w =
      let rt = record default_result {
        msg_header = some (make_msg_hdr type_result);
        rc = rc;
        msg = msg;
        rt_pairs = map pair_of apdmsg;
      } in
      elim (codec.serialize_result rt) [
        | none ↦ ok (negsuc 0, record s { errbuf = pack_fail }, w)
        | some pkg ↦ do
          (sent, s', w') ← send os fuel pkg (to_int (length pkg)) s w
          ok (if sent ==ℤ pos (length pkg) then pos 0 else negsuc 0, s', w')
      ]

  unfoldable pub reply_ok : ℕ → List ℕ → MsgRw → World → Outcome (ℤ × MsgRw × World)
  unfolding reply_result
  reply_ok fuel msg = reply_result fuel rc_ok msg []

  unfoldable pub reply_err : ℕ → List ℕ → MsgRw → World → Outcome (ℤ × MsgRw × World)
  unfolding reply_result
  reply_err fuel msg = reply_result fuel rc_err msg []

  -- `none` stands for the return of -1.
  unfoldable pub exec_cmd_result :
      ℕ → MsgCmd → MsgRw → World → Outcome (Option MsgResult × MsgRw × World)
  exec_cmd_result fuel cmd s w = elim (codec.serialize_cmd cmd) [
    | none ↦ ok (none, record s { errbuf = serialize_fail }, w)
    | some pkg ↦ do
      (rc, s', w') ← send os fuel pkg (to_int (length pkg)) s w
      if not_pos rc then ok (none, s', w') else read_result fuel s' w'
  ]
