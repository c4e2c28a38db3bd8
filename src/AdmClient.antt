-- ===== src/AdmClient.antt =====
-- The class `CAdmClient` of qdcadm/CAdmClient.h and qdcadm/CAdmClient.cpp: a session with the
-- administration server.
pub mod Session
use o2k.Prelude.{
  ℕ, ◌%◌, ◌^◌, ℤ, pos, negsuc, is_neg, not_pos, ◌==ℤ◌, ◌+ℤ◌, to_int, to_word, Bool, true, false,
  not, List, [], ◌∷◌, length, take, map, if◌then◌else◌, Option, none, some, until_nul, codes,
  str_case_eq,
}
use o2k.Outcome.{Outcome, ok, ◌>>=◌}
use o2k.Os.{Os, so_sndtimeo, so_rcvtimeo}
use o2k.Socket.{
  ErrText, no_error, bad_ip_address, no_socket, no_connection, not_connected, serialize_fail,
  server_text, close_socket,
}
use o2k.AdminMsg.{MsgCmd, MsgResult, type_command, default_cmd, Codec}
use o2k.StrMap.{StrMap}
use o2k.MsgRw.{MsgRw, new_msg_rw, make_msg_hdr, send}
use o2k.MsgRw.Messages.{pair_of, rc_ok, exec_cmd_result}

pub record AdmClient : Type 0 where
  pub sock : ℤ
  pub pwd : List ℕ
  pub err : ErrText

unfoldable pub is_connected : AdmClient → Bool
is_connected c = not (is_neg c.sock)

-- The command messages that `Login` and `SendCommand` build.
abbrev pub command_msg : List ℕ → StrMap → MsgCmd
command_msg cmd params = record default_cmd {
  msg_header = some (make_msg_hdr type_command);
  cmd = cmd;
  params = map pair_of params;
}

abbrev pub login_msg : List ℕ → MsgCmd
login_msg pwd = command_msg (codes "login") ((codes "password", pwd) ∷ [])

-- `snprintf(m_err, LEN_ERR_MSG, "%s", msg.c_str())`
abbrev pub text_of : List ℕ → ErrText
text_of msg = server_text (take 511 (until_nul msg))

module _ {World : Type 0} (os : Os World) where
  -- Both options of a timeout, with the sum of what the two calls return.
  unfoldable pub set_timeouts : ℤ → ℤ → World → ℤ × World
  set_timeouts sock seconds w =
      let (a, w') = os.set_timeout sock so_sndtimeo seconds w in
      let (b, w'') = os.set_timeout sock so_rcvtimeo seconds w' in (a +ℤ b, w'')

  unfoldable pub set_timeout : ℤ → AdmClient → World → Bool × World
  unfolding set_timeouts
  set_timeout seconds c w = let (rc, w') = set_timeouts c.sock seconds w in (rc ==ℤ pos 0, w')

  -- What follows the test of the address in the constructor.
  unfoldable pub connect_to : ℕ → List ℕ → ℤ → List ℕ → World → AdmClient × World
  unfolding set_timeouts close_socket
  connect_to addr host port pwd w =
      let (fd, w') = os.socket w in
      let (made, w'') = os.connect fd addr (to_word port % 2 ^ 16) w' in
      if is_neg fd
      then (record { sock = fd; pwd = pwd; err = no_socket (os.errno w') }, w')
      else if made
      then (record { sock = fd; pwd = pwd; err = no_error }, (set_timeouts fd (pos 5) w'').1)
      else (
        record { sock = negsuc 0; pwd = pwd; err = no_connection host port (os.errno w'') },
        close_socket os fd w'',
      )

  -- The constructor.
  unfoldable pub new_adm_client : List ℕ → ℤ → List ℕ → World → AdmClient × World
  unfolding connect_to
  new_adm_client host port pwd w = elim (os.inet_addr (until_nul host)) [
    | none ↦ (record { sock = negsuc 0; pwd = pwd; err = bad_ip_address host }, w)
    | some addr ↦ connect_to addr host port pwd w
  ]

  -- The destructor.
  unfoldable pub delete_adm_client : AdmClient → World → World
  unfolding close_socket
  delete_adm_client c w = if is_neg c.sock then w else close_socket os c.sock w

-- What `Login` makes of the exchange; `rw` is the `CMsgRW` of the call.
unfoldable pub judge_login : Option MsgResult → MsgRw → AdmClient → ℤ × AdmClient
judge_login none rw' c = (negsuc 0, record c { err = rw'.errbuf })
judge_login (some r) rw' c =
    if str_case_eq r.rc rc_ok then (pos 0, c) else (negsuc 0, record c { err = text_of r.msg })

module _ {World : Type 0} (os : Os World) (codec : Codec) where
  unfoldable pub login : ℕ → AdmClient → World → Outcome (ℤ × AdmClient × World)
  unfolding is_connected judge_login
  login fuel c w =
      if is_connected c
      then (exec_cmd_result os codec fuel (login_msg c.pwd) (new_msg_rw os c.sock w) w
          >>= λ (m, rw', w'). let (rc, c') = judge_login m rw' c in ok (rc, c', w'))
      else ok (negsuc 0, record c { err = not_connected }, w)

  -- What `SendCommand` does after a login that returned 0.
  unfoldable pub send_logged_in :
      ℕ → List ℕ → StrMap → AdmClient → World → Outcome (ℤ × AdmClient × World)
  send_logged_in fuel cmd params c w = elim (codec.serialize_cmd (command_msg cmd params)) [
    | none ↦ ok (negsuc 0, record c { err = serialize_fail }, w)
    | some pkg ↦ do
      (rc, rw', w') ← send os fuel pkg (to_int (length pkg)) (new_msg_rw os c.sock w) w
      ok (if not_pos rc then negsuc 0 else pos 0, c, w')
  ]

  unfoldable pub send_command :
      ℕ → List ℕ → StrMap → AdmClient → World → Outcome (ℤ × AdmClient × World)
  unfolding send_logged_in
  send_command fuel cmd params c w = do
    (rc, c', w') ← login fuel c w
    if not (rc ==ℤ pos 0) then ok (rc, c', w') else send_logged_in fuel cmd params c' w'
