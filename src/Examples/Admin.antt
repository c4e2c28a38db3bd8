-- ===== src/Examples/Admin.antt =====
-- Sessions of qdcadm against a server whose results are their code as text.
use o2k.Prelude.{
  ℕ, zero, suc, ◌≡◌, refl, ℤ, pos, negsuc, List, [], ◌∷◌, ◌++◌, some, none, Option, arith, codes,
  str_case_eq,
}
use o2k.Outcome.{ok, Returns}
use o2k.Os.{Os}
use o2k.Socket.{no_error, not_connected}
use o2k.Socket.Framing.{packet}
use o2k.AdminMsg.{MsgHeaderWrap, Codec, default_wrap, default_cmd, default_result, type_result}
use o2k.MsgRw.{new_msg_rw, parse_either}
use o2k.MsgRw.Messages.{exec_cmd_result}
use o2k.MsgRw.Exchange.{answer, Exchanged, exec_cmd_result-reply}
use o2k.AdmClient.{AdmClient, login_msg, text_of, new_adm_client, send_command}
use o2k.AdmClient.Session.{
  new_msg_rw-IsWellFormed, not_Overflows-new, session, Traffic, send_command-accepted,
  send_command-refused, failed_client-send_command,
}
use o2k.Examples.Kernel.{Net, net_os, net_stream, net_healthy}

-- No message starts with a 0.
abbrev wrap_of : List ℕ → Option MsgHeaderWrap
wrap_of [] = none
wrap_of (zero ∷ bs) = none
wrap_of (suc b ∷ bs) = some default_wrap

abbrev pub text_codec : Codec
text_codec = record {
  parse_wrap = wrap_of;
  parse_cmd = λ bs. some (record default_cmd { cmd = bs });
  parse_result = λ bs. some (record default_result { rc = bs; msg = bs });
  parse_metrics = λ _. none;
  serialize_cmd = λ m. some m.cmd;
  serialize_result = λ m. some m.rc;
}

-- A server that has answered the login with the text given, on a stream that comes in pieces.
abbrev pub server : List ℕ → Net
server reply = record {
  inbox = packet reply ++ [];
  outbox = [];
  pieces = 3 ∷ 0 ∷ 2 ∷ [];
  error = 0;
}

abbrev pub login_bytes : List ℕ
login_bytes = codes "login"

exec_cmd_result-reply_example :
    Returns
      (Exchanged net_stream
        (pos 3)
        (answer text_codec type_result text_codec.parse_result (codes "ok"))
        login_bytes
        []
        (server (codes "ok")))
      (exec_cmd_result net_os text_codec 40
        (login_msg (codes "pw"))
        (new_msg_rw net_os (pos 3) (server (codes "ok")))
        (server (codes "ok")))
unfolding new_msg_rw
exec_cmd_result-reply_example =
    exec_cmd_result-reply net_os net_stream net_healthy text_codec 40 (login_msg (codes "pw"))
      login_bytes (codes "ok") [] (new_msg_rw net_os (pos 3) (server (codes "ok")))
      (server (codes "ok")) (new_msg_rw-IsWellFormed net_os (pos 3) (server (codes "ok"))) refl
      (omega arith) (omega arith) (omega arith) (omega arith)
      (not_Overflows-new net_os (pos 3) (server (codes "ok")) 2) refl (omega arith) (omega arith)

send_command-accepted_example :
    Returns
      (λ (end : ℤ × AdmClient × Net).
        (end.0 ≡ pos 0)
        × (end.1 ≡ session 3 (codes "pw") no_error)
        × Traffic net_stream
            (pos 3)
            (packet login_bytes ++ packet (codes "list"))
            []
            (server (codes "ok"))
            end.2)
      (send_command net_os text_codec 40
        (codes "list")
        []
        (session 3 (codes "pw") no_error)
        (server (codes "ok")))
unfolding parse_either str_case_eq
send_command-accepted_example =
    send_command-accepted net_os net_stream net_healthy text_codec 40 3 (codes "pw") login_bytes
      (codes "ok") [] no_error (server (codes "ok")) refl (omega arith) (omega arith) (omega arith)
      (omega arith) refl (omega arith) (omega arith) (codes "list") []
      (record default_result { rc = codes "ok"; msg = codes "ok" }) (codes "list") refl refl refl
      (omega arith) (omega arith) (omega arith)

send_command-refused_example :
    Returns
      (λ (end : ℤ × AdmClient × Net).
        (end.0 ≡ negsuc 0)
        × (end.1 ≡ session 3 (codes "pw") (text_of (codes "no")))
        × Traffic net_stream (pos 3) (packet login_bytes) [] (server (codes "no")) end.2)
      (send_command net_os text_codec 40
        (codes "list")
        []
        (session 3 (codes "pw") no_error)
        (server (codes "no")))
unfolding parse_either str_case_eq
send_command-refused_example =
    send_command-refused net_os net_stream net_healthy text_codec 40 3 (codes "pw") login_bytes
      (codes "no") [] no_error (server (codes "no")) refl (omega arith) (omega arith) (omega arith)
      (omega arith) refl (omega arith) (omega arith) (codes "list") []
      (record default_result { rc = codes "no"; msg = codes "no" }) refl refl

-- A system whose `inet_addr` refuses every text.
abbrev no_address_os : Os Net
no_address_os = record net_os { inet_addr = λ _. none }

abbrev unconnected : AdmClient
unconnected = (new_adm_client no_address_os (codes "nowhere") (pos 9876) (codes "pw") (server [])).0

failed_client-send_command_example :
    send_command no_address_os text_codec 40 (codes "list") [] unconnected (server (codes "ok"))
    ≡ ok (negsuc 0, record unconnected { err = not_connected }, server (codes "ok"))
unfolding new_adm_client
failed_client-send_command_example =
    failed_client-send_command no_address_os text_codec (codes "nowhere") (pos 9876) (codes "pw")
      (server []) (λ e. cc) 40 (codes "list") [] (server (codes "ok"))
