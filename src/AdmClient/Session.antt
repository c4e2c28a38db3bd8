-- ===== src/AdmClient/Session.antt =====
-- `SendCommand` against a server that answers the login with one packet: what it puts on the stream
-- and what it returns.
use o2k.Prelude.{
  ℕ, ◌+◌, ◌^◌, ◌≤◌, ◌<◌, ◌≡◌, ◌≢◌, refl, sym, ap, ◌∙◌, ℤ, pos, negsuc, is_neg, Bool, true, false,
  List, ◌++◌, length, append_assoc, Option, none, some, str_case_eq, length-tabulate, length-set,
  tabulate, arith,
}
use o2k.Outcome.{ok, Returns, Returns-weaken, Returns-bind}
use o2k.Os.{Os, IsStream, IsHealthy}
use o2k.Socket.{ErrText, no_error, not_connected}
use o2k.Socket.Framing.{packet}
use o2k.AdminMsg.{MsgResult, type_result, Codec}
use o2k.StrMap.{StrMap}
use o2k.MsgRw.{MsgRw, new_msg_rw, max_adm_pkg}
use o2k.MsgRw.Buffer.{IsWellFormed, Overflows}
use o2k.MsgRw.Messages.{rc_ok}
use o2k.MsgRw.Exchange.{answer, exec_cmd_result-reply, positive, send_complete}
use o2k.AdmClient.{
  AdmClient, command_msg, login_msg, text_of, judge_login, login, send_logged_in, send_command,
  is_connected, new_adm_client, connect_to,
}

-- A new `CMsgRW` is well-formed, and any packet fits it.
pub new_msg_rw-IsWellFormed :
    {World : Type 0} (os : Os World) (fd : ℤ) (w : World) → IsWellFormed (new_msg_rw os fd w)
unfolding new_msg_rw
new_msg_rw-IsWellFormed os fd w = record {
  buf_size = length-set (tabulate (os.junk w) 1026) 0 0 ∙ length-tabulate (os.junk w) 1026;
  heap_size = refl;
  terminated = λ h. absurd (omega arith);
}

pub not_Overflows-new :
    {World : Type 0} (os : Os World) (fd : ℤ) (w : World) (n : ℕ)
    → ¬ Overflows n (new_msg_rw os fd w)
unfolding new_msg_rw
not_Overflows-new os fd w n h = omega arith

-- Whether the server's answer lets the client in.
abbrev pub accepts : Option MsgResult → Bool
accepts none = false
accepts (some r) = str_case_eq r.rc rc_ok

-- A client with a connected socket.
abbrev pub session : ℕ → List ℕ → ErrText → AdmClient
session fd pwd err = record { sock = pos fd; pwd = pwd; err = err }

-- What a call has put on the stream and taken off it.
pub record Traffic {World : Type 0} {os : Os World} (stream : IsStream os) (fd : ℤ)
    (written rest : List ℕ) (w w' : World) : Type 0 where
  pub request_sent : stream.outbox w' fd ≡ stream.outbox w fd ++ written
  pub next : stream.inbox w' fd ≡ rest
  pub signals_kept : stream.signals w' ≤ stream.signals w

-- The result of a login on which the server's message is `m`.
pub record LoginPost {World : Type 0} {os : Os World} (stream : IsStream os) (c : AdmClient)
    (m : Option MsgResult) (written rest : List ℕ) (w : World) (end : ℤ × AdmClient × World)
    : Type 0 where
  pub reader : MsgRw
  pub code : end.0 ≡ (judge_login m reader c).0
  pub client : end.1 ≡ (judge_login m reader c).1
  pub traffic : Traffic stream c.sock written rest w end.2

module _ {World : Type 0} (os : Os World) (stream : IsStream os) (healthy : IsHealthy os stream)
    (codec : Codec) (fuel fd : ℕ) (pwd lp reply rest : List ℕ) (err : ErrText) (w : World)
    (login_pkg : codec.serialize_cmd (login_msg pwd) ≡ some lp) (lp_some : 0 < length lp)
    (lp_small : length lp < 2 ^ 31) (reply_some : 0 < length reply)
    (reply_small : length reply ≤ max_adm_pkg)
    (to_come : stream.inbox w (pos fd) ≡ packet reply ++ rest)
    (enough : length lp + 4 + stream.signals w < fuel)
    (enough_to_read : length reply + 4 + stream.signals w < fuel) where
  login-reply :
      Returns
        (LoginPost stream
          (session fd pwd err)
          (answer codec type_result codec.parse_result reply)
          (packet lp)
          rest
          w)
        (login os codec fuel (session fd pwd err) w)
  unfolding login is_connected new_msg_rw
  login-reply =
      Returns-bind _ _
        (exec_cmd_result-reply os stream healthy codec fuel (login_msg pwd) lp reply rest
          (new_msg_rw os (pos fd) w) w (new_msg_rw-IsWellFormed os (pos fd) w) login_pkg lp_some
          lp_small reply_some reply_small (not_Overflows-new os (pos fd) w (length reply)) to_come
          enough enough_to_read)
        λ x _ q. record {
          value = (
            (judge_login x.0 x.1 (session fd pwd err)).0,
            (judge_login x.0 x.1 (session fd pwd err)).1,
            x.2,
          );
          ends = refl;
          holds = record {
            reader = x.1;
            code = rw q.message_read refl;
            client = rw q.message_read refl;
            traffic = record {
              request_sent = q.request_sent;
              next = q.next;
              signals_kept = q.signals_kept;
            };
          };
        }

  -- After a login that did not return 0 nothing more is done.
  stopped :
      (m : Option MsgResult) (cmd : List ℕ) (params : StrMap)
      → answer codec type_result codec.parse_result reply ≡ m
      → ((reader : MsgRw) → (judge_login m reader (session fd pwd err)).0 ≡ negsuc 0)
      → Returns
          (λ (end : ℤ × AdmClient × World).
            (end.0 ≡ negsuc 0) × LoginPost stream (session fd pwd err) m (packet lp) rest w end)
          (send_command os codec fuel cmd params (session fd pwd err) w)
  unfolding send_command
  stopped m cmd params a no' = Returns-bind _ _ login-reply λ x _ q.
      let code : x.0 ≡ negsuc 0 = q.code ∙ rw a (no' q.reader) in
      rw code (record {
        value = (negsuc 0, x.1, x.2);
        ends = refl;
        holds = (
          refl,
          record {
            reader = q.reader;
            code = sym code ∙ rw (← a) q.code;
            client = rw (← a) q.client;
            traffic = q.traffic;
          },
        );
      })

  -- Where the server answers the login with a result whose code is not OK, `SendCommand` returns -1
  -- with the server's text as the error text, and only the login has been put on the stream: the
  -- command is not sent.
  pub send_command-refused :
      (cmd : List ℕ) (params : StrMap) (r : MsgResult)
      → answer codec type_result codec.parse_result reply ≡ some r
      → str_case_eq r.rc rc_ok ≡ false
      → Returns
          (λ (end : ℤ × AdmClient × World).
            (end.0 ≡ negsuc 0)
            × (end.1 ≡ session fd pwd (text_of r.msg))
            × Traffic stream (pos fd) (packet lp) rest w end.2)
          (send_command os codec fuel cmd params (session fd pwd err) w)
  unfolding judge_login
  send_command-refused cmd params r a bad =
      Returns-weaken (stopped (some r) cmd params a (λ reader. rw bad))
        λ end q. (q.0, q.1.client ∙ rw bad, q.1.traffic)

  -- Where the server answers the login with bytes that are no result, `SendCommand` returns -1, and
  -- only the login has been put on the stream.
  pub send_command-unanswered :
      (cmd : List ℕ) (params : StrMap)
      → answer codec type_result codec.parse_result reply ≡ none
      → Returns
          (λ (end : ℤ × AdmClient × World).
            (end.0 ≡ negsuc 0) × Traffic stream (pos fd) (packet lp) rest w end.2)
          (send_command os codec fuel cmd params (session fd pwd err) w)
  unfolding judge_login
  send_command-unanswered cmd params a =
      Returns-weaken (stopped none cmd params a (λ reader. refl)) λ end q. (q.0, q.1.traffic)

  -- Where the server answers the login with a result whose code is OK, in whatever case of letters,
  -- `SendCommand` of a command that serializes returns 0, and the packet of the login and then that
  -- of the command have been put on the stream, and nothing else.
  pub send_command-accepted :
      (cmd : List ℕ) (params : StrMap) (r : MsgResult) (pkg : List ℕ)
      → answer codec type_result codec.parse_result reply ≡ some r
      → str_case_eq r.rc rc_ok ≡ true
      → codec.serialize_cmd (command_msg cmd params) ≡ some pkg
      → 0 < length pkg
      → length pkg < 2 ^ 31
      → length pkg + 4 + stream.signals w < fuel
      → Returns
          (λ (end : ℤ × AdmClient × World).
            (end.0 ≡ pos 0)
            × (end.1 ≡ session fd pwd err)
            × Traffic stream (pos fd) (packet lp ++ packet pkg) rest w end.2)
          (send_command os codec fuel cmd params (session fd pwd err) w)
  unfolding send_command judge_login new_msg_rw
  send_command-accepted cmd params r pkg a good ser some_pkg small room =
      Returns-bind _ _ login-reply λ x _ q.
        let code : x.0 ≡ pos 0 = q.code ∙ rw (a, good) refl in
        let client : x.1 ≡ session fd pwd err = q.client ∙ rw (a, good) refl in
        rw (code, client)
          (rw (ser, send_logged_in)
            (Returns-bind _ _
              (send_complete os stream healthy fuel pkg (new_msg_rw os (pos fd) x.2) x.2 small
                (omega (arith, q.traffic.signals_kept)))
              λ t _ z.
                rw (z.code, positive (length pkg) some_pkg)
                  (record {
                    value = (pos 0, session fd pwd err, t.2);
                    ends = refl;
                    holds = (
                      refl,
                      refl,
                      record {
                        request_sent =
                            z.in_order
                            ∙ ap (λ o. o ++ packet pkg) q.traffic.request_sent
                            ∙ append_assoc (stream.outbox w (pos fd)) (packet lp) (packet pkg);
                        next = z.inbox_kept ∙ q.traffic.next;
                        signals_kept = omega (arith, z.signals_kept, q.traffic.signals_kept);
                      },
                    );
                  })))

module _ {World : Type 0} (os : Os World) where
  failed-is_neg :
      (host : List ℕ) (port : ℤ) (pwd : List ℕ) (w : World)
      → (new_adm_client os host port pwd w).0.err ≢ no_error
      → is_neg (new_adm_client os host port pwd w).0.sock ≡ true
  unfolding new_adm_client connect_to
  failed-is_neg host port pwd w failed = ground arith

  disconnected :
      (codec : Codec) (fuel : ℕ) (cmd : List ℕ) (params : StrMap) (c : AdmClient) (w : World)
      → is_neg c.sock ≡ true
      → send_command os codec fuel cmd params c w
        ≡ ok (negsuc 0, record c { err = not_connected }, w)
  unfolding send_command login is_connected
  disconnected codec fuel cmd params c w neg = rw (neg, login)

  -- A client whose constructor has left an error text never uses a socket: each later `SendCommand`
  -- returns -1 with its own error text, and changes nothing outside the client.
  pub failed_client-send_command :
      (codec : Codec) (host : List ℕ) (port : ℤ) (pwd : List ℕ) (w : World)
      → (new_adm_client os host port pwd w).0.err ≢ no_error
      → (fuel : ℕ) (cmd : List ℕ) (params : StrMap) (later : World)
      → send_command os codec fuel cmd params (new_adm_client os host port pwd w).0 later
        ≡ ok (negsuc 0, record (new_adm_client os host port pwd w).0 { err = not_connected }, later)
  failed_client-send_command codec host port pwd w failed fuel cmd params later =
      disconnected codec fuel cmd params _ later (failed-is_neg host port pwd w failed)
