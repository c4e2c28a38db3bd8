-- ===== src/Qdcadm/Reports.antt =====
-- What `ExecuteCommand` reports of a session.
use o2k.Prelude.{
  ℕ, ◌+◌, ◌^◌, ◌≤◌, ◌<◌, ◌≡◌, refl, ℤ, pos, ltℤ, false, List, [], ◌∷◌, ◌++◌, length, some,
  str_case_eq, if◌then◌else◌,
}
use o2k.Outcome.{Returns, Returns-bind}
use o2k.Os.{Os, IsStream, IsHealthy}
use o2k.Socket.{ErrText}
use o2k.Socket.Framing.{packet}
use o2k.AdminMsg.{MsgResult, type_result, Codec}
use o2k.StrMap.{StrMap}
use o2k.MsgRw.{max_adm_pkg}
use o2k.MsgRw.Messages.{rc_ok}
use o2k.MsgRw.Exchange.{answer}
use o2k.AdmClient.{login_msg, text_of, set_timeout, delete_adm_client}
use o2k.AdmClient.Session.{session, send_command-refused}
use o2k.Qdcadm.{Report, send_fail, execute_on}

-- Where `ExecuteCommand` has a connected client and, its timeout being set, the server answers the
-- login with a result whose code is not OK, it prints the server's text as the reason why the
-- command was not sent, and returns 1.
pub execute_on-refused :
    {World : Type 0} (os : Os World) (stream : IsStream os) (healthy : IsHealthy os stream)
    (codec : Codec) (fuel fd : ℕ) (pwd lp reply rest : List ℕ) (err : ErrText) (w start : World)
    (timeout_s : ℤ) (cmd : List ℕ) (params : StrMap) (r : MsgResult)
    → (if ltℤ (pos 0) timeout_s then (set_timeout os timeout_s (session fd pwd err) w).1 else w)
      ≡ start
    → codec.serialize_cmd (login_msg pwd) ≡ some lp
    → 0 < length lp
    → length lp < 2 ^ 31
    → 0 < length reply
    → length reply ≤ max_adm_pkg
    → stream.inbox start (pos fd) ≡ packet reply ++ rest
    → length lp + 4 + stream.signals start < fuel
    → length reply + 4 + stream.signals start < fuel
    → answer codec type_result codec.parse_result reply ≡ some r
    → str_case_eq r.rc rc_ok ≡ false
    → Returns
        (λ (end : Report × World). end.0 ≡ (pos 1, send_fail (text_of r.msg) ∷ []))
        (execute_on os codec fuel timeout_s cmd params (session fd pwd err) w)
unfolding execute_on
execute_on-refused os stream healthy codec fuel fd pwd lp reply rest err w start timeout_s cmd
      params r begun ser some_lp small some_reply short to_come enough enough' a bad =
    rw begun (
      Returns-bind _ _
        (send_command-refused os stream healthy codec fuel fd pwd lp reply rest err start ser
          some_lp small some_reply short to_come enough enough' cmd params r a bad)
        λ x _ q.
          rw (q.0, q.1)
            (record {
              value = (
                (pos 1, send_fail (text_of r.msg) ∷ []),
                delete_adm_client os (session fd pwd (text_of r.msg)) x.2,
              );
              ends = refl;
              holds = refl;
            }))
