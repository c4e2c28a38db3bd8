-- ===== src/Descriptors/Sessions.antt =====
-- `ExecuteCommand` closes what it has opened.
use o2k.Prelude.{
  ℕ, zero, suc, ◌≡◌, refl, sym, subst, ℤ, pos, is_neg, not_pos, ltℤ, ◌==ℤ◌, to_int, not, List,
  length, Option, none, some, if◌then◌else◌, Option-cases, Bool-cases, inl, inr, str_case_eq,
}
use o2k.Outcome.{Ensures, Ensures-bind, Ensures-if}
use o2k.Os.{Os}
use o2k.AdminMsg.{MsgResult, Codec}
use o2k.StrMap.{StrMap}
use o2k.MsgRw.{MsgRw, new_msg_rw}
use o2k.MsgRw.Messages.{rc_ok, parse_msg_header}
use o2k.AdmClient.{
  AdmClient, is_connected, command_msg, login_msg, set_timeout, new_adm_client, judge_login, login,
  send_logged_in, send_command,
}
use o2k.Qdcadm.{Run, show_message, read_answer, execute_on, execute_command, run_loop}
use o2k.Descriptors.{TracksOpen, Open, open_kept}
use o2k.Keeping.Messages.{Ensures-any, Kept, read_packet-Kept, send-Kept, exec_cmd_result-Kept}
use o2k.Descriptors.Clients.{
  set_timeouts-Open, with_socket, new_adm_client-Open, delete_adm_client-Open,
}

module _ {World : Type 0} (os : Os World) (tracks : TracksOpen os) where
  module _ (codec : Codec) (fds : List ℤ) where
    -- A call of the client's keeps its socket, and what is open.
    abbrev SessionKept : ℤ → ℤ × AdmClient × World → Type 0
    SessionKept sock end = (end.1.sock ≡ sock) × Open os tracks fds end.2

    judge_login_sock :
        (m : Option MsgResult) (r : MsgRw) (c : AdmClient) → (judge_login m r c).1.sock ≡ c.sock
    unfolding judge_login
    judge_login_sock none r c = refl
    judge_login_sock (some m) r c = elim (Bool-cases (str_case_eq m.rc rc_ok)) [
      | inl good ↦ rw good refl
      | inr bad ↦ rw bad refl
    ]

    login-SessionKept :
        (fuel : ℕ) (c : AdmClient) (w : World)
        → Open os tracks fds w
        → Ensures (SessionKept c.sock) (login os codec fuel c w)
    unfolding login
    login-SessionKept fuel c w h =
        Ensures-if (SessionKept c.sock) (is_connected c) _ _
          (Ensures-bind (Kept os (Open os tracks fds) (open_kept os tracks fds))
            (SessionKept c.sock) _ _
            (exec_cmd_result-Kept os (Open os tracks fds) (open_kept os tracks fds) codec fuel
              (login_msg c.pwd) (new_msg_rw os c.sock w) w h)
            λ x h'. (judge_login_sock x.0 x.1 c, h'))
          (refl, h)

    send_logged_in-SessionKept :
        (fuel : ℕ) (cmd : List ℕ) (params : StrMap) (c : AdmClient) (w : World)
        → Open os tracks fds w
        → Ensures (SessionKept c.sock) (send_logged_in os codec fuel cmd params c w)
    unfolding send_logged_in
    send_logged_in-SessionKept fuel cmd params c w h =
        elim (Option-cases (codec.serialize_cmd (command_msg cmd params))) [
          | inl unmade ↦ rw (unmade, Ensures) (refl, h)
          | inr (pkg, made) ↦
              rw (made, Ensures)
                (Ensures-bind (Kept os (Open os tracks fds) (open_kept os tracks fds))
                  (SessionKept c.sock) _ _
                  (send-Kept os (Open os tracks fds) (open_kept os tracks fds) fuel pkg
                    (to_int (length pkg)) (new_msg_rw os c.sock w) w h)
                  λ x h'. (refl, h'))
        ]

    send_command-SessionKept :
        (fuel : ℕ) (cmd : List ℕ) (params : StrMap) (c : AdmClient) (w : World)
        → Open os tracks fds w
        → Ensures (SessionKept c.sock) (send_command os codec fuel cmd params c w)
    unfolding send_command
    send_command-SessionKept fuel cmd params c w h =
        Ensures-bind (SessionKept c.sock) (SessionKept c.sock) _ _ (login-SessionKept fuel c w h)
          λ x h'. Ensures-if (SessionKept c.sock) (not (x.0 ==ℤ pos 0)) _ _ h' (
            subst
              (λ sock. Ensures (SessionKept sock) (send_logged_in os codec fuel cmd params x.1 x.2))
              h'.0 (send_logged_in-SessionKept fuel cmd params x.1 x.2 h'.1))

    read_answer-Open :
        (fuel : ℕ) (cmd : List ℕ) (sock : ℤ) (w : World)
        → Open os tracks fds w
        → Ensures (λ end. Open os tracks fds end.1) (read_answer os codec fuel cmd sock w)
    unfolding read_answer
    read_answer-Open fuel cmd sock w h =
        Ensures-bind (Kept os (Open os tracks fds) (open_kept os tracks fds))
          (λ end. Open os tracks fds end.1) _ _
          (read_packet-Kept os (Open os tracks fds) (open_kept os tracks fds) fuel
            (new_msg_rw os sock w) w h)
          λ x h'.
            Ensures-if (λ end. Open os tracks fds end.1) (not_pos x.0) _ _ h'
              (Ensures-any (λ end. Open os tracks fds end.1) (parse_msg_header codec x.1) _
                λ hdr.
                  Ensures-any (λ end. Open os tracks fds end.1) (show_message codec cmd hdr.1 hdr.0)
                    _ λ report. h')

  module _ (codec : Codec) where
    execute_on-Open :
        (fds : List ℤ) (fuel : ℕ) (timeout_s : ℤ) (cmd : List ℕ) (params : StrMap) (c : AdmClient)
        (w : World)
        → Open os tracks (with_socket os tracks fds c.sock) w
        → Ensures
            (λ end. Open os tracks fds end.1)
            (execute_on os codec fuel timeout_s cmd params c w)
    unfolding execute_on set_timeout
    execute_on-Open fds fuel timeout_s cmd params c w h =
        let more = with_socket os tracks fds c.sock in
        let start : Open os tracks more
            (if ltℤ (pos 0) timeout_s then (set_timeout os timeout_s c w).1 else w) =
          elim (Bool-cases (ltℤ (pos 0) timeout_s)) [
            | inl set ↦ rw set (set_timeouts-Open os tracks more c.sock timeout_s w h)
            | inr unset ↦ rw unset h
          ] in
        Ensures-bind (SessionKept codec more c.sock) (λ end. Open os tracks fds end.1) _ _
          (send_command-SessionKept codec more fuel cmd params c _ start)
          λ x h'.
            Ensures-bind (λ end. Open os tracks more end.1) (λ end. Open os tracks fds end.1) _ _
              (Ensures-if (λ end. Open os tracks more end.1) (x.0 ==ℤ pos 0) _ _
                (read_answer-Open codec more fuel cmd x.1.sock x.2 h'.1) h'.1)
              λ y h''.
                delete_adm_client-Open os tracks fds x.1 y.1 (
                  subst (λ sock. Open os tracks (with_socket os tracks fds sock) y.1) (sym h'.0)
                    h'')

    execute_command-Open :
        (fds : List ℤ) (fuel : ℕ) (host : List ℕ) (port : ℤ) (pwd : List ℕ) (timeout_s : ℤ)
        (cmd : List ℕ) (params : StrMap) (w : World)
        → Open os tracks fds w
        → Ensures
            (λ end. Open os tracks fds end.1)
            (execute_command os codec fuel host port pwd timeout_s cmd params w)
    unfolding execute_command
    execute_command-Open fds fuel host port pwd timeout_s cmd params w h =
        let c = new_adm_client os host port pwd w in
        let h' = new_adm_client-Open os tracks fds host port pwd w h in
        Ensures-if (λ end. Open os tracks fds end.1) (is_neg c.0.sock) _ _
          (delete_adm_client-Open os tracks fds c.0 c.1 h')
          (execute_on-Open fds fuel timeout_s cmd params c.0 c.1 h')

    -- The loop of `main` closes every descriptor that it opens: where it comes to its end, whatever the
    -- server and the system have answered in it, the descriptors that are open are those that were open
    -- before.
    pub run_loop-Open :
        (fds : List ℤ) (fuel : ℕ) (r : Run) (n : ℕ) (w : World)
        → Open os tracks fds w
        → Ensures (λ end. Open os tracks fds end.1) (run_loop os codec fuel r n w)
    unfolding run_loop
    run_loop-Open fds fuel r zero w h = h
    run_loop-Open fds fuel r (suc n) w h =
        Ensures-bind (λ end. Open os tracks fds end.1) (λ end. Open os tracks fds end.1) _ _
          (execute_command-Open fds fuel r.host r.port r.pwd r.timeout_s r.cmd r.params w h)
          λ x h'.
            Ensures-bind (λ end. Open os tracks fds end.1) (λ end. Open os tracks fds end.1) _ _
              (run_loop-Open fds fuel r n x.1 h') λ y h''. h''
