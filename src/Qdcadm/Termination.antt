-- ===== src/Qdcadm/Termination.antt =====
-- That the loop of qdcadm comes to its end, whatever the server sends.
use o2k.Prelude.{
  ℕ, zero, suc, ◌+◌, ◌^◌, ◌≤◌, ◌<◌, ◌≡◌, refl, ap, ℤ, pos, negsuc, is_neg, not_pos, ltℤ, ◌==ℤ◌,
  to_word, ◌%◌, not, List, length, some, if◌then◌else◌, until_nul, Bool-cases, Option-cases, inl,
  inr, arith,
}
use o2k.Outcome.{Returns, Returns-ok, Returns-if, Returns-bind}
use o2k.Os.{Os, IsStream, TimeoutOption, so_sndtimeo, so_rcvtimeo}
use o2k.Socket.{close_socket}
use o2k.AdminMsg.{MsgCmd, Codec}
use o2k.StrMap.{StrMap}
use o2k.MsgRw.{new_msg_rw}
use o2k.MsgRw.Messages.{parse_msg_header}
use o2k.MsgRw.Termination.{
  Fewer, IsFresh, at_hand, send-Returns, exec_cmd_result-Returns, read_packet-Returns_fresh,
}
use o2k.AdmClient.{
  AdmClient, is_connected, command_msg, login_msg, set_timeouts, set_timeout, connect_to,
  new_adm_client, delete_adm_client, login, send_logged_in, send_command,
}
use o2k.AdmClient.Session.{new_msg_rw-IsWellFormed}
use o2k.Qdcadm.{Run, read_answer, execute_on, execute_command, run_loop}
use o2k.Qdcadm.Printing.{parse_packet-Returns, show_message-Returns}

-- Opening, closing and the timeouts of a socket bring no more interruptions.
pub record IsQuiet {World : Type 0} (os : Os World) (stream : IsStream os) : Type 0 where
  pub socket_quiet : (w : World) → stream.signals (os.socket w).1 ≤ stream.signals w
  pub connect_quiet :
      (fd : ℤ) (a p : ℕ) (w : World) → stream.signals (os.connect fd a p w).1 ≤ stream.signals w
  pub set_timeout_quiet :
      (fd : ℤ) (o : TimeoutOption) (s : ℤ) (w : World)
      → stream.signals (os.set_timeout fd o s w).1 ≤ stream.signals w
  pub shutdown_quiet : (fd : ℤ) (w : World) → stream.signals (os.shutdown fd w) ≤ stream.signals w
  pub close_quiet : (fd : ℤ) (w : World) → stream.signals (os.close fd w) ≤ stream.signals w

-- The protobuf library makes no message of 2 GB.
abbrev pub IsBounded : Codec → Type 0
IsBounded codec =
    (m : MsgCmd) (pkg : List ℕ) → codec.serialize_cmd m ≡ some pkg → length pkg < 2 ^ 31

module _ {World : Type 0} (os : Os World) (stream : IsStream os) (quiet : IsQuiet os stream)
    (b : ℕ) where
  abbrev Few : World → Type 0
  Few = Fewer os stream b

  set_timeouts-Few : (fd seconds : ℤ) (w : World) → Few w → Few (set_timeouts os fd seconds w).1
  unfolding set_timeouts
  set_timeouts-Few fd seconds w h = omega (
    arith,
    quiet.set_timeout_quiet fd so_sndtimeo seconds w,
    quiet.set_timeout_quiet fd so_rcvtimeo seconds (os.set_timeout fd so_sndtimeo seconds w).1,
  )

  close_socket-Few : (fd : ℤ) (w : World) → Few w → Few (close_socket os fd w)
  unfolding close_socket
  close_socket-Few fd w h = elim (Bool-cases (fd ==ℤ negsuc 0)) [
    | inl absent ↦ rw absent h
    | inr there ↦
        rw there (omega (arith, quiet.shutdown_quiet fd w, quiet.close_quiet fd (os.shutdown fd w)))
  ]

  connect_to-Few :
      (addr : ℕ) (host : List ℕ) (port : ℤ) (pwd : List ℕ) (w : World)
      → Few w
      → Few (connect_to os addr host port pwd w).1
  unfolding connect_to
  connect_to-Few addr host port pwd w h =
      let fd = (os.socket w).0 in
      let w' = (os.socket w).1 in
      let made = os.connect fd addr (to_word port % 2 ^ 16) w' in
      let opened : Few w' = omega (arith, quiet.socket_quiet w) in
      let tried : Few made.1 =
        omega (arith, opened, quiet.connect_quiet fd addr (to_word port % 2 ^ 16) w') in
      elim (Bool-cases (is_neg fd)) [
        | inl failed ↦ rw failed opened
        | inr good ↦ elim (Bool-cases made.0) [
          | inl connected ↦ rw (good, connected) (set_timeouts-Few fd (pos 5) made.1 tried)
          | inr refused ↦ rw (good, refused) (close_socket-Few fd made.1 tried)
        ]
      ]

  new_adm_client-Few :
      (host : List ℕ) (port : ℤ) (pwd : List ℕ) (w : World)
      → Few w
      → Few (new_adm_client os host port pwd w).1
  unfolding new_adm_client
  new_adm_client-Few host port pwd w h = elim (Option-cases (os.inet_addr (until_nul host))) [
    | inl bad ↦ rw (bad, new_adm_client) h
    | inr (addr, good) ↦ rw (good, new_adm_client) (connect_to-Few addr host port pwd w h)
  ]

  delete_adm_client-Few : (c : AdmClient) (w : World) → Few w → Few (delete_adm_client os c w)
  unfolding delete_adm_client
  delete_adm_client-Few c w h = elim (Bool-cases (is_neg c.sock)) [
    | inl absent ↦ rw absent h
    | inr there ↦ rw there (close_socket-Few c.sock w h)
  ]

  module _ (codec : Codec) (bounded : IsBounded codec) (fuel : ℕ)
      (enough : 2 ^ 31 + 4 + b < fuel) where
    new_msg_rw-IsFresh : (fd : ℤ) (w : World) → IsFresh os stream (new_msg_rw os fd w)
    unfolding new_msg_rw
    new_msg_rw-IsFresh fd w = (new_msg_rw-IsWellFormed os fd w, refl)

    login-Returns :
        (c : AdmClient) (w : World) → Few w → Returns (λ end. Few end.2) (login os codec fuel c w)
    unfolding login
    login-Returns c w h =
        Returns-if (is_connected c) _ _
          (λ _.
            Returns-bind _ _
              (exec_cmd_result-Returns os stream codec fuel (login_msg c.pwd)
                (new_msg_rw os c.sock w) w (new_msg_rw-IsFresh c.sock w) (bounded (login_msg c.pwd))
                (omega arith))
              λ x _ h'. Returns-ok _ (omega (arith, h')))
          (λ _. Returns-ok _ h)

    send_logged_in-Returns :
        (cmd : List ℕ) (params : StrMap) (c : AdmClient) (w : World)
        → Few w
        → Returns (λ end. Few end.2) (send_logged_in os codec fuel cmd params c w)
    unfolding send_logged_in
    send_logged_in-Returns cmd params c w h =
        elim (Option-cases (codec.serialize_cmd (command_msg cmd params))) [
          | inl unmade ↦ rw (unmade, send_logged_in) (Returns-ok _ h)
          | inr (pkg, made) ↦
              rw (made, send_logged_in)
                (let small = bounded (command_msg cmd params) pkg made in
                  Returns-bind _ _
                    (send-Returns os stream codec fuel pkg (new_msg_rw os c.sock w) w small
                      (omega (arith, small)))
                    λ x _ (_, h'). Returns-ok _ (omega (arith, h')))
        ]

    send_command-Returns :
        (cmd : List ℕ) (params : StrMap) (c : AdmClient) (w : World)
        → Few w
        → Returns (λ end. Few end.2) (send_command os codec fuel cmd params c w)
    unfolding send_command
    send_command-Returns cmd params c w h = Returns-bind _ _ (login-Returns c w h) λ x _ h'.
        Returns-if (not (x.0 ==ℤ pos 0)) _ _ (λ _. Returns-ok _ h')
          (λ _. send_logged_in-Returns cmd params x.1 x.2 h')

    read_answer-Returns :
        (cmd : List ℕ) (sock : ℤ) (w : World)
        → Few w
        → Returns (λ end. Few end.1) (read_answer os codec fuel cmd sock w)
    unfolding read_answer parse_msg_header
    read_answer-Returns cmd sock w h =
        let s = new_msg_rw os sock w in
        Returns-bind _ _
          (read_packet-Returns_fresh os stream fuel s w (new_msg_rw-IsFresh sock w) (omega arith))
          λ x _ (p, h').
            Returns-if (not_pos x.0) _ _ (λ _. Returns-ok _ (omega (arith, h')))
              λ good.
                Returns-bind _ _
                  (parse_packet-Returns codec.parse_wrap x.1
                    (p.well_formed, at_hand s.sock x p good))
                  λ hdr _ there.
                    Returns-bind _ _ (show_message-Returns codec cmd hdr.1 hdr.0 there)
                      λ report _ _. Returns-ok _ (omega (arith, h'))

    execute_on-Returns :
        (timeout_s : ℤ) (cmd : List ℕ) (params : StrMap) (c : AdmClient) (w : World)
        → Few w
        → Returns (λ end. Few end.1) (execute_on os codec fuel timeout_s cmd params c w)
    unfolding execute_on set_timeout
    execute_on-Returns timeout_s cmd params c w h =
        let start : Few (if ltℤ (pos 0) timeout_s then (set_timeout os timeout_s c w).1 else w) =
          elim (Bool-cases (ltℤ (pos 0) timeout_s)) [
            | inl set ↦ rw set (set_timeouts-Few c.sock timeout_s w h)
            | inr unset ↦ rw unset h
          ] in
        Returns-bind _ _ (send_command-Returns cmd params c _ start) λ x _ h'.
          Returns-bind {P = λ end. Few end.1} _ _
            (Returns-if (x.0 ==ℤ pos 0) _ _ (λ _. read_answer-Returns cmd x.1.sock x.2 h')
              (λ _. Returns-ok _ h'))
            λ y _ h''. Returns-ok _ (delete_adm_client-Few x.1 y.1 h'')

    execute_command-Returns :
        (host : List ℕ) (port : ℤ) (pwd : List ℕ) (timeout_s : ℤ) (cmd : List ℕ) (params : StrMap)
        (w : World)
        → Few w
        → Returns
            (λ end. Few end.1)
            (execute_command os codec fuel host port pwd timeout_s cmd params w)
    unfolding execute_command
    execute_command-Returns host port pwd timeout_s cmd params w h =
        let c = new_adm_client os host port pwd w in
        let h' = new_adm_client-Few host port pwd w h in
        Returns-if (is_neg c.0.sock) _ _ (λ _. Returns-ok _ (delete_adm_client-Few c.0 c.1 h'))
          (λ _. execute_on-Returns timeout_s cmd params c.0 c.1 h')

    pub run_loop-Few :
        (r : Run) (n : ℕ) (w : World)
        → Few w
        → Returns (λ end. (length end.0 ≡ n) × Few end.1) (run_loop os codec fuel r n w)
    unfolding run_loop
    run_loop-Few r zero w h = Returns-ok _ (refl, h)
    run_loop-Few r (suc n) w h =
        Returns-bind _ _
          (execute_command-Returns r.host r.port r.pwd r.timeout_s r.cmd r.params w h)
          λ x _ h'.
            Returns-bind _ _ (run_loop-Few r n x.1 h')
              λ y _ (count, h''). Returns-ok _ (ap suc count, h'')
