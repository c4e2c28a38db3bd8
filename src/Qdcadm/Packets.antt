-- ===== src/Qdcadm/Packets.antt =====
-- What `ExecuteCommand` reports of a packet from the server, by the bytes of the packet alone.
use o2k.Prelude.{
  ℕ, ◌+◌, ◌^◌, ◌≤◌, ◌<◌, ◌≡◌, refl, inl, inr, ℤ, pos, ltℤ, ◌==◌, ◌==ℤ◌, true, false, List, [], ◌∷◌,
  ◌++◌, map, length, Option, none, some, str_case_eq, codes, until_nul, c_str-append_nul,
  if◌then◌else◌, Bool-cases, Option-cases, arith,
}
use o2k.Outcome.{ok, Returns, Returns-ok, Returns-bind}
use o2k.Os.{Os, IsStream, IsHealthy}
use o2k.Socket.{ErrText, invalid_msg_bdy}
use o2k.Socket.Framing.{packet}
use o2k.AdminMsg.{MsgHeaderWrap, MsgResult, MsgMetrics, type_result, header_or_default, Codec}
use o2k.StrMap.{StrMap}
use o2k.MsgRw.{MsgRw, max_adm_pkg, new_msg_rw}
use o2k.MsgRw.Delivery.{read_packet-packet}
use o2k.MsgRw.Messages.{rc_ok, parsed, parse_packet, parse_msg_header, parse_result}
use o2k.MsgRw.Exchange.{
  parse_text, answer, AtHand, Delivered-AtHand, parse_msgbuf-AtHand, get_packet-AtHand, positive,
}
use o2k.AdmClient.{login_msg, command_msg, set_timeout}
use o2k.AdmClient.Session.{
  session, new_msg_rw-IsWellFormed, not_Overflows-new, send_command-accepted,
}
use o2k.Qdcadm.{
  Report, refused, succeeded, parse_header_fail, parse_result_fail, pair_line, metrics_report,
  after_lines, show_body, show_more, show_result, show_message, read_answer, execute_on,
}

-- Metrics are looked for in the whole packet first, and then in the bytes before its first NUL.
abbrev pub metrics_of : Codec → List ℕ → Option MsgMetrics
metrics_of codec p = elim (codec.parse_metrics p) [
  | some m ↦ some m
  | none ↦ codec.parse_metrics (until_nul p)
]

abbrev pub more_report : Codec → List ℕ → List ℕ → Report
more_report codec cmd p =
    if str_case_eq cmd (codes "get_metrics")
    then metrics_report (metrics_of codec p)
    else (pos 0, [])

abbrev pub result_report : Codec → List ℕ → List ℕ → Option MsgResult → Report
result_report codec cmd p none = (pos 1, parse_result_fail invalid_msg_bdy ∷ [])
result_report codec cmd p (some r) =
    if str_case_eq r.rc rc_ok
    then after_lines (succeeded r.msg ∷ map pair_line r.rt_pairs) (more_report codec cmd p)
    else (pos 1, refused r.msg ∷ [])

abbrev pub header_report : Codec → List ℕ → List ℕ → Option MsgHeaderWrap → Report
header_report codec cmd p none = (pos 1, parse_header_fail invalid_msg_bdy ∷ [])
header_report codec cmd p (some hdr) =
    if (header_or_default hdr.msg_header).msg_type ==ℤ type_result
    then result_report codec cmd p (parse_text codec.parse_result p)
    else more_report codec cmd p

abbrev pub packet_report : Codec → List ℕ → List ℕ → Report
packet_report codec cmd p = header_report codec cmd p (parse_text codec.parse_wrap p)

-- With a packet at hand its parse is that of its bytes.
parse_packet-AtHand {ℓ} :
    {A : Type ℓ} (parse : List ℕ → Option A) (p : List ℕ) (s : MsgRw)
    → AtHand p s
    → 0 < length p
    → parse_packet parse s ≡ ok (parsed s (parse_text parse p))
unfolding parse_packet
parse_packet-AtHand parse p s h some_bytes =
    let there : (s.lenmsg == 0) ≡ false = ground (arith, h.lenmsg) in
    rw (there, parse_msgbuf-AtHand parse p s h) refl

module _ (codec : Codec) (cmd p : List ℕ) (s : MsgRw) (h : AtHand p s)
    (some_bytes : 0 < length p) where
  show_body-AtHand : show_body codec s (some p) ≡ ok (metrics_report (metrics_of codec p))
  unfolding show_body
  show_body-AtHand = elim (Option-cases (codec.parse_metrics p)) [
    | inr (m, good) ↦ rw (good, show_body, metrics_of) refl
    | inl bad ↦ rw (bad, show_body, h.message, c_str-append_nul p h.behind, metrics_of) refl
  ]

  show_more-AtHand : show_more codec cmd s ≡ ok (more_report codec cmd p)
  unfolding show_more
  show_more-AtHand = elim (Bool-cases (str_case_eq cmd (codes "get_metrics"))) [
    | inl metrics ↦ rw (metrics, get_packet-AtHand p s h some_bytes) show_body-AtHand
    | inr plain ↦ rw plain refl
  ]

  show_result-AtHand :
      (m : Option MsgResult)
      → show_result codec cmd (parsed s m).1 (parsed s m).0 ≡ ok (result_report codec cmd p m)
  unfolding show_result
  show_result-AtHand none = refl
  show_result-AtHand (some r) = elim (Bool-cases (str_case_eq r.rc rc_ok)) [
    | inl good ↦ rw (good, show_more-AtHand) refl
    | inr bad ↦ rw bad refl
  ]

  show_message-AtHand :
      (hdr : Option MsgHeaderWrap)
      → show_message codec cmd (parsed s hdr).1 (parsed s hdr).0
        ≡ ok (header_report codec cmd p hdr)
  unfolding show_message parse_result
  show_message-AtHand none = refl
  show_message-AtHand (some hdr) =
      elim (Bool-cases ((header_or_default hdr.msg_header).msg_type ==ℤ type_result)) [
        | inl right ↦
            rw (right, parse_packet-AtHand codec.parse_result p s h some_bytes)
              (show_result-AtHand (parse_text codec.parse_result p))
        | inr other ↦ rw other show_more-AtHand
      ]

module _ {World : Type 0} (os : Os World) (stream : IsStream os) (healthy : IsHealthy os stream)
    (codec : Codec) (fuel fd : ℕ) (cmd result rest' : List ℕ) (some_result : 0 < length result)
    (short_result : length result ≤ max_adm_pkg) where
  read_answer-packet_report :
      (w : World)
      → stream.inbox w (pos fd) ≡ packet result ++ rest'
      → length result + 4 + stream.signals w < fuel
      → Returns
          (λ end. end.0 ≡ packet_report codec cmd result)
          (read_answer os codec fuel cmd (pos fd) w)
  unfolding read_answer parse_msg_header new_msg_rw
  read_answer-packet_report w to_come enough =
      Returns-bind _ _
        (read_packet-packet os stream healthy fuel result rest' (new_msg_rw os (pos fd) w) w
          (new_msg_rw-IsWellFormed os (pos fd) w) short_result
          (not_Overflows-new os (pos fd) w (length result)) to_come enough)
        λ x _ d.
          let h : AtHand result x.1 = Delivered-AtHand d in
          rw
            (
              d.code,
              positive (length result) some_result,
              parse_packet-AtHand codec.parse_wrap result x.1 h some_result,
              show_message-AtHand codec cmd result x.1 h some_result
                  (parse_text codec.parse_wrap result),
            )
            (Returns-ok _ refl)

  -- Where `ExecuteCommand` has a connected client and, its timeout being set, the server lets the client
  -- in and answers the command with a packet of some bytes: it returns and prints what `packet_report`
  -- says of the command and these bytes alone, be they a result of either kind, metrics, another
  -- message or none at all, however the packet comes in.
  pub execute_on-packet_report :
      (pwd lp reply : List ℕ) (err : ErrText) (w start : World) (timeout_s : ℤ) (params : StrMap)
      (r0 : MsgResult) (pkg : List ℕ)
      → (if ltℤ (pos 0) timeout_s then (set_timeout os timeout_s (session fd pwd err) w).1 else w)
        ≡ start
      → codec.serialize_cmd (login_msg pwd) ≡ some lp
      → 0 < length lp
      → length lp < 2 ^ 31
      → 0 < length reply
      → length reply ≤ max_adm_pkg
      → stream.inbox start (pos fd) ≡ packet reply ++ (packet result ++ rest')
      → length lp + 4 + stream.signals start < fuel
      → length reply + 4 + stream.signals start < fuel
      → answer codec type_result codec.parse_result reply ≡ some r0
      → str_case_eq r0.rc rc_ok ≡ true
      → codec.serialize_cmd (command_msg cmd params) ≡ some pkg
      → 0 < length pkg
      → length pkg < 2 ^ 31
      → length pkg + 4 + stream.signals start < fuel
      → length result + 4 + stream.signals start < fuel
      → Returns
          (λ (end : Report × World). end.0 ≡ packet_report codec cmd result)
          (execute_on os codec fuel timeout_s cmd params (session fd pwd err) w)
  unfolding execute_on
  execute_on-packet_report pwd lp reply err w start timeout_s params r0 pkg begun ser some_lp small
        some_reply short to_come enough enough' a good made some_pkg small' room room' =
      rw begun (
        Returns-bind _ _
          (send_command-accepted os stream healthy codec fuel fd pwd lp reply
            (packet result ++ rest') err start ser some_lp small some_reply short to_come enough
            enough' cmd params r0 pkg a good made some_pkg small' room)
          λ x _ q.
            rw (q.0, q.1)
              (Returns-bind _ _
                (read_answer-packet_report x.2 q.2.next (omega (arith, q.2.signals_kept)))
                λ y _ e. Returns-ok _ e))
