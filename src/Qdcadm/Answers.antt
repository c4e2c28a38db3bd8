-- ===== src/Qdcadm/Answers.antt =====
-- What `ExecuteCommand` reports of the answer to a command that was sent.
use o2k.Prelude.{
  ℕ, ◌+◌, ◌^◌, ◌≤◌, ◌<◌, ◌≡◌, refl, ap, ◌∙◌, inl, inr, ℤ, pos, ltℤ, ◌==ℤ◌, true, false, List, [],
  ◌∷◌, ◌++◌, map, append-nil, length, some, str_case_eq, codes, if◌then◌else◌, Bool-cases,
  Option-cases,
}
use o2k.Outcome.{Returns, Returns-weaken}
use o2k.Os.{Os, IsStream, IsHealthy}
use o2k.Socket.{ErrText}
use o2k.Socket.Framing.{packet}
use o2k.AdminMsg.{MsgHeaderWrap, MsgResult, type_result, header_or_default, Codec}
use o2k.StrMap.{StrMap}
use o2k.MsgRw.{max_adm_pkg}
use o2k.MsgRw.Messages.{rc_ok}
use o2k.MsgRw.Exchange.{parse_text, answer}
use o2k.AdmClient.{login_msg, command_msg, set_timeout}
use o2k.AdmClient.Session.{session}
use o2k.Qdcadm.Packets.{packet_report, execute_on-packet_report}
use o2k.Qdcadm.{Report, refused, succeeded, pair_line, execute_on}

-- The report of a result.
abbrev pub result_report : MsgResult → Report
result_report r =
    if str_case_eq r.rc rc_ok
    then (pos 0, succeeded r.msg ∷ map pair_line r.rt_pairs)
    else (pos 1, refused r.msg ∷ [])

-- What an answer has in it.
answer-some :
    (codec : Codec) (p : List ℕ) (r : MsgResult)
    → answer codec type_result codec.parse_result p ≡ some r
    → (hdr : MsgHeaderWrap) × (parse_text codec.parse_wrap p ≡ some hdr)
      × (((header_or_default hdr.msg_header).msg_type ==ℤ type_result) ≡ true)
      × (parse_text codec.parse_result p ≡ some r)
answer-some codec p r e = elim (Option-cases (parse_text codec.parse_wrap p)) [
  | inl bad ↦ cc (rw bad at e)
  | inr (hdr, good) ↦
      elim (Bool-cases ((header_or_default hdr.msg_header).msg_type ==ℤ type_result)) [
        | inl right ↦ (hdr, good, right, rw right at (rw good at e))
        | inr other ↦ cc (rw other at (rw good at e))
      ]
]

packet_report-result :
    (codec : Codec) (cmd p : List ℕ) (r : MsgResult)
    → str_case_eq cmd (codes "get_metrics") ≡ false
    → answer codec type_result codec.parse_result p ≡ some r
    → packet_report codec cmd p ≡ result_report r
packet_report-result codec cmd p r plain a =
    let (hdr, header, right, body) = answer-some codec p r a in
    rw (header, packet_report)
      (rw (right, body)
        (elim (Bool-cases (str_case_eq r.rc rc_ok)) [
          | inl good ↦
              rw (good, plain)
                (ap (λ lines. (pos 0, lines))
                  (append-nil (succeeded r.msg ∷ map pair_line r.rt_pairs)))
          | inr bad ↦ rw bad refl
        ]))

module _ {World : Type 0} (os : Os World) (stream : IsStream os) (healthy : IsHealthy os stream)
    (codec : Codec) (fuel fd : ℕ) (cmd result rest' : List ℕ) (r : MsgResult)
    (plain : str_case_eq cmd (codes "get_metrics") ≡ false) (some_result : 0 < length result)
    (short_result : length result ≤ max_adm_pkg)
    (a' : answer codec type_result codec.parse_result result ≡ some r) where
  -- Where `ExecuteCommand` has a connected client and, its timeout being set, the server lets the client
  -- in and answers the command, which is not get_metrics, with a result: it prints the result's message
  -- and its pairs, in their order, and returns 0 if the code is OK, in whatever case of letters; and
  -- otherwise it prints the message as a failure and returns 1.
  pub execute_on-answered :
      (pwd lp reply : List ℕ) (err : ErrText) (w start : World) (timeout_s : ℤ) (params : StrMap)
      (r0 : MsgResult) (pkg : List ℕ)
      → (if ltℤ (pos 0) timeout_s then (set_timeout os timeout_s (session fd pwd err) w).1 else w)
        ≡ start
      → codec.serialize_cmd (login_msg pwd) ≡ some lp
      → 0 < length lp
      → length lp < 2 ^ 31
      → 0 < length reply
      → length reply ≤ max_adm_pkg
      → stream.inbox start (pos fd) ≡ packet reply ++ (packet result ++ rest')
      → length lp + 4 + stream.signals start < fuel
      → length reply + 4 + stream.signals start < fuel
      → answer codec type_result codec.parse_result reply ≡ some r0
      → str_case_eq r0.rc rc_ok ≡ true
      → codec.serialize_cmd (command_msg cmd params) ≡ some pkg
      → 0 < length pkg
      → length pkg < 2 ^ 31
      → length pkg + 4 + stream.signals start < fuel
      → length result + 4 + stream.signals start < fuel
      → Returns
          (λ (end : Report × World). end.0 ≡ result_report r)
          (execute_on os codec fuel timeout_s cmd params (session fd pwd err) w)
  execute_on-answered pwd lp reply err w start timeout_s params r0 pkg begun ser some_lp small
        some_reply short to_come enough enough' a good made some_pkg small' room room' =
      Returns-weaken
        (execute_on-packet_report os stream healthy codec fuel fd cmd result rest' some_result
          short_result pwd lp reply err w start timeout_s params r0 pkg begun ser some_lp small
          some_reply short to_come enough enough' a good made some_pkg small' room room')
        λ end e. e ∙ packet_report-result codec cmd result r plain a'
