-- ===== src/Qdcadm.antt =====
-- The program qdcadm of qdcadm/qdcadm.cpp: its arguments, `ExecuteCommand` and the loop of `main`.
pub mod Clock
pub mod Output
pub mod Plans
pub mod Parameters
pub mod Printing
pub mod Termination
pub mod Reports
pub mod Packets
pub mod Answers
use o2k.Prelude.{
  negated, decimal, to_int, to_word, ℕ, ◌^◌, zero, suc, ◌+◌, ◌*◌, ◌-◌, ◌/◌, ◌%◌, ltb, leb, ◌==◌, ℤ,
  pos, negsuc, is_neg, not_pos, pos_part, ltℤ, ◌==ℤ◌, Bool, true, false, not, ◌&&◌, ◌||◌, List, [],
  ◌∷◌, ◌++◌, length, map, Option, none, some, if◌then◌else◌, codes, c_str, to_lower, str_case_eq,
  bytes_eq,
}
use o2k.Outcome.{Outcome, ok, fault, ◌>>=◌}
use o2k.Os.{Os}
use o2k.Socket.{ErrText}
use o2k.AdminMsg.{
  MsgHeaderWrap, MsgResult, MsgMetrics, PairStrStr, type_result, header_or_default, Codec,
}
use o2k.StrMap.{StrMap, put, get}
use o2k.MsgRw.{MsgRw, new_msg_rw, read_packet, get_packet, msgbuf}
use o2k.MsgRw.Messages.{rc_ok, parse_msg_header, parse_result}
use o2k.AdmClient.{AdmClient, new_adm_client, set_timeout, send_command, delete_adm_client}

-- `strLower`
abbrev pub str_lower : List ℕ → List ℕ
str_lower = map to_lower

-- What a `printf` of `ExecuteCommand` tells.
pub data Line : Type 0 where
  connect_fail send_fail read_fail parse_header_fail parse_result_fail : ErrText → Line
  refused : List ℕ → Line
  succeeded : List ℕ → Line
  pair : List ℕ → List ℕ → Line
  no_body : Line
  bad_metrics : Line
  metrics : MsgMetrics → Line

abbrev pub pair_line : PairStrStr → Line
pair_line p = pair p.key p.val

-- The return value of `ExecuteCommand` and the lines that it prints.
abbrev pub Report : Type 0
Report = ℤ × List Line

abbrev pub metrics_report : Option MsgMetrics → Report
metrics_report none = (negsuc 0, bad_metrics ∷ [])
metrics_report (some m) = (pos 0, metrics m ∷ [])

abbrev pub after_lines : List Line → Report → Report
after_lines lines (rc, more) = (rc, lines ++ more)

module _ (codec : Codec) where
  -- The body of a packet as metrics: `ParseFromArray` and then `ParseFromString`, whose argument ends
  -- at the first NUL.
  unfoldable pub show_body : MsgRw → Option (List ℕ) → Outcome Report
  show_body s none = ok (negsuc 0, no_body ∷ [])
  show_body s (some msg) = elim (codec.parse_metrics msg) [
    | some m ↦ ok (metrics_report (some m))
    | none ↦ do
      text ← elim (c_str (msgbuf s)) [ none ↦ fault | some t ↦ ok t ]
      ok (metrics_report (codec.parse_metrics text))
  ]

  -- "read more info for different command"
  unfoldable pub show_more : List ℕ → MsgRw → Outcome Report
  unfolding show_body
  show_more cmd s =
      let body = show_body s (get_packet s) in
      if str_case_eq cmd (codes "get_metrics") then body else ok (pos 0, [])

  unfoldable pub show_result : List ℕ → MsgRw → Option MsgResult → Outcome Report
  unfolding show_more
  show_result cmd s none = ok (pos 1, parse_result_fail s.errbuf ∷ [])
  show_result cmd s (some r) =
      if str_case_eq r.rc rc_ok
      then (show_more cmd s >>= λ more.
          ok (after_lines (succeeded r.msg ∷ map pair_line r.rt_pairs) more))
      else ok (pos 1, refused r.msg ∷ [])

  -- What follows `ParseMsgHeader`.
  unfoldable pub show_message : List ℕ → MsgRw → Option MsgHeaderWrap → Outcome Report
  unfolding show_result
  show_message cmd s none = ok (pos 1, parse_header_fail s.errbuf ∷ [])
  show_message cmd s (some hdr) =
      if (header_or_default hdr.msg_header).msg_type ==ℤ type_result
      then (parse_result codec s >>= λ (r, s'). show_result cmd s' r)
      else show_more cmd s

module _ {World : Type 0} (os : Os World) (codec : Codec) where
  -- The answer to the command.
  unfoldable pub read_answer : ℕ → List ℕ → ℤ → World → Outcome (Report × World)
  unfolding show_message
  read_answer fuel cmd sock w = do
    (rc, s, w') ← read_packet os fuel (new_msg_rw os sock w) w
    if not_pos rc then ok ((pos 1, read_fail s.errbuf ∷ []), w') else do
      (hdr, s') ← parse_msg_header codec s
      report ← show_message codec cmd s' hdr
      ok (report, w')

  -- What `ExecuteCommand` does with a client that is connected.
  unfoldable pub execute_on : ℕ → ℤ → List ℕ → StrMap → AdmClient → World → Outcome (Report × World)
  unfolding read_answer
  execute_on fuel timeout_s cmd params c w = do
    let (_, set) = set_timeout os timeout_s c w
    (rc, c', w') ←
        send_command os codec fuel cmd params c (if ltℤ (pos 0) timeout_s then set else w)
    (report, w'') ←
        if rc ==ℤ pos 0
        then read_answer fuel cmd c'.sock w'
        else ok ((pos 1, send_fail c'.err ∷ []), w')
    ok (report, delete_adm_client os c' w'')

  -- `ExecuteCommand`
  unfoldable pub execute_command :
      ℕ → List ℕ → ℤ → List ℕ → ℤ → List ℕ → StrMap → World → Outcome (Report × World)
  unfolding execute_on
  execute_command fuel host port pwd timeout_s cmd params w =
      let (c, w') = new_adm_client os host port pwd w in
      if is_neg c.sock
      then ok ((pos 1, connect_fail c.err ∷ []), delete_adm_client os c w')
      else execute_on fuel timeout_s cmd params c w'

-- `strtol` in base 10: white space, a sign, digits; a number that is not of a `long` is its bound.
unfoldable pub digits_value : ℕ → List ℕ → ℕ
digits_value n [] = n
digits_value n (c ∷ cs) =
    let more = digits_value (n * 10 + (c - 48)) cs in if leb 48 c && leb c 57 then more else n

unfoldable pub strtol_digits : List ℕ → ℤ
unfolding digits_value
strtol_digits [] = pos 0
strtol_digits (c ∷ cs) =
    let rest = strtol_digits cs in
    if c == 32 || (leb 9 c && leb c 13)
    then rest
    else if c == 45
    then negated (digits_value 0 cs)
    else if c == 43
    then pos (digits_value 0 cs)
    else pos (digits_value 0 (c ∷ cs))

abbrev pub to_long : ℤ → ℤ
to_long (pos n) = if ltb n (2 ^ 63) then pos n else pos (2 ^ 63 - 1)
to_long (negsuc n) = if ltb n (2 ^ 63) then negsuc n else negsuc (2 ^ 63 - 1)

-- `atoi`, the `int` that `(int) strtol` is.
unfoldable pub atoi : List ℕ → ℤ
unfolding strtol_digits
atoi text = to_int (to_word (to_long (strtol_digits text)))

-- The loop over the arguments behind the command, from the `i`-th on.
unfoldable pub params_from : ℕ → List (List ℕ) → StrMap → StrMap
unfolding decimal put
params_from i [] params = params
params_from i (arg ∷ args) params = params_from (i + 1) args (put (decimal 10 i) arg params)

-- The text before the first colon and that behind it, where there is one.
abbrev with_front : ℕ → Option (List ℕ × List ℕ) → Option (List ℕ × List ℕ)
with_front c none = none
with_front c (some (host, port)) = some (c ∷ host, port)

unfoldable pub split_address : List ℕ → Option (List ℕ × List ℕ)
split_address [] = none
split_address (c ∷ cs) =
    let rest = split_address cs in if c == 58 then some ([], cs) else with_front c rest

-- What `main` runs in its loop.
pub record Run : Type 0 where
  pub host : List ℕ
  pub port : ℤ
  pub pwd : List ℕ
  pub cmd : List ℕ
  pub params : StrMap
  pub loops : ℕ
  pub timeout_s : ℤ

-- `main` ends with a value before its loop, or it runs the loop.
pub data Plan : Type 0 where
  ends : ℤ → Plan
  runs : Run → Plan

-- `params[key]`, which is empty where the key is missing.
abbrev pub param : List ℕ → StrMap → List ℕ
param key params = elim (get key params) [ none ↦ [] | some v ↦ v ]

abbrev pub is_perf : List ℕ → Bool
is_perf cmd = bytes_eq (str_lower cmd) (codes "get_perf")

-- "preprocess for some specific commands"
unfoldable pub preprocess : Run → Plan
unfolding atoi
preprocess r =
    let itv = atoi (param (codes "1") r.params) in
    let loop = atoi (param (codes "2") r.params) in
    let r' = record r { timeout_s = pos 300 } in
    if not (is_perf r.cmd)
    then runs r
    else if ltb (length r.params) 1
    then ends (pos 1)
    else if ltℤ itv (pos 1) || ltℤ (pos 300) itv
    then ends (pos 1)
    else if ltb 1 (length r.params) && not (not_pos loop)
    then runs (record r' { loops = pos_part loop })
    else runs r'

abbrev pub to_address : List ℕ → List ℕ → List (List ℕ) → Option (List ℕ × List ℕ) → Plan
to_address pwd cmd args none = ends (pos 1)
to_address pwd cmd args (some (host, port)) = preprocess (record {
  host = host;
  port = atoi port;
  pwd = pwd;
  cmd = cmd;
  params = params_from 1 args [];
  loops = 1;
  timeout_s = pos 5;
})

-- `main` up to its loop, on the arguments behind the program's name; `usage` ends with 0.
unfoldable pub parse_args : List (List ℕ) → Plan
unfolding preprocess split_address params_from
parse_args (addr ∷ pwd ∷ cmd ∷ args) = to_address pwd cmd args (split_address addr)
parse_args _ = ends (pos 0)

module _ {World : Type 0} (os : Os World) (codec : Codec) where
  -- The loop of `main`, which does not look at what `ExecuteCommand` returns.
  unfoldable pub run_loop : ℕ → Run → ℕ → World → Outcome (List Report × World)
  unfolding execute_command
  run_loop fuel r zero w = ok ([], w)
  run_loop fuel r (suc n) w = do
    (report, w') ← execute_command os codec fuel r.host r.port r.pwd r.timeout_s r.cmd r.params w
    (reports, w'') ← run_loop fuel r n w'
    ok (report ∷ reports, w'')
