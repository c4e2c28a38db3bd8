-- ===== src/Examples/Commands.antt =====
-- Runs of qdcadm.
use o2k.Prelude.{
  decimal, ℕ, ◌≡◌, refl, pos, negsuc, List, [], ◌∷◌, ◌++◌, arith, codes, to_lower, str_case_eq,
}
use o2k.Outcome.{Returns}
use o2k.Socket.{no_error}
use o2k.AdminMsg.{default_result}
use o2k.StrMap.{StrMap, put, get, str_lt}
use o2k.MsgRw.{parse_either}
use o2k.AdmClient.{text_of, set_timeout, set_timeouts}
use o2k.AdmClient.Session.{session}
use o2k.Qdcadm.{
  Report, send_fail, succeeded, bad_metrics, execute_on, Run, runs, is_perf, parse_args,
  split_address, preprocess, params_from, atoi, digits_value,
}
use o2k.Qdcadm.Plans.{IsPlanned, parse_args-IsPlanned}
use o2k.Qdcadm.Parameters.{Commanded, parse_args-Commanded}
use o2k.Qdcadm.Packets.{execute_on-packet_report}
use o2k.Qdcadm.Answers.{execute_on-answered}
use o2k.Socket.Framing.{packet}
use o2k.Qdcadm.Reports.{execute_on-refused}
use o2k.Examples.Kernel.{Net, net_os, net_stream, net_healthy}
use o2k.Examples.Admin.{text_codec, server, login_bytes}

abbrev two_params : StrMap
two_params = (codes "1", codes "10") ∷ (codes "2", codes "3") ∷ []

abbrev pub perf_args : List (List ℕ)
perf_args = codes "1.2.3.4:9876" ∷ codes "pw" ∷ codes "Get_Perf" ∷ codes "10" ∷ codes "3" ∷ []

abbrev pub perf_run : Run
perf_run = record {
  host = codes "1.2.3.4";
  port = pos 9876;
  pwd = codes "pw";
  cmd = codes "Get_Perf";
  params = two_params;
  loops = 3;
  timeout_s = pos 300;
}

pub parse_perf : parse_args perf_args ≡ runs perf_run
unfolding parse_args split_address preprocess params_from decimal atoi digits_value put get str_lt
    to_lower
parse_perf = refl

-- A number that is not of an `int` wraps around, and one that is not of a `long` is its bound first.
wide_atoi : atoi (codes "10000000000") ≡ pos 1410065408
unfolding atoi digits_value
wide_atoi = refl

wider_atoi : atoi (codes "-99999999999999999999") ≡ pos 0
unfolding atoi digits_value
wider_atoi = refl

parse_args-IsPlanned_example : IsPlanned (is_perf perf_run.cmd) perf_run
parse_args-IsPlanned_example = parse_args-IsPlanned perf_args perf_run parse_perf

parse_args-Commanded_example :
    Commanded
      (codes "1.2.3.4:9876")
      (codes "pw")
      (codes "Get_Perf")
      (codes "10" ∷ codes "3" ∷ [])
      perf_run
parse_args-Commanded_example =
    parse_args-Commanded (codes "1.2.3.4:9876") (codes "pw") (codes "Get_Perf")
      (codes "10" ∷ codes "3" ∷ []) perf_run (omega arith) parse_perf

execute_on-refused_example :
    Returns
      (λ (end : Report × Net). end.0 ≡ (pos 1, send_fail (text_of (codes "no")) ∷ []))
      (execute_on net_os text_codec 40
        (pos 5)
        (codes "list")
        []
        (session 3 (codes "pw") no_error)
        (server (codes "no")))
unfolding parse_either str_case_eq set_timeout set_timeouts
execute_on-refused_example =
    execute_on-refused net_os net_stream net_healthy text_codec 40 3 (codes "pw") login_bytes
      (codes "no") [] no_error (server (codes "no")) (server (codes "no")) (pos 5) (codes "list") []
      (record default_result { rc = codes "no"; msg = codes "no" }) refl refl (omega arith)
      (omega arith) (omega arith) (omega arith) refl (omega arith) (omega arith) refl refl

-- A server that has let the client in and answered the command, too.
abbrev answering : Net
answering = record (server (codes "ok")) {
  inbox = packet (codes "ok") ++ (packet (codes "OK") ++ []);
}

execute_on-answered_example :
    Returns
      (λ (end : Report × Net). end.0 ≡ (pos 0, succeeded (codes "OK") ∷ []))
      (execute_on net_os text_codec 40
        (pos 5)
        (codes "list")
        []
        (session 3 (codes "pw") no_error)
        answering)
unfolding parse_either str_case_eq set_timeout set_timeouts
execute_on-answered_example =
    execute_on-answered net_os net_stream net_healthy text_codec 40 3 (codes "list") (codes "OK") []
      (record default_result { rc = codes "OK"; msg = codes "OK" }) refl (omega arith) (omega arith)
      refl (codes "pw") login_bytes (codes "ok") no_error answering answering (pos 5) []
      (record default_result { rc = codes "ok"; msg = codes "ok" }) (codes "list") refl refl
      (omega arith) (omega arith) (omega arith) (omega arith) refl (omega arith) (omega arith) refl
      refl refl (omega arith) (omega arith) (omega arith) (omega arith)

execute_on-packet_report_example :
    Returns
      (λ (end : Report × Net). end.0 ≡ (negsuc 0, succeeded (codes "OK") ∷ bad_metrics ∷ []))
      (execute_on net_os text_codec 40
        (pos 5)
        (codes "Get_Metrics")
        []
        (session 3 (codes "pw") no_error)
        answering)
unfolding parse_either str_case_eq set_timeout set_timeouts
execute_on-packet_report_example =
    execute_on-packet_report net_os net_stream net_healthy text_codec 40 3 (codes "Get_Metrics")
      (codes "OK") [] (omega arith) (omega arith) (codes "pw") login_bytes (codes "ok") no_error
      answering answering (pos 5) [] (record default_result { rc = codes "ok"; msg = codes "ok" })
      (codes "Get_Metrics") refl refl (omega arith) (omega arith) (omega arith) (omega arith) refl
      (omega arith) (omega arith) refl refl refl (omega arith) (omega arith) (omega arith)
      (omega arith)
