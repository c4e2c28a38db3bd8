-- ===== src/Examples/Output.antt =====
-- What qdcadm prints, at concrete inputs.
use o2k.Prelude.{
  ℕ, ◌≡◌, refl, pos, ◌<◌, List, [], ◌∷◌, length, codes, arith, to_lower, show_int, digits_of,
  decimal, pad_number,
}
use o2k.Outcome.{Returns}
use o2k.Socket.{ErrText, no_connection}
use o2k.StrMap.{get}
use o2k.Qdcadm.{succeeded, pair, atoi}
use o2k.Qdcadm.Clock.{Tm, now_str, tm_text, read_now, now_str-read_now}
use o2k.Qdcadm.Output.{len_err_msg, err_text, report_text, plan_text}
use o2k.Qdcadm.Output.Bounds.{err_text-bounds}
use o2k.Qdcadm.Output.Announcements.{plan_text-announced}
use o2k.Examples.Commands.{perf_args, perf_run, parse_perf}

-- 2026-01-05 09:03:07
abbrev winter : Tm
winter = record {
  tm_year = pos 126;
  tm_mon = pos 0;
  tm_mday = pos 5;
  tm_hour = pos 9;
  tm_min = pos 3;
  tm_sec = pos 7;
}

winter_text : tm_text winter ≡ codes "2026-01-05 09:03:07"
unfolding tm_text pad_number decimal
winter_text = refl

now_str-read_now_example :
    Returns
      (λ text. (length text ≡ 19) × (read_now text ≡ 2026 ∷ 1 ∷ 5 ∷ 9 ∷ 3 ∷ 7 ∷ []))
      (now_str winter)
now_str-read_now_example =
    now_str-read_now 126 0 5 9 3 7 (omega arith) (omega arith) (omega arith) (omega arith)
      (omega arith) (omega arith)

abbrev strerror : ℕ → List ℕ
strerror _ = codes "Connection refused"

listing :
    report_text strerror
      (λ _. codes "0")
      (codes "now")
      (succeeded (codes "done") ∷ pair (codes "scn") (codes "42") ∷ [])
    ≡ codes "[OK] now: done\n                 scn : 42\n"
unfolding report_text
listing = refl

abbrev refusal : ErrText
refusal = no_connection (codes "1.2.3.4") (pos 9876) 111

err_text-bounds_example : length (err_text strerror refusal) < len_err_msg
err_text-bounds_example = err_text-bounds strerror (λ _. omega arith) refusal tt

plan_text-announced_example :
    (plan_text (codes "Nov 26 2026 12:00:00") (codes "qdcadm") perf_args
      ≡ codes "get_perf will run 3 times, each time will wait 10 seconds ...\n")
    × (digits_of 0 (show_int (pos 3)) ≡ 3)
unfolding to_lower show_int atoi get
plan_text-announced_example =
    plan_text-announced (codes "Nov 26 2026 12:00:00") (codes "qdcadm") perf_args perf_run
      parse_perf
