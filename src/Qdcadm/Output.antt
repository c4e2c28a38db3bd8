-- ===== src/Qdcadm/Output.antt =====
-- What qdcadm of qdcadm/qdcadm.cpp prints, as bytes.
pub mod Bounds
pub mod Announcements
use o2k.Prelude.{
  ℕ, ◌+◌, ◌-◌, ℤ, pos, negsuc, ltℤ, not_pos, not, ◌&&◌, ◌||◌, ltb, List, [], ◌∷◌, ◌++◌, length,
  take, Option, none, some, if◌then◌else◌, codes, until_nul, show_int, decimal, pad_left, pos_part,
}
use o2k.Socket.{
  ErrText, no_error, sys_error, invalid_format, size_too_long, not_enough_data, invalid_msg_hdr,
  invalid_msg_bdy, not_cmd, not_result, pack_fail, serialize_fail, bad_ip_address, no_socket,
  no_connection, not_connected, server_text,
}
use o2k.SysError.{errno_text}
use o2k.AdminMsg.{PairIntDbl, MsgMetrics}
use o2k.StrMap.{StrMap}
use o2k.Qdcadm.{
  Line, connect_fail, send_fail, read_fail, parse_header_fail, parse_result_fail, refused,
  succeeded, pair, no_body, bad_metrics, metrics, split_address, params_from, param, is_perf, atoi,
}

-- LEN_ERR_MSG
abbrev pub len_err_msg : ℕ
len_err_msg = 512

-- `snprintf` to an array of LEN_ERR_MSG bytes.
abbrev snprintf_text : List ℕ → List ℕ
snprintf_text text = take (len_err_msg - 1) text

-- The RMSG constants that are put into m_errbuf.
abbrev rmsg_inv_msg_hdr : List ℕ
rmsg_inv_msg_hdr = codes "invalid message header"

abbrev rmsg_inv_msg_bdy : List ℕ
rmsg_inv_msg_bdy = codes "invalid message body"

abbrev rmsg_not_cmd : List ℕ
rmsg_not_cmd = codes "not a command message"

abbrev rmsg_not_result : List ℕ
rmsg_not_result = codes "not a result message"

abbrev rmsg_pack_fail : List ℕ
rmsg_pack_fail = codes "pack message fail"

-- The texts in m_errbuf and m_err; `strerror` is the C library's.
unfoldable pub err_text : (ℕ → List ℕ) → ErrText → List ℕ
err_text strerror no_error = []
err_text strerror (sys_error e) = errno_text e ++ strerror e
err_text strerror invalid_format = codes "Invalid packet data format!"
err_text strerror (size_too_long n) = codes "message size is too long! " ++ show_int (pos n)
err_text strerror not_enough_data = codes "can not read enough data"
err_text strerror invalid_msg_hdr = rmsg_inv_msg_hdr
err_text strerror invalid_msg_bdy = rmsg_inv_msg_bdy
err_text strerror not_cmd = rmsg_not_cmd
err_text strerror not_result = rmsg_not_result
err_text strerror pack_fail = rmsg_pack_fail
err_text strerror serialize_fail = codes "serialize protobuf fail"
err_text strerror (bad_ip_address host) =
    snprintf_text (codes "Bad format ip address:" ++ (until_nul host ++ codes "\n"))
err_text strerror (no_socket e) =
    snprintf_text (codes "can't create socket:" ++ (strerror e ++ codes "\n"))
err_text strerror (no_connection host port e) = snprintf_text (
    codes "Can not connect to "
    ++ (until_nul host
        ++ (codes ":" ++ (show_int port ++ (codes ",error:" ++ (strerror e ++ codes "\n"))))))
err_text strerror not_connected = codes "not connected to Admin Server"
err_text strerror (server_text t) = t

-- `%ld` of an `int64`, and `%.0f` of a `double` by its bits, as the C library has it.
abbrev show_long : ℤ → List ℕ
show_long (pos n) = decimal 20 n
show_long (negsuc n) = 45 ∷ decimal 20 (n + 1)

abbrev proc_lines : (ℕ → List ℕ) → List PairIntDbl → List ℕ
proc_lines show_double [] = []
proc_lines show_double (proc ∷ procs) =
    codes "  proc "
    ++ (show_long proc.key
        ++ (codes " commit: "
            ++ (show_double proc.val ++ (codes "\n" ++ proc_lines show_double procs))))

module _ (strerror show_double : ℕ → List ℕ) (now : List ℕ) where
  -- What a `printf` of `ExecuteCommand` writes; `now` is what `nowStr` answered with.
  unfoldable pub line_text : Line → List ℕ
  unfolding err_text
  line_text (connect_fail e) =
      codes "Connect to server fail: " ++ (err_text strerror e ++ codes "\n")
  line_text (send_fail e) = codes "send command fail: " ++ (err_text strerror e ++ codes "\n")
  line_text (read_fail e) = codes "read result fail: " ++ (err_text strerror e ++ codes "\n")
  line_text (parse_header_fail e) =
      codes "parse msg header fail: " ++ (err_text strerror e ++ codes "\n")
  line_text (parse_result_fail e) =
      codes "parse MsgResult fail: " ++ (err_text strerror e ++ codes "\n")
  line_text (refused msg) = until_nul msg ++ codes "\n"
  line_text (succeeded msg) =
      codes "[OK] " ++ (now ++ (codes ": " ++ (until_nul msg ++ codes "\n")))
  line_text (pair key val) =
      pad_left 20 (until_nul key) ++ (codes " : " ++ (until_nul val ++ codes "\n"))
  line_text no_body = codes "no message body\n"
  line_text bad_metrics = codes "can not parse to MsgMetrics\n"
  line_text (metrics m) =
      codes "receive metrics:\n  total_commit: "
      ++ (show_double m.trans_commit_total
          ++ (codes "\n" ++ proc_lines show_double m.trans_begin_proc))

  -- All that a call of `ExecuteCommand` writes.
  unfoldable pub report_text : List Line → List ℕ
  unfolding line_text
  report_text [] = []
  report_text (line ∷ lines) = line_text line ++ report_text lines

-- `usage`; the build's date and time are the compiler's.
unfoldable pub usage_text : List ℕ → List ℕ → List ℕ
usage_text built name =
    name
    ++ (codes " 3.0 build "
        ++ (built
            ++ (codes "\nUsange: "
                ++ (name
                    ++ (codes
                          " <assembler_server_ip:port> <password> <command> [args]\n\tcommand:\n\t\tlist : list all commands which assembler server supported.\n\tfor Example:\n\t\t "
                        ++ (name
                            ++ (codes " 127.0.0.1:9876 qdecoder list\n\t\t "
                                ++ (name
                                    ++ (codes " 127.0.0.1:9876 qdecoder get_stat\n\t\t "
                                        ++ (name
                                            ++ codes
                                                " 127.0.0.1:9876 qdecoder set_conf print_dict 1\n"))))))))))

-- `"get_perf will run %d times, each time will wait %d seconds ...\n"`
abbrev pub announcement : ℕ → ℤ → List ℕ
announcement loops itv =
    codes "get_perf will run "
    ++ (show_int (pos loops)
        ++ (codes " times, each time will wait " ++ (show_int itv ++ codes " seconds ...\n")))

-- What `main` writes before its loop, in "preprocess for some specific commands".
unfoldable pub preprocess_text : List ℕ → StrMap → List ℕ
preprocess_text cmd params =
    let itv = atoi (param (codes "1") params) in
    let loop = atoi (param (codes "2") params) in
    if not (is_perf cmd)
    then []
    else if ltb (length params) 1
    then codes "missing argument: interval [loop times]\n"
    else if ltℤ itv (pos 1) || ltℤ (pos 300) itv
    then codes "invalid interval, must be in the range 1~300\n"
    else if ltb 1 (length params) && not (not_pos loop)
    then announcement (pos_part loop) itv
    else announcement 1 itv

abbrev pub address_text : List ℕ → List ℕ → List (List ℕ) → Option (List ℕ × List ℕ) → List ℕ
address_text addr cmd args none = codes "Bad format ip address and port:" ++ (addr ++ codes "\n")
address_text addr cmd args (some a) = preprocess_text cmd (params_from 1 args [])

-- What `main` writes up to its loop; the arguments have no NUL.
unfoldable pub plan_text : List ℕ → List ℕ → List (List ℕ) → List ℕ
unfolding usage_text preprocess_text
plan_text built name (addr ∷ pwd ∷ cmd ∷ args) = address_text addr cmd args (split_address addr)
plan_text built name _ = usage_text built name
