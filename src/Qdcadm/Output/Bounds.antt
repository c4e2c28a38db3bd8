-- ===== src/Qdcadm/Output/Bounds.antt =====
-- How long the texts in the error buffers are.
use o2k.Prelude.{
  ℕ, ◌<◌, ◌≡◌, List, ◌++◌, length, length-append, length-take, length-decimal, take, codes,
  show_int, decimal, until_nul, arith,
}
use o2k.Socket.{
  ErrText, no_error, sys_error, invalid_format, size_too_long, not_enough_data, invalid_msg_hdr,
  invalid_msg_bdy, not_cmd, not_result, pack_fail, serialize_fail, bad_ip_address, no_socket,
  no_connection, not_connected, server_text,
}
use o2k.SysError.{errno_text}
use o2k.SysError.Bounds.{errno_text_bounds}
use o2k.AdmClient.{text_of}
use o2k.Qdcadm.Output.{len_err_msg, err_text}

-- A text of the server is as `Login` takes it over.
abbrev pub IsTaken : ErrText → Type 0
IsTaken (server_text t) = (msg : List ℕ) × (server_text t ≡ text_of msg)
IsTaken _ = Unit

length-snprintf : (text : List ℕ) → length (take 511 text) < 512
length-snprintf text = omega (arith, length-take 511 text)

-- Whatever fails, the text that is put into m_errbuf or m_err has a place there with its NUL: each has
-- fewer than LEN_ERR_MSG bytes, where those of the C library have fewer than 299, as the
-- implementation assumes.
pub err_text-bounds :
    (strerror : ℕ → List ℕ)
    → ((e : ℕ) → length (strerror e) < 299)
    → (t : ErrText) → IsTaken t
    → length (err_text strerror t) < len_err_msg
unfolding err_text show_int
err_text-bounds strerror short no_error h = omega arith
err_text-bounds strerror short (sys_error e) h =
    omega (arith, (errno_text_bounds e).1, short e, length-append (errno_text e) (strerror e))
err_text-bounds strerror short (size_too_long n) h =
    omega (
      arith,
      length-append (codes "message size is too long! ") (decimal 10 n),
      length-decimal 10 n,
    )
err_text-bounds strerror short (bad_ip_address host) h =
    length-snprintf (codes "Bad format ip address:" ++ (until_nul host ++ codes "\n"))
err_text-bounds strerror short (no_socket e) h =
    length-snprintf (codes "can't create socket:" ++ (strerror e ++ codes "\n"))
err_text-bounds strerror short (no_connection host port e) h = length-snprintf (
    codes "Can not connect to "
    ++ (until_nul host
        ++ (codes ":" ++ (show_int port ++ (codes ",error:" ++ (strerror e ++ codes "\n"))))))
err_text-bounds strerror short (server_text t) (msg, e) =
    let same : t ≡ take 511 (until_nul msg) = cc in rw same (length-snprintf (until_nul msg))
err_text-bounds strerror short invalid_format h = omega arith
err_text-bounds strerror short not_enough_data h = omega arith
err_text-bounds strerror short invalid_msg_hdr h = omega arith
err_text-bounds strerror short invalid_msg_bdy h = omega arith
err_text-bounds strerror short not_cmd h = omega arith
err_text-bounds strerror short not_result h = omega arith
err_text-bounds strerror short pack_fail h = omega arith
err_text-bounds strerror short serialize_fail h = omega arith
err_text-bounds strerror short not_connected h = omega arith
