-- ===== src/Socket.antt =====
-- qdcadm/SimpleSocketFunc.cpp and .h: reading and writing a given number of bytes over a socket,
-- and packets of a length header with a payload.
pub mod Reading
pub mod Writing
pub mod Framing
use o2k.Prelude.{
  ℕ, zero, suc, ◌+◌, ◌-◌, ℤ, pos, negsuc, is_neg, pos_part, ◌==ℤ◌, to_int, to_word, true, false,
  List, [], ◌∷◌, ◌++◌, length, take, drop, tabulate, ltb, ◌==◌, if◌then◌else◌, htonl, ntohl,
}
use o2k.Outcome.{Outcome, ok, stuck, ◌>>=◌}
use o2k.Os.{Os, RecvResult, got, recv_error, SendResult, sent, send_error, eintr}

-- The text in an error buffer, by the `sprintf` or `GetSysErrorInfo` that wrote it.
pub data ErrText : Type 0 where
  no_error : ErrText
  sys_error : ℕ → ErrText
  invalid_format : ErrText
  size_too_long : ℕ → ErrText
  not_enough_data : ErrText
  invalid_msg_hdr : ErrText
  invalid_msg_bdy : ErrText
  not_cmd : ErrText
  not_result : ErrText
  pack_fail : ErrText
  serialize_fail : ErrText
  bad_ip_address : List ℕ → ErrText
  no_socket : ℕ → ErrText
  no_connection : List ℕ → ℤ → ℕ → ErrText
  not_connected : ErrText
  server_text : List ℕ → ErrText

-- What `SocketRead` leaves: its return value, the bytes at the front of the buffer, the error text.
pub record Read : Type 0 where
  pub code : ℤ
  pub bytes : List ℕ
  pub err : ErrText

pub record Write : Type 0 where
  pub code : ℤ
  pub err : ErrText

-- `bs` written over the front of the array `mem`.
abbrev pub overlay : List ℕ → List ℕ → List ℕ
overlay bs mem = bs ++ drop (length bs) mem

-- One pass of the loop of `SocketRead` after its `recv`; `more` is the rest of the loop, from what
-- the buffer then holds.
module _ {World : Type 0} (os : Os World) where
  unfoldable pub after_recv :
      RecvResult
      → World
      → List ℕ
      → ErrText
      → (List ℕ → Outcome (Read × World))
      → Outcome (Read × World)
  after_recv recv_error w done err more = elim (os.errno w == eintr) [
    | true ↦ more done
    | false ↦ ok (record { code = negsuc 0; bytes = done; err = sys_error (os.errno w) }, w)
  ]
  after_recv (got []) w done err more = ok (record { code = pos 0; bytes = done; err = err }, w)
  after_recv (got (b ∷ bs)) w done err more = more (done ++ (b ∷ bs))

  -- `done` is what the buffer holds, so `n` is its length.
  unfoldable pub socket_read_loop : ℕ → ℤ → ℕ → List ℕ → ErrText → World → Outcome (Read × World)
  unfolding after_recv
  socket_read_loop zero fd len done err w = stuck
  socket_read_loop (suc fuel) fd len done err w =
      let (r, w') = os.recv fd (len - length done) w in
      let step = after_recv r w' done err (λ done'. socket_read_loop fuel fd len done' err w') in
      if ltb (length done) len
      then step
      else ok (record { code = pos (length done); bytes = done; err = err }, w)

  -- Where `len` is negative, `n < len` fails at once, as it does at 0.
  unfoldable pub socket_read : ℕ → ℤ → ℤ → ErrText → World → Outcome (Read × World)
  socket_read fuel fd len err w = socket_read_loop fuel fd (pos_part len) [] err w

  -- One pass of the loop of `SocketWrite` after its `send`. Where nothing was sent `errno` says whether
  -- to go on.
  unfoldable pub after_send :
      SendResult → World → ℕ → (ℕ → Outcome (Write × World)) → Outcome (Write × World)
  after_send send_error w n more = elim (os.errno w == eintr) [
    | true ↦ more n
    | false ↦ ok (record { code = negsuc 0; err = sys_error (os.errno w) }, w)
  ]
  after_send (sent zero) w n more = elim (os.errno w == eintr) [
    | true ↦ more n
    | false ↦ ok (record { code = negsuc 0; err = sys_error (os.errno w) }, w)
  ]
  after_send (sent (suc k)) w n more = more (n + suc k)

  unfoldable pub socket_write_loop :
      ℕ → ℤ → List ℕ → ℕ → ℕ → ErrText → World → Outcome (Write × World)
  unfolding after_send
  socket_write_loop zero fd p len n err w = stuck
  socket_write_loop (suc fuel) fd p len n err w =
      let (r, w') = os.send fd (take (len - n) (drop n p)) w in
      let step = after_send r w' n (λ n'. socket_write_loop fuel fd p len n' err w') in
      if ltb n len then step else ok (record { code = pos n; err = err }, w)

  unfoldable pub socket_write : ℕ → ℤ → List ℕ → ℤ → ErrText → World → Outcome (Write × World)
  socket_write fuel fd p len err w = socket_write_loop fuel fd p (pos_part len) 0 err w

  -- `header` was not initialised, so a read of fewer than four bytes leaves the rest of it.
  unfoldable pub header_of : List ℕ → World → ℤ
  header_of bytes w = to_int (ntohl (overlay bytes (tabulate (os.junk w) 4)))

  -- The function `ReadPacket`, which the class `CMsgRW` does not use.
  unfoldable pub read_packet : ℕ → ℤ → ErrText → World → Outcome (Read × World)
  read_packet fuel fd err w = do
    (h, w') ← socket_read fuel fd (pos 4) err w
    let len = header_of h.bytes w
    if is_neg h.code
        then ok (record h { bytes = []; err = sys_error (os.errno w') }, w')
        else if is_neg len
        then ok (record { code = negsuc 0; bytes = []; err = invalid_format }, w')
        else socket_read fuel fd len h.err w'

  unfoldable pub send_packet : ℕ → ℤ → List ℕ → ℤ → ErrText → World → Outcome (Write × World)
  send_packet fuel fd p len err w = do
    (h, w') ← socket_write fuel fd (htonl (to_word len)) (pos 4) err w
    if is_neg h.code then ok (h, w') else socket_write fuel fd p len h.err w'

  -- `sockfd = -1` there changes the parameter alone.
  unfoldable pub close_socket : ℤ → World → World
  close_socket fd w = if fd ==ℤ negsuc 0 then w else os.close fd (os.shutdown fd w)
