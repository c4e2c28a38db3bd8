-- ===== src/Os.antt =====
-- What the program uses of the operating system: the calls on sockets with `errno`, and the
-- contents of memory that was never written. None of it is code of the repository, so it is a
-- parameter, and what its documentation promises is a record of hypotheses beside it.
use o2k.Prelude.{ℕ, ℤ, ◌≤◌, ◌<◌, ◌≡◌, List, [], ◌++◌, Option, Bool, length, take}

-- `recv`: the bytes that it stored (none at the end of the stream), or -1.
pub data RecvResult : Type 0 where
  got : List ℕ → RecvResult
  recv_error : RecvResult

-- `send`: how many bytes it took, or -1.
pub data SendResult : Type 0 where
  sent : ℕ → SendResult
  send_error : SendResult

-- EINTR of Linux.
abbrev pub eintr : ℕ
eintr = 4

-- The socket options that the program sets.
pub data TimeoutOption : Type 0 where
  so_sndtimeo so_rcvtimeo : TimeoutOption

pub record Os (World : Type 0) : Type 0 where
  pub recv : ℤ → ℕ → World → RecvResult × World
  pub send : ℤ → List ℕ → World → SendResult × World
  pub errno : World → ℕ
  pub shutdown : ℤ → World → World
  pub close : ℤ → World → World
  -- `none` is INADDR_NONE
  pub inet_addr : List ℕ → Option ℕ
  pub socket : World → ℤ × World
  -- whether the connection to the address and port was made
  pub connect : ℤ → ℕ → ℕ → World → Bool × World
  pub set_timeout : ℤ → TimeoutOption → ℤ → World → ℤ × World
  -- the byte at an offset of a variable or an array that was not initialised
  pub junk : World → ℕ → ℕ

-- A socket as a stream: `inbox` is what the peer has sent, or will send, and `recv` has not
-- returned yet, `outbox` is what `send` has taken so far, and `signals` bounds how many more times
-- a call ends with EINTR.
pub record IsStream {World : Type 0} (os : Os World) : Type 0 where
  pub inbox : World → ℤ → List ℕ
  pub outbox : World → ℤ → List ℕ
  pub signals : World → ℕ
  pub recv_got :
      (fd : ℤ) (n : ℕ) (w w' : World) (bs : List ℕ)
      → os.recv fd n w ≡ (got bs, w')
      → (length bs ≤ n)
        × (inbox w fd ≡ bs ++ inbox w' fd)
        × (outbox w' fd ≡ outbox w fd)
        × (signals w' ≤ signals w)
  pub recv_failed :
      (fd : ℤ) (n : ℕ) (w w' : World)
      → os.recv fd n w ≡ (recv_error, w')
      → (inbox w' fd ≡ inbox w fd)
        × (outbox w' fd ≡ outbox w fd)
        × (signals w' ≤ signals w)
        × (os.errno w' ≡ eintr → signals w' < signals w)
  pub send_sent :
      (fd : ℤ) (bs : List ℕ) (w w' : World) (k : ℕ)
      → os.send fd bs w ≡ (sent k, w')
      → (k ≤ length bs)
        × (outbox w' fd ≡ outbox w fd ++ take k bs)
        × (inbox w' fd ≡ inbox w fd)
        × (signals w' ≤ signals w)
        × (0 < length bs → k ≡ 0 → os.errno w' ≡ eintr → signals w' < signals w)
  pub send_failed :
      (fd : ℤ) (bs : List ℕ) (w w' : World)
      → os.send fd bs w ≡ (send_error, w')
      → (outbox w' fd ≡ outbox w fd)
        × (inbox w' fd ≡ inbox w fd)
        × (signals w' ≤ signals w)
        × (os.errno w' ≡ eintr → signals w' < signals w)

-- A connection that stands: a call fails only because a signal interrupted it, the stream does
-- not end before its bytes are read, and `send` takes a byte at least.
pub record IsHealthy {World : Type 0} (os : Os World) (stream : IsStream os) : Type 0 where
  pub recv_interrupted :
      (fd : ℤ) (n : ℕ) (w w' : World) → os.recv fd n w ≡ (recv_error, w') → os.errno w' ≡ eintr
  pub recv_ended :
      (fd : ℤ) (n : ℕ) (w w' : World)
      → os.recv fd n w ≡ (got [], w')
      → 0 < n
      → stream.inbox w fd ≡ []
  pub send_interrupted :
      (fd : ℤ) (bs : List ℕ) (w w' : World)
      → os.send fd bs w ≡ (send_error, w')
      → os.errno w' ≡ eintr
  pub send_some :
      (fd : ℤ) (bs : List ℕ) (w w' : World)
      → os.send fd bs w ≡ (sent 0, w')
      → 0 < length bs
      → os.errno w' ≡ eintr
