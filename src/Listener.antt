-- ===== src/Listener.antt =====
-- The server's side of qdcadm/SimpleSocketFunc.cpp: `Listen`, `Accept` and `TestCanRecv`. What they use of
-- the operating system beside `Os` is a parameter. The buffer for the error text is its bytes.
pub mod Waiting
pub mod Accepting
pub mod Failures
use o2k.Prelude.{
  ℕ, zero, suc, ◌+◌, ◌-◌, ◌*◌, ◌/◌, ◌%◌, ◌^◌, ◌==◌, ltb, ℤ, pos, negsuc, is_neg, ◌==ℤ◌, negated,
  to_word, Bool, true, false, not, List, [], ◌∷◌, ◌++◌, tabulate, Option, none, some, if◌then◌else◌,
  codes, show_int, until_nul,
}
use o2k.Outcome.{Outcome, ok, fault, stuck, ◌>>=◌}
use o2k.Os.{Os, eintr}
use o2k.SysError.{sys_errmsg_max_size, write_range, get_sys_error_info}

-- `struct timeval`
pub record Timeval : Type 0 where
  pub tv_sec : ℤ
  pub tv_usec : ℤ

-- `select` on one descriptor: -1, 0, or a positive number with the sets in which the descriptor is.
pub data Selected : Type 0 where
  select_error nothing_ready : Selected
  ready : Bool → Bool → Selected

pub data SocketOption : Type 0 where
  so_reuseaddr so_linger : SocketOption

pub record ServerOs (World : Type 0) : Type 0 where
  pub set_option : ℤ → SocketOption → World → World
  -- whether the calls returned 0
  pub bind : ℤ → ℕ → ℕ → World → Bool × World
  pub listen : ℤ → ℕ → World → Bool × World
  pub accept : ℤ → World → ℤ × World
  -- on a descriptor, with an error set or without one; the time that is left is written back
  pub select : ℤ → Bool → Option Timeval → World → Selected × Option Timeval × World
  pub strerror : ℕ → List ℕ

-- `timeoutms / 1000` and `(timeoutms % 1000) * 1000`, which are towards 0.
unfoldable pub to_timeval : ℤ → Timeval
to_timeval (pos n) = record { tv_sec = pos (n / 1000); tv_usec = pos (n % 1000 * 1000) }
to_timeval (negsuc n) = record {
  tv_sec = negated ((n + 1) / 1000);
  tv_usec = negated ((n + 1) % 1000 * 1000);
}

-- No timeout where `timeoutms` is -1.
abbrev pub timeout_of : ℤ → Option Timeval
timeout_of timeoutms = if timeoutms ==ℤ negsuc 0 then none else some (to_timeval timeoutms)

-- Whether `FD_SET` of a descriptor stays inside a set, which has FD_SETSIZE bits.
unfoldable pub fits_fd_set : ℤ → Bool
fits_fd_set (pos n) = ltb n 1024
fits_fd_set (negsuc n) = false

-- The texts of `Listen` on a failure; the first byte of a null address is read.
unfoldable pub failure_text : List ℕ → Option (List ℕ) → ℤ → List ℕ → Outcome (List ℕ)
failure_text call none port text = fault
failure_text call (some []) port text =
    ok (call ++ (codes " error in all local ip, port " ++ (show_int port ++ (codes ": " ++ text))))
failure_text call (some (c ∷ ip)) port text = ok (
    call
    ++ (codes " error in ip "
        ++ (c ∷ ip ++ (codes ", port " ++ (show_int port ++ (codes ": " ++ text))))))

module _ {World : Type 0} (os : Os World) (server : ServerOs World) where
  -- `GetSysErrorInfo(errno, info)`
  abbrev pub describe : List ℕ → World → Outcome (List ℕ)
  describe info w = get_sys_error_info server.strerror (os.errno w) info

  -- INADDR_ANY, or the address; INADDR_NONE where it is malformed.
  unfoldable pub address_of : Option (List ℕ) → ℕ
  address_of none = 0
  address_of (some []) = 0
  address_of (some (c ∷ ip)) = elim (os.inet_addr (c ∷ ip)) [ none ↦ 2 ^ 32 - 1 | some a ↦ a ]

  -- A failure of `bind` or `listen`: the system's text goes to an array of SYS_ERRMSG_MAX_SIZE bytes,
  -- and from there to the caller's.
  unfoldable pub listen_failed :
      List ℕ → Option (List ℕ) → ℤ → List ℕ → World → Outcome (ℤ × List ℕ × World)
  unfolding failure_text
  listen_failed call ip port info w = do
    sys ← describe (tabulate (os.junk w) sys_errmsg_max_size) w
    text ← failure_text call ip port (until_nul sys)
    info' ← write_range 0 (text ++ (0 ∷ [])) info
    ok (negsuc 0, info', w)

  -- `Listen`
  unfoldable pub listen_on : ℤ → List ℕ → Option (List ℕ) → World → Outcome (ℤ × List ℕ × World)
  unfolding listen_failed address_of
  listen_on port info ip w =
      let (fd, w1) = os.socket w in
      let w2 = server.set_option fd so_linger (server.set_option fd so_reuseaddr w1) in
      let (bound, w3) = server.bind fd (address_of ip) (to_word port % 2 ^ 16) w2 in
      let (listening, w4) = server.listen fd 10 w3 in
      if fd ==ℤ negsuc 0
      then (describe info w1 >>= λ info'. ok (negsuc 0, info', w1))
      else if not bound
      then listen_failed (codes "bind") ip port info w3
      else if not listening
      then listen_failed (codes "listen") ip port info w4
      else ok (fd, info, w4)

  -- `if(errno!=0) GetSysErrorInfo(errno, info)`
  abbrev pub describe_any : List ℕ → World → Outcome (List ℕ)
  describe_any info w = if os.errno w == 0 then ok info else describe info w

  -- What `Accept` does once the listening socket is ready.
  unfoldable pub accept_one : ℤ → List ℕ → World → Outcome (ℤ × List ℕ × World)
  accept_one fd info w = do
    let (conn, w') = server.accept fd w
    info' ← describe_any info w'
    ok (
      if conn ==ℤ negsuc 0 then (if os.errno w' == eintr then pos 0 else negsuc 0) else conn,
      info',
      w',
    )

  -- What follows a `select` of `Accept` without a timeout.
  unfoldable pub after_wait :
      ℤ → List ℕ → Selected → World → Outcome (ℤ × List ℕ × World) → Outcome (ℤ × List ℕ × World)
  unfolding accept_one
  after_wait fd info select_error w again =
      if os.errno w == eintr then again else (describe info w >>= λ info'. ok (negsuc 0, info', w))
  after_wait fd info nothing_ready w again = ok (pos 0, info, w)
  after_wait fd info (ready readable errored) w again =
      if readable then accept_one fd info w else ok (pos 0, info, w)

  -- `Accept` with `timeoutms` -1.
  unfoldable pub accept_forever : ℕ → ℤ → List ℕ → World → Outcome (ℤ × List ℕ × World)
  unfolding after_wait
  accept_forever zero fd info w = stuck
  accept_forever (suc fuel) fd info w =
      let (r, _, w') = server.select fd false none w in
      after_wait fd info r w' (accept_forever fuel fd info w')

  -- What follows a `select` of `Accept` with a timeout; the set that it tests at the end is the one
  -- that `select` was not given.
  unfoldable pub after_timed_wait :
      ℤ
      → Selected
      → World
      → (List ℕ → Outcome (ℤ × List ℕ × World))
      → List ℕ
      → Outcome (ℤ × List ℕ × World)
  unfolding accept_one
  after_timed_wait fd select_error w again info =
      if os.errno w == eintr then again info else ok (negsuc 0, info, w)
  after_timed_wait fd nothing_ready w again info = ok (pos 0, info, w)
  after_timed_wait fd (ready readable errored) w again info =
      if errored
      then (describe info w >>= λ info'. ok (negsuc 0, info', w))
      else accept_one fd info w

  unfoldable pub accept_timed :
      ℕ → ℤ → Option Timeval → List ℕ → World → Outcome (ℤ × List ℕ × World)
  unfolding after_timed_wait
  accept_timed zero fd timeout info w = stuck
  accept_timed (suc fuel) fd timeout info w =
      let (r, left, w') = server.select fd true timeout w in
      describe_any info w'
      >>= after_timed_wait fd r w' (λ info'. accept_timed fuel fd left info' w')

  -- `Accept`, with the sets on its stack.
  unfoldable pub accept_on : ℕ → ℤ → ℤ → List ℕ → World → Outcome (ℤ × List ℕ × World)
  unfolding accept_forever accept_timed fits_fd_set
  accept_on fuel fd timeoutms info w =
      if not (fits_fd_set fd)
      then fault
      else if timeoutms ==ℤ negsuc 0
      then accept_forever fuel fd info w
      else accept_timed fuel fd (timeout_of timeoutms) info w

  -- What follows a `select` of `TestCanRecv`.
  unfoldable pub after_test :
      List ℕ → Selected → World → Outcome (ℤ × List ℕ × World) → Outcome (ℤ × List ℕ × World)
  after_test info select_error w again =
      if os.errno w == eintr then again else (describe info w >>= λ info'. ok (negsuc 0, info', w))
  after_test info nothing_ready w again = ok (pos 0, info, w)
  after_test info (ready readable errored) w again =
      if errored
      then (describe info w >>= λ info'. ok (negsuc 0, info', w))
      else if readable
      then ok (pos 1, info, w)
      else again

  unfoldable pub test_loop : ℕ → ℤ → Option Timeval → List ℕ → World → Outcome (ℤ × List ℕ × World)
  unfolding after_test
  test_loop zero fd timeout info w = stuck
  test_loop (suc fuel) fd timeout info w =
      let (r, left, w') = server.select fd true timeout w in
      after_test info r w' (test_loop fuel fd left info w')

  -- `TestCanRecv`
  unfoldable pub test_can_recv : ℕ → ℤ → ℤ → List ℕ → World → Outcome (ℤ × List ℕ × World)
  unfolding test_loop fits_fd_set
  test_can_recv fuel fd timeoutms info w =
      if is_neg fd
      then ok (negsuc 0, info, w)
      else if not (fits_fd_set fd)
      then fault
      else test_loop fuel fd (timeout_of timeoutms) info w
