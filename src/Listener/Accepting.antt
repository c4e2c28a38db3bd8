-- ===== src/Listener/Accepting.antt =====
-- How `Accept` ends.
use o2k.Prelude.{
  ℕ, zero, suc, ◌≤◌, ◌<◌, ◌≡◌, ◌≢◌, ◌⊎◌, refl, ap, ◌==◌, ==_iff, ℤ, pos, negsuc, ◌==ℤ◌, ==ℤ→eq,
  Bool, true, false, List, length, Option, none, arith, Bool-cases, inl, inr, if◌then◌else◌,
}
use o2k.Outcome.{Outcome, ok, fault, Returns, Returns-ok, Returns-if, Returns-bind, ◌>>=◌}
use o2k.Os.{Os, eintr}
use o2k.SysError.Bounds.{get_sys_error_info-Returns}
use o2k.Listener.{
  Timeval, Selected, select_error, nothing_ready, ready, ServerOs, timeout_of, describe,
  describe_any, accept_one, after_wait, accept_forever, after_timed_wait, accept_timed, accept_on,
  fits_fd_set,
}
use o2k.Listener.Waiting.{IsPatient}

module _ {World : Type 0} (os : Os World) (server : ServerOs World) where
  -- A `select` has just said of the socket that it is ready: without a timeout that it is readable, with
  -- one that it is not in error.
  pub data ReadyAt (fd : ℤ) (w : World) : Type 0 where
    polled :
        (errored : Bool) (t t' : Option Timeval) (w0 : World)
        → server.select fd false t w0 ≡ (ready true errored, t', w)
        → ReadyAt fd w
    timed :
        (readable : Bool) (t t' : Option Timeval) (w0 : World)
        → server.select fd true t w0 ≡ (ready readable false, t', w)
        → ReadyAt fd w

  -- The value of `Accept` with what it goes back to, the last answer of `select` or that of `accept`.
  pub data AcceptEnd (fd code : ℤ) (w' : World) : Type 0 where
    select_failed :
        (errors : Bool) (t t' : Option Timeval) (w : World)
        → server.select fd errors t w ≡ (select_error, t', w')
        → os.errno w' ≢ eintr
        → code ≡ negsuc 0
        → AcceptEnd fd code w'
    in_error :
        (readable : Bool) (t t' : Option Timeval) (w : World)
        → server.select fd true t w ≡ (ready readable true, t', w')
        → code ≡ negsuc 0
        → AcceptEnd fd code w'
    accept_failed :
        (w : World)
        → ReadyAt fd w
        → server.accept fd w ≡ (negsuc 0, w')
        → os.errno w' ≢ eintr
        → code ≡ negsuc 0
        → AcceptEnd fd code w'
    timed_out :
        (errors : Bool) (t t' : Option Timeval) (w : World)
        → server.select fd errors t w ≡ (nothing_ready, t', w')
        → code ≡ pos 0
        → AcceptEnd fd code w'
    not_readable :
        (errored : Bool) (t t' : Option Timeval) (w : World)
        → server.select fd false t w ≡ (ready false errored, t', w')
        → code ≡ pos 0
        → AcceptEnd fd code w'
    interrupted :
        (w : World)
        → ReadyAt fd w
        → server.accept fd w ≡ (negsuc 0, w')
        → os.errno w' ≡ eintr
        → code ≡ pos 0
        → AcceptEnd fd code w'
    accepted :
        (w : World)
        → ReadyAt fd w
        → server.accept fd w ≡ (code, w')
        → code ≢ negsuc 0
        → AcceptEnd fd code w'

  abbrev pub AcceptPost : ℤ → ℕ → ℤ × List ℕ × World → Type 0
  AcceptPost fd size end = AcceptEnd fd end.0 end.2 × (length end.1 ≡ size)

  describe_any-Returns :
      (info : List ℕ) (w : World)
      → 317 ≤ length info
      → Returns (λ info'. length info' ≡ length info) (describe_any os server info w)
  describe_any-Returns info w room =
      Returns-if (os.errno w == 0) _ _ (λ e. Returns-ok info refl)
        λ e. get_sys_error_info-Returns server.strerror (os.errno w) info room

  module _ (fd : ℤ) (size : ℕ) (room : 317 ≤ size) where
    failed_end :
        (info : List ℕ) (w : World)
        → length info ≡ size
        → AcceptEnd fd (negsuc 0) w
        → Returns
            (AcceptPost fd size)
            (describe os server info w >>= λ info'. ok (negsuc 0, info', w))
    failed_end info w same end =
        Returns-bind _ _
          (get_sys_error_info-Returns server.strerror (os.errno w) info (omega arith))
          λ info' _ h. Returns-ok _ (end, omega arith)

    conn_cases :
        (w w' : World) (conn : ℤ)
        → ReadyAt fd w
        → server.accept fd w ≡ (conn, w')
        → AcceptEnd fd
            (if conn ==ℤ negsuc 0 then (if os.errno w' == eintr then pos 0 else negsuc 0) else conn)
            w'
    conn_cases w w' conn at_hand e = elim (Bool-cases (conn ==ℤ negsuc 0)) [
      | inr taken ↦ rw taken (accepted w at_hand e (λ same. cc (same, taken)))
      | inl none_taken ↦
          let none : conn ≡ negsuc 0 = ==ℤ→eq conn (negsuc 0) none_taken in
          elim (Bool-cases (os.errno w' == eintr)) [
            | inl signal ↦
                rw (none_taken, signal)
                  (interrupted w at_hand (rw none at e) ((==_iff (os.errno w') eintr).0 signal)
                    refl)
            | inr other ↦
                rw (none_taken, other)
                  (accept_failed w at_hand (rw none at e)
                    (λ same. cc ((==_iff (os.errno w') eintr).1 same, other)) refl)
          ]
    ]

    accept_one-AcceptPost :
        (info : List ℕ) (w : World)
        → length info ≡ size
        → ReadyAt fd w
        → Returns (AcceptPost fd size) (accept_one os server fd info w)
    unfolding accept_one
    accept_one-AcceptPost info w same at_hand =
        let conn = server.accept fd w in
        Returns-bind _ _ (describe_any-Returns info conn.1 (omega arith))
          λ info' _ h. Returns-ok _ (conn_cases w conn.1 conn.0 at_hand refl, omega arith)

    after_wait-AcceptPost :
        (r : Selected) (t t' : Option Timeval) (info : List ℕ) (w w' : World)
        (again : Outcome (ℤ × List ℕ × World))
        → length info ≡ size
        → server.select fd false t w ≡ (r, t', w')
        → (r ≡ select_error → os.errno w' ≡ eintr → Returns (AcceptPost fd size) again)
        → Returns (AcceptPost fd size) (after_wait os server fd info r w' again)
    unfolding after_wait
    after_wait-AcceptPost select_error t t' info w w' again same e wait =
        Returns-if (os.errno w' == eintr) _ _ (λ h. wait refl ((==_iff (os.errno w') eintr).0 h))
          λ h.
            failed_end info w' same
              (select_failed false t t' w e (λ s. cc ((==_iff (os.errno w') eintr).1 s, h)) refl)
    after_wait-AcceptPost nothing_ready t t' info w w' again same e wait =
        Returns-ok _ (timed_out false t t' w e refl, same)
    after_wait-AcceptPost (ready true errored) t t' info w w' again same e wait =
        accept_one-AcceptPost info w' same (polled errored t t' w e)
    after_wait-AcceptPost (ready false errored) t t' info w w' again same e wait =
        Returns-ok _ (not_readable errored t t' w e refl, same)

    after_timed_wait-AcceptPost :
        (r : Selected) (t t' : Option Timeval) (info : List ℕ) (w w' : World)
        (again : List ℕ → Outcome (ℤ × List ℕ × World))
        → length info ≡ size
        → server.select fd true t w ≡ (r, t', w')
        → (r ≡ select_error → os.errno w' ≡ eintr → Returns (AcceptPost fd size) (again info))
        → Returns (AcceptPost fd size) (after_timed_wait os server fd r w' again info)
    unfolding after_timed_wait
    after_timed_wait-AcceptPost select_error t t' info w w' again same e wait =
        Returns-if (os.errno w' == eintr) _ _ (λ h. wait refl ((==_iff (os.errno w') eintr).0 h))
          λ h.
            Returns-ok _ (
              select_failed true t t' w e (λ s. cc ((==_iff (os.errno w') eintr).1 s, h)) refl,
              same,
            )
    after_timed_wait-AcceptPost nothing_ready t t' info w w' again same e wait =
        Returns-ok _ (timed_out true t t' w e refl, same)
    after_timed_wait-AcceptPost (ready readable true) t t' info w w' again same e wait =
        failed_end info w' same (in_error readable t t' w e refl)
    after_timed_wait-AcceptPost (ready readable false) t t' info w w' again same e wait =
        accept_one-AcceptPost info w' same (timed readable t t' w e)

    module _ (patient : IsPatient os server) where
      accept_forever-AcceptPost :
          (fuel : ℕ) (info : List ℕ) (w : World)
          → length info ≡ size
          → patient.waits w < fuel
          → Returns (AcceptPost fd size) (accept_forever os server fuel fd info w)
      unfolding accept_forever
      accept_forever-AcceptPost zero info w same enough = absurd (omega arith)
      accept_forever-AcceptPost (suc fuel) info w same enough =
          let s = server.select fd false none w in
          after_wait-AcceptPost s.0 none s.1 info w s.2 _ same refl λ e signal.
            accept_forever-AcceptPost fuel info s.2 same (
              omega (
                arith,
                patient.interrupted fd false none s.1 w s.2 (ap (λ r. (r, s.1, s.2)) e) signal,
              ))

      accept_timed-AcceptPost :
          (fuel : ℕ) (t : Option Timeval) (info : List ℕ) (w : World)
          → length info ≡ size
          → patient.waits w < fuel
          → Returns (AcceptPost fd size) (accept_timed os server fuel fd t info w)
      unfolding accept_timed
      accept_timed-AcceptPost zero t info w same enough = absurd (omega arith)
      accept_timed-AcceptPost (suc fuel) t info w same enough =
          let s = server.select fd true t w in
          Returns-bind _ _ (describe_any-Returns info s.2 (omega arith)) λ info' _ h.
            after_timed_wait-AcceptPost s.0 t s.1 info' w s.2 _ (omega arith) refl λ e signal.
              accept_timed-AcceptPost fuel s.1 info' s.2 (omega arith) (
                omega (
                  arith,
                  patient.interrupted fd true t s.1 w s.2 (ap (λ r. (r, s.1, s.2)) e) signal,
                ))

  -- With a buffer of 317 bytes and fuel above the number of waits that are to come, `Accept` of a
  -- socket below FD_SETSIZE returns, despite interruptions. It returns -1 where `select` failed, or had
  -- the socket in error, or `accept` failed after a `select`, and neither for a signal; 0 where the last `select` answered that
  -- nothing was ready, or without a timeout that the socket was not, or where a signal interrupted
  -- `accept`; and any other value is a descriptor that `accept` has just given after a `select`
  -- with the socket ready. Of another socket it writes outside its sets.
  pub accept_on-AcceptPost :
      (patient : IsPatient os server) (fuel : ℕ) (fd timeoutms : ℤ) (info : List ℕ) (w : World)
      → 317 ≤ length info
      → patient.waits w < fuel
      → ((fits_fd_set fd ≡ true)
          × Returns (AcceptPost fd (length info)) (accept_on os server fuel fd timeoutms info w))
        ⊎ ((fits_fd_set fd ≡ false) × (accept_on os server fuel fd timeoutms info w ≡ fault))
  unfolding accept_on
  accept_on-AcceptPost patient fuel fd timeoutms info w room enough =
      elim (Bool-cases (fits_fd_set fd)) [
        | inr wide ↦ inr (wide, rw wide refl)
        | inl fits ↦ inl (
          fits,
          rw fits (
              Returns-if (timeoutms ==ℤ negsuc 0) _ _
                (λ e.
                  accept_forever-AcceptPost fd (length info) room patient fuel info w refl enough)
                (λ e.
                  accept_timed-AcceptPost fd (length info) room patient fuel (timeout_of timeoutms)
                    info w refl enough)),
        )
      ]
