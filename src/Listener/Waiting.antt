-- ===== src/Listener/Waiting.antt =====
-- The waiting loops of `Accept` and `TestCanRecv`: they end, with the verdict of the last `select`.
use o2k.Prelude.{
  ℕ, zero, suc, ◌≤◌, ◌<◌, ◌≡◌, ◌≢◌, refl, ap, ◌⊎◌, inl, inr, ◌==◌, ==_iff, ℤ, pos, negsuc, is_neg,
  Bool, true, false, List, length, Option, arith, Bool-cases, if◌then◌else◌,
}
use o2k.Outcome.{Outcome, ok, fault, Returns, Returns-ok, Returns-if, Returns-bind, ◌>>=◌}
use o2k.Os.{Os, eintr}
use o2k.SysError.Bounds.{get_sys_error_info-Returns}
use o2k.Listener.{
  Timeval, Selected, select_error, nothing_ready, ready, ServerOs, timeout_of, describe, after_test,
  test_loop, test_can_recv, fits_fd_set,
}

-- `waits` bounds how many more times `select` ends with EINTR, or with a positive number and the
-- descriptor in neither set.
pub record IsPatient {World : Type 0} (os : Os World) (server : ServerOs World) : Type 0 where
  pub waits : World → ℕ
  pub interrupted :
      (fd : ℤ) (errors : Bool) (t t' : Option Timeval) (w w' : World)
      → server.select fd errors t w ≡ (select_error, t', w')
      → os.errno w' ≡ eintr
      → waits w' < waits w
  pub spurious :
      (fd : ℤ) (t t' : Option Timeval) (w w' : World)
      → server.select fd true t w ≡ (ready false false, t', w')
      → waits w' < waits w

-- The last `select` of a call on `fd` answered with `r` and left the world `w'`.
pub record LastSelect {World : Type 0} (server : ServerOs World) (fd : ℤ) (r : Selected)
    (w' : World) : Type 0 where
  pub time : Option Timeval
  pub time' : Option Timeval
  pub before : World
  pub answered : server.select fd true time before ≡ (r, time', w')

-- What `TestCanRecv` says of an answer.
abbrev pub verdict : Selected → ℤ
verdict select_error = negsuc 0
verdict nothing_ready = pos 0
verdict (ready readable errored) = if errored then negsuc 0 else pos 1

-- An answer after which `TestCanRecv` does not wait again.
abbrev pub IsFinal : {World : Type 0} → Os World → Selected → World → Type 0
IsFinal os select_error w = os.errno w ≢ eintr
IsFinal os nothing_ready w = Unit
IsFinal os (ready readable errored) w = (errored ≡ true) ⊎ (readable ≡ true)

module _ {World : Type 0} (os : Os World) (server : ServerOs World) where
  -- The value that `TestCanRecv` returns is the verdict on the last answer of `select`.
  pub record Tested (fd : ℤ) (size : ℕ) (end : ℤ × List ℕ × World) : Type 0 where
    pub answer : Selected
    pub last : LastSelect server fd answer end.2
    pub final : IsFinal os answer end.2
    pub code : end.0 ≡ verdict answer
    pub size_kept : length end.1 ≡ size

  module _ (fd : ℤ) (info : List ℕ) (room : 317 ≤ length info) where
    describe_end :
        (r : Selected) (w' : World)
        → LastSelect server fd r w'
        → IsFinal os r w'
        → negsuc 0 ≡ verdict r
        → Returns
            (Tested fd (length info))
            (describe os server info w' >>= λ info'. ok (negsuc 0, info', w'))
    describe_end r w' last final code =
        Returns-bind _ _ (get_sys_error_info-Returns server.strerror (os.errno w') info room)
          λ info' _ h.
            Returns-ok _
              (record { answer = r; last = last; final = final; code = code; size_kept = h })

    after_test-Tested :
        (r : Selected) (w' : World) (again : Outcome (ℤ × List ℕ × World))
        → LastSelect server fd r w'
        → (r ≡ select_error → os.errno w' ≡ eintr → Returns (Tested fd (length info)) again)
        → (r ≡ ready false false → Returns (Tested fd (length info)) again)
        → Returns (Tested fd (length info)) (after_test os server info r w' again)
    unfolding after_test
    after_test-Tested select_error w' again last wait wait' =
        Returns-if (os.errno w' == eintr) _ _ (λ e. wait refl ((==_iff (os.errno w') eintr).0 e))
          λ e.
            describe_end select_error w' last (λ same. cc ((==_iff (os.errno w') eintr).1 same, e))
              refl
    after_test-Tested nothing_ready w' again last wait wait' =
        Returns-ok _ (record {
          answer = nothing_ready;
          last = last;
          final = tt;
          code = refl;
          size_kept = refl;
        })
    after_test-Tested (ready readable true) w' again last wait wait' =
        describe_end (ready readable true) w' last (inl refl) refl
    after_test-Tested (ready true false) w' again last wait wait' = Returns-ok _ (record {
      answer = ready true false;
      last = last;
      final = inr refl;
      code = refl;
      size_kept = refl;
    })
    after_test-Tested (ready false false) w' again last wait wait' = wait' refl

    module _ (patient : IsPatient os server) where
      test_loop-Tested :
          (fuel : ℕ) (t : Option Timeval) (w : World)
          → patient.waits w < fuel
          → Returns (Tested fd (length info)) (test_loop os server fuel fd t info w)
      unfolding test_loop
      test_loop-Tested zero t w enough = absurd (omega arith)
      test_loop-Tested (suc fuel) t w enough =
          let s = server.select fd true t w in
          after_test-Tested s.0 s.2 _
            (record { time = t; time' = s.1; before = w; answered = refl })
            (λ e interrupted. test_loop-Tested fuel s.1 s.2 (
              omega (
                arith,
                patient.interrupted fd true t s.1 w s.2 (ap (λ r. (r, s.1, s.2)) e) interrupted,
              )))
            (λ e.
              test_loop-Tested fuel s.1 s.2
                (omega (arith, patient.spurious fd t s.1 w s.2 (ap (λ r. (r, s.1, s.2)) e))))

  -- With a buffer of 317 bytes and fuel above the number of waits that are to come, `TestCanRecv` of a
  -- socket below FD_SETSIZE returns, despite interruptions. Its value is the verdict on the last answer of `select`:
  -- 0 where the time was over, 1 where there is something to be received and no error, and -1
  -- otherwise. Of a negative descriptor it returns -1 and changes nothing; of one that is not below
  -- FD_SETSIZE it writes outside its sets.
  pub test_can_recv-Tested :
      (patient : IsPatient os server) (fuel : ℕ) (fd timeoutms : ℤ) (info : List ℕ) (w : World)
      → 317 ≤ length info
      → patient.waits w < fuel
      → ((fits_fd_set fd ≡ true)
          × Returns (Tested fd (length info)) (test_can_recv os server fuel fd timeoutms info w))
        ⊎ ((is_neg fd ≡ true)
            × (test_can_recv os server fuel fd timeoutms info w ≡ ok (negsuc 0, info, w)))
        ⊎ ((is_neg fd ≡ false)
            × (fits_fd_set fd ≡ false)
            × (test_can_recv os server fuel fd timeoutms info w ≡ fault))
  unfolding test_can_recv
  test_can_recv-Tested patient fuel fd timeoutms info w room enough =
      elim (Bool-cases (is_neg fd)) [
        | inl e ↦ inr (inl (e, rw e refl))
        | inr e ↦ elim (Bool-cases (fits_fd_set fd)) [
          | inr wide ↦ inr (inr (e, wide, rw (e, wide) refl))
          | inl fits ↦ inl (
            fits,
            rw (e, fits)
                (test_loop-Tested fd info room patient fuel (timeout_of timeoutms) w enough),
          )
        ]
      ]
