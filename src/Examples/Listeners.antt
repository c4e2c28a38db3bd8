-- ===== src/Examples/Listeners.antt =====
-- A server whose `select` follows the script of the stream.
use o2k.Prelude.{
  ℕ, zero, suc, ◌+◌, ◌≤◌, ◌<◌, ◌≡◌, ◌⊎◌, inl, refl, pos, negsuc, true, false, List, [], ◌∷◌, ◌++◌,
  tabulate, length, Option, some, arith, codes, c_str,
}
use o2k.Outcome.{ok, fault, Returns}
use o2k.Os.{eintr}
use o2k.SysError.{errno_text, get_sys_error_info}
use o2k.SysError.Bounds.{get_sys_error_info_bounds}
use o2k.Listener.{
  Timeval, Selected, select_error, nothing_ready, ready, ServerOs, listen_on, accept_on,
  fits_fd_set, test_can_recv,
}
use o2k.Listener.Waiting.{IsPatient, Tested, test_can_recv-Tested}
use o2k.Listener.Accepting.{AcceptPost, accept_on-AcceptPost}
use o2k.Listener.Failures.{listen_on-fault}
use o2k.Examples.Kernel.{Net, net_os}

-- A piece of 0 interrupts a call, 1 ends its time, another number wakes it for nothing; when the
-- script is over the descriptor is readable.
unfoldable select_by : List ℕ → Option Timeval → Net → Selected × Option Timeval × Net
select_by [] t w = (ready true false, t, w)
select_by (zero ∷ ps) t w = (select_error, t, record w { pieces = ps; error = eintr })
select_by (suc zero ∷ ps) t w = (nothing_ready, t, record w { pieces = ps })
select_by (suc (suc k) ∷ ps) t w = (ready false false, t, record w { pieces = ps })

abbrev server_os : ServerOs Net
server_os = record {
  set_option = λ _ _ w. w;
  bind = λ _ _ _ w. (false, w);
  listen = λ _ _ w. (true, w);
  accept = λ _ w. (pos 5, record w { error = 0 });
  select = λ _ _ t w. select_by w.pieces t w;
  strerror = λ _. codes "Address already in use";
}

select_by-interrupted :
    (ps : List ℕ) (t t' : Option Timeval) (w w' : Net)
    → w.pieces ≡ ps
    → select_by ps t w ≡ (select_error, t', w')
    → length w'.pieces < length w.pieces
unfolding select_by
select_by-interrupted [] t t' w w' p e = ground arith
select_by-interrupted (zero ∷ ps) t t' w w' p e = ground arith
select_by-interrupted (suc zero ∷ ps) t t' w w' p e = ground arith
select_by-interrupted (suc (suc k) ∷ ps) t t' w w' p e = ground arith

select_by-spurious :
    (ps : List ℕ) (t t' : Option Timeval) (w w' : Net)
    → w.pieces ≡ ps
    → select_by ps t w ≡ (ready false false, t', w')
    → length w'.pieces < length w.pieces
unfolding select_by
select_by-spurious [] t t' w w' p e = ground arith
select_by-spurious (zero ∷ ps) t t' w w' p e = ground arith
select_by-spurious (suc zero ∷ ps) t t' w w' p e = ground arith
select_by-spurious (suc (suc k) ∷ ps) t t' w w' p e = ground arith

abbrev patient : IsPatient net_os server_os
patient = record {
  waits = λ w. length w.pieces;
  interrupted = λ _ _ t t' w w' e _. select_by-interrupted w.pieces t t' w w' refl e;
  spurious = λ _ t t' w w' e. select_by-spurious w.pieces t t' w w' refl e;
}

abbrev interrupted_net : Net
interrupted_net = record { inbox = []; outbox = []; pieces = 0 ∷ 2 ∷ 0 ∷ []; error = 0 }

abbrev text_buffer : List ℕ
text_buffer = tabulate (λ i. i) 400

test_can_recv-Tested_example :
    ((true ≡ true)
      × Returns
          (Tested net_os server_os (pos 3) 400)
          (test_can_recv net_os server_os 4 (pos 3) (pos 1500) text_buffer interrupted_net))
    ⊎ ((false ≡ true)
        × (test_can_recv net_os server_os 4 (pos 3) (pos 1500) text_buffer interrupted_net
            ≡ ok (negsuc 0, text_buffer, interrupted_net)))
    ⊎ ((false ≡ false)
        × (true ≡ false)
        × (test_can_recv net_os server_os 4 (pos 3) (pos 1500) text_buffer interrupted_net ≡ fault))
unfolding fits_fd_set
test_can_recv-Tested_example =
    test_can_recv-Tested net_os server_os patient 4 (pos 3) (pos 1500) text_buffer interrupted_net
      (omega arith) (omega arith)

accept_on-AcceptPost_example :
    ((true ≡ true)
      × Returns
          (AcceptPost net_os server_os (pos 3) 400)
          (accept_on net_os server_os 4 (pos 3) (negsuc 0) text_buffer interrupted_net))
    ⊎ ((true ≡ false)
        × (accept_on net_os server_os 4 (pos 3) (negsuc 0) text_buffer interrupted_net ≡ fault))
unfolding fits_fd_set
accept_on-AcceptPost_example =
    accept_on-AcceptPost net_os server_os patient 4 (pos 3) (negsuc 0) text_buffer interrupted_net
      (omega arith) (omega arith)

listen_on-fault_example :
    listen_on net_os server_os (pos 9876) text_buffer (some (codes "1.2.3.4")) interrupted_net
    ≡ fault
listen_on-fault_example =
    listen_on-fault net_os server_os (pos 9876) text_buffer (some (codes "1.2.3.4")) interrupted_net
      refl (inl refl)

get_sys_error_info_bounds_example :
    ((length (errno_text 98) + 299 ≤ 300)
      × Returns
          (λ info'.
            (length info' ≡ 300)
            × (c_str info' ≡ some (errno_text 98 ++ codes "Address already in use")))
          (get_sys_error_info server_os.strerror 98 (tabulate (λ i. i) 300)))
    ⊎ ((300 < length (errno_text 98) + 299)
        × (get_sys_error_info server_os.strerror 98 (tabulate (λ i. i) 300) ≡ fault))
get_sys_error_info_bounds_example =
    get_sys_error_info_bounds server_os.strerror 98 (tabulate (λ i. i) 300) refl (omega arith)
