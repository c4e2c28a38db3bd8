-- ===== src/Descriptors.antt =====
-- The descriptors that are open, for the calls of qdcadm that open and close them: what the
-- documentation of the system's calls says of them.
pub mod Clients
pub mod Sessions
pub mod Loop
use o2k.Prelude.{ℕ, ℤ, ◌≡◌, ◌∙◌, is_neg, Bool, true, false, List, [], ◌∷◌}
use o2k.Os.{Os, TimeoutOption}
use o2k.Keeping.{IsKept}

pub record TracksOpen {World : Type 0} (os : Os World) : Type 0 where
  pub opened : World → List ℤ
  pub recv_keeps : (fd : ℤ) (n : ℕ) (w : World) → opened (os.recv fd n w).1 ≡ opened w
  pub send_keeps : (fd : ℤ) (bs : List ℕ) (w : World) → opened (os.send fd bs w).1 ≡ opened w
  pub connect_keeps : (fd : ℤ) (a p : ℕ) (w : World) → opened (os.connect fd a p w).1 ≡ opened w
  pub set_timeout_keeps :
      (fd : ℤ) (o : TimeoutOption) (s : ℤ) (w : World)
      → opened (os.set_timeout fd o s w).1 ≡ opened w
  pub shutdown_keeps : (fd : ℤ) (w : World) → opened (os.shutdown fd w) ≡ opened w
  pub socket_opens :
      (w : World)
      → is_neg (os.socket w).0 ≡ false
      → opened (os.socket w).1 ≡ (os.socket w).0 ∷ opened w
  pub socket_failed :
      (w : World) → is_neg (os.socket w).0 ≡ true → opened (os.socket w).1 ≡ opened w
  pub close_closes :
      (fd : ℤ) (fds : List ℤ) (w : World) → opened w ≡ fd ∷ fds → opened (os.close fd w) ≡ fds

module _ {World : Type 0} (os : Os World) (tracks : TracksOpen os) (fds : List ℤ) where
  -- The descriptors `fds` are open.
  abbrev pub Open : World → Type 0
  Open w = tracks.opened w ≡ fds

  abbrev pub open_kept : IsKept os Open
  open_kept = record {
    recv_keeps = λ fd n w h. tracks.recv_keeps fd n w ∙ h;
    send_keeps = λ fd bs w h. tracks.send_keeps fd bs w ∙ h;
  }
