-- ===== src/Keeping.antt =====
-- What reading and writing a socket keep of the world, through packets and messages.
pub mod Sockets
pub mod Messages
use o2k.Prelude.{ℕ, ℤ, List}
use o2k.Os.{Os}

-- `I` holds after `recv` and `send` where it held before.
pub record IsKept {World : Type 0} (os : Os World) (I : World → Type 0) : Type 0 where
  pub recv_keeps : (fd : ℤ) (n : ℕ) (w : World) → I w → I (os.recv fd n w).1
  pub send_keeps : (fd : ℤ) (bs : List ℕ) (w : World) → I w → I (os.send fd bs w).1
