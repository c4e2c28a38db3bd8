-- ===== src/Listener/Failures.antt =====
-- What `Listen` does where a call fails.
use o2k.Prelude.{
  ℕ, ◌%◌, ◌^◌, ◌≡◌, refl, ◌⊎◌, inl, inr, ℤ, negsuc, ◌==ℤ◌, to_word, Bool, false, List,
  length-tabulate, Option, Bool-cases, codes,
}
use o2k.Outcome.{fault}
use o2k.Os.{Os}
use o2k.SysError.{sys_errmsg_max_size}
use o2k.SysError.Bounds.{get_sys_error_info_overflow}
use o2k.Listener.{ServerOs, so_linger, so_reuseaddr, address_of, listen_failed, listen_on}

module _ {World : Type 0} (os : Os World) (server : ServerOs World) where
  listen_failed-fault :
      (call : List ℕ) (ip : Option (List ℕ)) (port : ℤ) (info : List ℕ) (w : World)
      → listen_failed os server call ip port info w ≡ fault
  unfolding listen_failed
  listen_failed-fault call ip port info w =
      rw
        (get_sys_error_info_overflow server.strerror (os.errno w) _
          (length-tabulate {A = ℕ} (os.junk w) sys_errmsg_max_size))
        refl

  -- The world in which `Listen` calls `bind`, and the answers of `bind` and `listen`.
  abbrev pub prepared : World → World
  prepared w =
      let (fd, w') = os.socket w in
      server.set_option fd so_linger (server.set_option fd so_reuseaddr w')

  abbrev pub bound : ℤ → Option (List ℕ) → World → Bool × World
  bound port ip w =
      server.bind (os.socket w).0 (address_of os server ip) (to_word port % 2 ^ 16) (prepared w)

  -- Where the socket was made and `bind`, or then `listen`, fails, `Listen` writes outside the array
  -- that it keeps for the system's text, whatever the address, the port and the error: it never
  -- returns the -1 that is meant.
  pub listen_on-fault :
      (port : ℤ) (info : List ℕ) (ip : Option (List ℕ)) (w : World)
      → ((os.socket w).0 ==ℤ negsuc 0) ≡ false
      → ((bound port ip w).0 ≡ false)
        ⊎ ((server.listen (os.socket w).0 10 (bound port ip w).1).0 ≡ false)
      → listen_on os server port info ip w ≡ fault
  unfolding listen_on
  listen_on-fault port info ip w made (inl refused) =
      rw (made, refused) (listen_failed-fault (codes "bind") ip port info (bound port ip w).1)
  listen_on-fault port info ip w made (inr refused) = elim (Bool-cases (bound port ip w).0) [
    | inr unbound ↦
        rw (made, unbound) (listen_failed-fault (codes "bind") ip port info (bound port ip w).1)
    | inl well ↦ rw (made, well, refused) (listen_failed-fault (codes "listen") ip port info _)
  ]
