-- ===== src/Descriptors/Clients.antt =====
-- The socket that a client of qdcadm opens and closes.
use o2k.Prelude.{
  ℕ, ◌≡◌, refl, ◌∙◌, ap, subst, ℤ, pos, negsuc, is_neg, to_word, until_nul, true, false, List, ◌∷◌,
  Option-cases, Bool-cases, inl, inr, ◌%◌, ◌^◌,
}
use o2k.Os.{Os, so_sndtimeo, so_rcvtimeo}
use o2k.Socket.{close_socket}
use o2k.AdmClient.{AdmClient, set_timeouts, connect_to, new_adm_client, delete_adm_client}
use o2k.Descriptors.{TracksOpen, Open}

module _ {World : Type 0} (os : Os World) (tracks : TracksOpen os) where
  pub set_timeouts-Open :
      (fds : List ℤ) (fd seconds : ℤ) (w : World)
      → Open os tracks fds w
      → Open os tracks fds (set_timeouts os fd seconds w).1
  unfolding set_timeouts
  set_timeouts-Open fds fd seconds w h =
      tracks.set_timeout_keeps fd so_rcvtimeo seconds _
      ∙ tracks.set_timeout_keeps fd so_sndtimeo seconds w
      ∙ h

  close_socket-Open :
      (fds : List ℤ) (fd : ℤ) (w : World)
      → is_neg fd ≡ false
      → Open os tracks (fd ∷ fds) w
      → Open os tracks fds (close_socket os fd w)
  unfolding close_socket
  close_socket-Open fds (pos n) w e h =
      tracks.close_closes (pos n) fds (os.shutdown (pos n) w) (tracks.shutdown_keeps (pos n) w ∙ h)
  close_socket-Open fds (negsuc n) w e h = cc

  -- What is open while a client lives: its socket, where it has one.
  abbrev pub with_socket : List ℤ → ℤ → List ℤ
  with_socket fds (pos n) = pos n ∷ fds
  with_socket fds (negsuc n) = fds

  with_socket_pos : (fds : List ℤ) (fd : ℤ) → is_neg fd ≡ false → with_socket fds fd ≡ fd ∷ fds
  with_socket_pos fds (pos n) e = refl
  with_socket_pos fds (negsuc n) e = cc

  with_socket_neg : (fds : List ℤ) (fd : ℤ) → is_neg fd ≡ true → with_socket fds fd ≡ fds
  with_socket_neg fds (pos n) e = cc
  with_socket_neg fds (negsuc n) e = refl

  connect_to-Open :
      (fds : List ℤ) (addr : ℕ) (host : List ℕ) (port : ℤ) (pwd : List ℕ) (w : World)
      → Open os tracks fds w
      → Open os tracks
          (with_socket fds (connect_to os addr host port pwd w).0.sock)
          (connect_to os addr host port pwd w).1
  unfolding connect_to
  connect_to-Open fds addr host port pwd w h =
      let fd = (os.socket w).0 in
      let w' = (os.socket w).1 in
      let made = os.connect fd addr (to_word port % 2 ^ 16) w' in
      elim (Bool-cases (is_neg fd)) [
        | inl failed ↦
            rw failed (rw (with_socket_neg fds fd failed) (tracks.socket_failed w failed ∙ h))
        | inr good ↦
            let now : Open os tracks (fd ∷ fds) made.1 =
              tracks.connect_keeps fd addr (to_word port % 2 ^ 16) w'
              ∙ tracks.socket_opens w good
              ∙ ap (λ l. fd ∷ l) h in
            elim (Bool-cases made.0) [
              | inl connected ↦
                  rw (good, connected)
                    (rw (with_socket_pos fds fd good)
                      (set_timeouts-Open (fd ∷ fds) fd (pos 5) made.1 now))
              | inr refused ↦ rw (good, refused) (close_socket-Open fds fd made.1 good now)
            ]
      ]

  -- The constructor leaves open the socket of the client and nothing else that it opened.
  pub new_adm_client-Open :
      (fds : List ℤ) (host : List ℕ) (port : ℤ) (pwd : List ℕ) (w : World)
      → Open os tracks fds w
      → Open os tracks
          (with_socket fds (new_adm_client os host port pwd w).0.sock)
          (new_adm_client os host port pwd w).1
  unfolding new_adm_client
  new_adm_client-Open fds host port pwd w h = elim (Option-cases (os.inet_addr (until_nul host))) [
    | inl bad ↦ rw (bad, new_adm_client) h
    | inr (addr, good) ↦ rw (good, new_adm_client) (connect_to-Open fds addr host port pwd w h)
  ]

  -- The destructor closes it.
  pub delete_adm_client-Open :
      (fds : List ℤ) (c : AdmClient) (w : World)
      → Open os tracks (with_socket fds c.sock) w
      → Open os tracks fds (delete_adm_client os c w)
  unfolding delete_adm_client
  delete_adm_client-Open fds c w h = elim (Bool-cases (is_neg c.sock)) [
    | inl absent ↦ rw absent (subst (λ l. Open os tracks l w) (with_socket_neg fds c.sock absent) h)
    | inr there ↦ rw there (
        close_socket-Open fds c.sock w there
          (subst (λ l. Open os tracks l w) (with_socket_pos fds c.sock there) h))
  ]
