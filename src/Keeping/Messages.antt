-- ===== src/Keeping/Messages.antt =====
-- Packets and messages.
use o2k.Prelude.{
  ℕ, ℤ, pos, negsuc, is_neg, not_pos, ◌==ℤ◌, to_int, ltb, not, false, List, length, Option-cases,
  inl, inr,
}
use o2k.Outcome.{Outcome, ok, fault, stuck, Ensures, Ensures-bind, Ensures-if, ◌>>=◌}
use o2k.Os.{Os}
use o2k.Socket.{no_error, header_of}
use o2k.AdminMsg.{MsgCmd, Codec}
use o2k.MsgRw.{
  MsgRw, msgbuf, clear, make_room, write_front, write_at, read_payload, check_length, read_packet,
  send, max_adm_pkg, parse_msgbuf,
}
use o2k.MsgRw.Messages.{check_header, read_message, read_result, exec_cmd_result}
use o2k.Keeping.{IsKept}
use o2k.Keeping.Sockets.{socket_read-Kept, send_packet-Kept}

-- A step that has no world keeps what holds of one.
pub Ensures-any {ℓ ℓ' κ} :
    {A : Type ℓ} {B : Type ℓ'} (Q : B → Type κ) (m : Outcome A) (f : A → Outcome B)
    → ((a : A) → Ensures Q (f a))
    → Ensures Q (m >>= f)
Ensures-any Q (ok a) f k = k a
Ensures-any Q fault f k = tt
Ensures-any Q stuck f k = tt

module _ {World : Type 0} (os : Os World) (I : World → Type 0) (kept : IsKept os I) where
  -- The world that a call leaves behind its value and its object.
  abbrev pub Kept {ℓ κ} : {A : Type ℓ} {B : Type κ} → A × B × World → Type 0
  Kept end = I end.2

  read_payload-Kept :
      (fuel n : ℕ) (s : MsgRw) (w : World) → I w → Ensures Kept (read_payload os fuel n s w)
  unfolding read_payload
  read_payload-Kept fuel n s w h =
      Ensures-bind (λ end. I end.1) Kept _ _
        (socket_read-Kept os I kept fuel s.sock (pos n) s.errbuf w h)
        λ x h'. Ensures-any Kept (write_front x.0.bytes (msgbuf s)) _ λ mem.
          Ensures-any Kept (write_at mem n 0) _
            λ mem'. Ensures-if Kept (not (x.0.code ==ℤ pos n)) _ _ h' h'

  check_length-Kept :
      (fuel : ℕ) (len : ℤ) (s : MsgRw) (w : World)
      → I w
      → Ensures Kept (check_length os fuel len s w)
  unfolding check_length
  check_length-Kept fuel (negsuc n) s w h = h
  check_length-Kept fuel (pos n) s w h =
      Ensures-if Kept (ltb max_adm_pkg n) _ _ h (read_payload-Kept fuel n (make_room os n w s) w h)

  pub read_packet-Kept :
      (fuel : ℕ) (s : MsgRw) (w : World) → I w → Ensures Kept (read_packet os fuel s w)
  unfolding read_packet
  read_packet-Kept fuel s w h =
      Ensures-bind (λ end. I end.1) Kept _ _
        (socket_read-Kept os I kept fuel s.sock (pos 4) no_error w h)
        λ x h'. Ensures-if Kept (is_neg x.0.code) _ _ h' (
          check_length-Kept fuel (header_of os x.0.bytes w)
            (record (clear s false) { errbuf = x.0.err }) x.1 h')

  pub send-Kept :
      (fuel : ℕ) (pkg : List ℕ) (len : ℤ) (s : MsgRw) (w : World)
      → I w
      → Ensures Kept (send os fuel pkg len s w)
  unfolding send
  send-Kept fuel pkg len s w h =
      Ensures-bind (λ end. I end.1) Kept _ _
        (send_packet-Kept os I kept fuel s.sock pkg len s.errbuf w h) λ x h'. h'

  module _ (codec : Codec) where
    read_result-Kept :
        (fuel : ℕ) (s : MsgRw) (w : World) → I w → Ensures Kept (read_result os codec fuel s w)
    unfolding read_result read_message
    read_result-Kept fuel s w h = Ensures-bind Kept Kept _ _ (read_packet-Kept fuel s w h) λ x h'.
        Ensures-if Kept (not_pos x.0) _ _ h' (
          Ensures-any Kept (parse_msgbuf codec.parse_wrap x.1) _
            λ hdr. Ensures-any Kept (check_header _ _ _ x.1 hdr) _ λ m. h')

    pub exec_cmd_result-Kept :
        (fuel : ℕ) (cmd : MsgCmd) (s : MsgRw) (w : World)
        → I w
        → Ensures Kept (exec_cmd_result os codec fuel cmd s w)
    unfolding exec_cmd_result
    exec_cmd_result-Kept fuel cmd s w h = elim (Option-cases (codec.serialize_cmd cmd)) [
      | inl unmade ↦ rw (unmade, Ensures) h
      | inr (pkg, made) ↦
          rw (made, Ensures)
            (Ensures-bind Kept Kept _ _ (send-Kept fuel pkg (to_int (length pkg)) s w h)
              λ x h'. Ensures-if Kept (not_pos x.0) _ _ h' (read_result-Kept fuel x.1 x.2 h'))
    ]
