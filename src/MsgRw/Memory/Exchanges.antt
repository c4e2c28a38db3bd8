-- ===== src/MsgRw/Memory/Exchanges.antt =====
-- What the methods of `CMsgRW` that parse, read and send messages do to the array that the object owns.
use o2k.Prelude.{
  ℕ, ◌≡◌, refl, ap, sym, subst, ◌∙◌, ℤ, ◌==◌, ◌==ℤ◌, not_pos, to_int, List, length, map, Option,
  none, some, if◌then◌else◌, Bool-cases, Option-cases, inl, inr,
}
use o2k.Outcome.{Outcome, ok, fault, stuck, Ensures, Ensures-if, Ensures-bind, ◌>>=◌}
use o2k.Os.{Os}
use o2k.Socket.{ErrText, not_result}
use o2k.AdminMsg.{MsgHeaderWrap, MsgCmd, header_or_default, default_result, type_result, Codec}
use o2k.StrMap.{StrMap}
use o2k.MsgRw.{MsgRw, owns_array, read_packet, send, parse_msgbuf, make_msg_hdr}
use o2k.MsgRw.Messages.{
  parse_packet, parsed, check_header, read_message, read_result, reply_result, exec_cmd_result,
  pair_of,
}
use o2k.MsgRw.Memory.{read_memory, exec_memory, sent_memory}
use o2k.Keeping.Messages.{Ensures-any}
use o2k.MsgRw.Memory.Owned.{arrays_after, owned, Keeps, EndTakes, read_packet-Takes, send-Keeps}

-- The object behind a parse owns what the one before it did.
abbrev Kept : {A : Type 0} → MsgRw → A × MsgRw → Type 0
Kept s end = owned (end.1) ≡ owned s

parsed-Kept : {A : Type 0} (s : MsgRw) (m : Option A) → Kept s (parsed s m)
unfolding owns_array
parsed-Kept s none = refl
parsed-Kept s (some m) = refl

module _ {World : Type 0} (os : Os World) (codec : Codec) where
  pub parsed-Keeps :
      {A : Type 0} (parse : List ℕ → Option A) (s : MsgRw) → Ensures (Kept s) (parse_packet parse s)
  unfolding parse_packet owns_array
  parsed-Keeps parse s =
      Ensures-if (Kept s) (s.lenmsg == 0) (ok (none, s)) _ refl
        (Ensures-any (Kept s) (parse_msgbuf parse s) _ λ m. parsed-Kept s m)

  check_header-Keeps :
      {A : Type 0} (expected : ℤ) (wrong : ErrText) (parse : List ℕ → Option A) (s : MsgRw)
      (hdr : Option MsgHeaderWrap)
      → Ensures (Kept s) (check_header expected wrong parse s hdr)
  unfolding check_header owns_array
  check_header-Keeps expected wrong parse s none = refl
  check_header-Keeps expected wrong parse s (some hdr) =
      Ensures-if (Kept s) ((header_or_default hdr.msg_header).msg_type ==ℤ expected) _ _
        (Ensures-any (Kept s) (parse_msgbuf parse s) _ λ m. parsed-Kept s m) refl

  pub read_message-Takes :
      {A : Type 0} (expected : ℤ) (wrong : ErrText) (parse : List ℕ → Option A) (fuel : ℕ)
      (s : MsgRw) (w : World)
      → Ensures
          (EndTakes os (read_memory os fuel s w) s)
          (read_message os codec expected wrong parse fuel s w)
  unfolding read_message
  read_message-Takes expected wrong parse fuel s w =
      Ensures-bind (EndTakes os (read_memory os fuel s w) s)
        (EndTakes os (read_memory os fuel s w) s) (read_packet os fuel s w) _
        (read_packet-Takes os fuel s w)
        λ x h. Ensures-if (EndTakes os (read_memory os fuel s w) s) (not_pos x.0) _ _ h (
          Ensures-any (EndTakes os (read_memory os fuel s w) s) (parse_msgbuf codec.parse_wrap x.1)
            _
            λ hdr.
              Ensures-bind (Kept x.1) (EndTakes os (read_memory os fuel s w) s)
                (check_header expected wrong parse x.1 hdr) _
                (check_header-Keeps expected wrong parse x.1 hdr) λ y same. h ∙ ap some (sym same))

  pub reply_result-Keeps :
      (fuel : ℕ) (rc msg : List ℕ) (apdmsg : StrMap) (s : MsgRw) (w : World)
      → Ensures (Keeps os (owned s)) (reply_result os codec fuel rc msg apdmsg s w)
  unfolding reply_result owns_array
  reply_result-Keeps fuel rc msg apdmsg s w =
      elim (Option-cases (
        codec.serialize_result (record default_result {
          msg_header = some (make_msg_hdr type_result);
          rc = rc;
          msg = msg;
          rt_pairs = map pair_of apdmsg;
        }))) [
          | inl refused ↦ rw (refused, reply_result) refl
          | inr (pkg, made) ↦
              rw (made, reply_result)
                (Ensures-bind (Keeps os (owned s)) (Keeps os (owned s))
                  (send os fuel pkg (to_int (length pkg)) s w) _
                  (send-Keeps os fuel pkg (to_int (length pkg)) s w) λ x same. same)
        ]

  -- What follows the send of a command.
  sent-Takes :
      (fuel : ℕ) (s : MsgRw) (r : Outcome (ℤ × MsgRw × World))
      → Ensures (Keeps os (owned s)) r
      → Ensures (EndTakes os (sent_memory os fuel r) s) (
          r >>= λ (rc, s', w').
          if not_pos rc then ok (none, s', w') else read_result os codec fuel s' w')
  unfolding read_result
  sent-Takes fuel s fault h = tt
  sent-Takes fuel s stuck h = tt
  sent-Takes fuel s (ok (rc, s', w')) same = elim (Bool-cases (not_pos rc)) [
    | inl failed ↦ rw failed (ap some (sym same))
    | inr gone ↦ rw gone (
        subst
          (λ own.
            Ensures
              (λ end. arrays_after (read_memory os fuel s' w') (some own) ≡ some (owned end.1))
              (read_result os codec fuel s' w'))
          same (read_message-Takes type_result not_result codec.parse_result fuel s' w'))
  ]

  pub exec_cmd_result-Takes :
      (fuel : ℕ) (cmd : MsgCmd) (s : MsgRw) (w : World)
      → Ensures
          (EndTakes os (exec_memory os codec fuel cmd s w) s)
          (exec_cmd_result os codec fuel cmd s w)
  unfolding exec_cmd_result exec_memory owns_array
  exec_cmd_result-Takes fuel cmd s w = elim (Option-cases (codec.serialize_cmd cmd)) [
    | inl refused ↦ rw (refused, exec_memory, exec_cmd_result) refl
    | inr (pkg, made) ↦
        rw (made, exec_memory, exec_cmd_result)
          (sent-Takes fuel s (send os fuel pkg (to_int (length pkg)) s w)
            (send-Keeps os fuel pkg (to_int (length pkg)) s w))
  ]
