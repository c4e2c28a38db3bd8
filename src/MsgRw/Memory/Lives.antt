-- ===== src/MsgRw/Memory/Lives.antt =====
-- The life of a `CMsgRW`, from its constructor to its destructor, in any order of its methods. A life has a trace of the arrays that were made and given back.
use o2k.Prelude.{ℕ, ◌≡◌, refl, ap, sym, ◌∙◌, ℤ, Bool, List, [], ◌++◌, Option, subst, some}
use o2k.Outcome.{Outcome, ok, Ensures}
use o2k.Os.{Os}
use o2k.AdminMsg.{MsgHeaderWrap, MsgCmd, MsgResult, Codec}
use o2k.MsgRw.{MsgRw, owns_array, clear, new_msg_rw, read_packet, send}
use o2k.MsgRw.Messages.{parse_msg_header, parse_command, parse_result}
use o2k.MsgRw.Memory.{Memory, clear_memory, delete_msg_rw, read_memory}
use o2k.MsgRw.Messages.{read_command, read_result, reply_result, exec_cmd_result}
use o2k.Socket.{not_cmd, not_result}
use o2k.AdminMsg.{type_command, type_result}
use o2k.StrMap.{StrMap}
use o2k.MsgRw.Memory.{exec_memory}
use o2k.MsgRw.Memory.Exchanges.{
  parsed-Keeps, read_message-Takes, reply_result-Keeps, exec_cmd_result-Takes,
}
use o2k.MsgRw.Memory.Owned.{
  arrays_after, arrays_after-append, owned, Takes, delete_array-Takes, clear-Takes,
  read_packet-Takes, send-Keeps,
}

-- The calls that take an object to another, each where it returns, with what they do to the arrays.
pub data Calls {World : Type 0} (os : Os World) (codec : Codec) (s : MsgRw) (w : World)
    : List Memory → MsgRw → World → Type 0 where
  reads :
      (fuel : ℕ) (rc : ℤ) {s' : MsgRw} {w' : World}
      → read_packet os fuel s w ≡ ok (rc, s', w')
      → Calls os codec s w (read_memory os fuel s w) s' w'
  sends :
      (fuel : ℕ) (pkg : List ℕ) (len rc : ℤ) {s' : MsgRw} {w' : World}
      → send os fuel pkg len s w ≡ ok (rc, s', w')
      → Calls os codec s w [] s' w'
  clears : (free_buf : Bool) → Calls os codec s w (clear_memory s free_buf) (clear s free_buf) w
  parses_header :
      (m : Option MsgHeaderWrap) {s' : MsgRw}
      → parse_msg_header codec s ≡ ok (m, s')
      → Calls os codec s w [] s' w
  parses_command :
      (m : Option MsgCmd) {s' : MsgRw}
      → parse_command codec s ≡ ok (m, s')
      → Calls os codec s w [] s' w
  parses_result :
      (m : Option MsgResult) {s' : MsgRw}
      → parse_result codec s ≡ ok (m, s')
      → Calls os codec s w [] s' w
  reads_command :
      (fuel : ℕ) (m : Option MsgCmd) {s' : MsgRw} {w' : World}
      → read_command os codec fuel s w ≡ ok (m, s', w')
      → Calls os codec s w (read_memory os fuel s w) s' w'
  reads_result :
      (fuel : ℕ) (m : Option MsgResult) {s' : MsgRw} {w' : World}
      → read_result os codec fuel s w ≡ ok (m, s', w')
      → Calls os codec s w (read_memory os fuel s w) s' w'
  replies :
      (fuel : ℕ) (rc msg : List ℕ) (apdmsg : StrMap) (code : ℤ) {s' : MsgRw} {w' : World}
      → reply_result os codec fuel rc msg apdmsg s w ≡ ok (code, s', w')
      → Calls os codec s w [] s' w'
  executes :
      (fuel : ℕ) (cmd : MsgCmd) (m : Option MsgResult) {s' : MsgRw} {w' : World}
      → exec_cmd_result os codec fuel cmd s w ≡ ok (m, s', w')
      → Calls os codec s w (exec_memory os codec fuel cmd s w) s' w'

-- A life up to some moment, with all that was made and given back.
pub data Lives {World : Type 0} (os : Os World) (codec : Codec) (fd : ℤ) (start : World)
    : List Memory → MsgRw → World → Type 0 where
  born : Lives os codec fd start [] (new_msg_rw os fd start) start
  calls :
      {ms ms' : List Memory} {s s' : MsgRw} {w w' : World}
      → Lives os codec fd start ms s w
      → Calls os codec s w ms' s' w'
      → Lives os codec fd start (ms ++ ms') s' w'

-- What holds of the value of a call that returned.
of_ok : {A : Type 0} (P : A → Type 0) {m : Outcome A} {a : A} → Ensures P m → m ≡ ok a → P a
of_ok P h e = subst (Ensures P) e h

module _ {World : Type 0} (os : Os World) (codec : Codec) where
  Calls-Takes :
      {s s' : MsgRw} {w w' : World} {ms : List Memory} → Calls os codec s w ms s' w' → Takes ms s s'
  unfolding parse_msg_header parse_command parse_result read_command read_result
  Calls-Takes (reads fuel rc h) = of_ok _ (read_packet-Takes os _ _ _) h
  Calls-Takes (sends fuel pkg len rc h) = ap some (sym (of_ok _ (send-Keeps os _ _ _ _ _) h))
  Calls-Takes (clears free_buf) = clear-Takes _ free_buf
  Calls-Takes (parses_header m h) =
      ap some (sym (of_ok _ (parsed-Keeps os codec codec.parse_wrap _) h))
  Calls-Takes (parses_command m h) =
      ap some (sym (of_ok _ (parsed-Keeps os codec codec.parse_cmd _) h))
  Calls-Takes (parses_result m h) =
      ap some (sym (of_ok _ (parsed-Keeps os codec codec.parse_result _) h))
  Calls-Takes (reads_command fuel m h) =
      of_ok _ (read_message-Takes os codec type_command not_cmd codec.parse_cmd fuel _ _) h
  Calls-Takes (reads_result fuel m h) =
      of_ok _ (read_message-Takes os codec type_result not_result codec.parse_result fuel _ _) h
  Calls-Takes (replies fuel rc msg apdmsg code h) =
      ap some (sym (of_ok _ (reply_result-Keeps os codec fuel rc msg apdmsg _ _) h))
  Calls-Takes (executes fuel cmd m h) = of_ok _ (exec_cmd_result-Takes os codec fuel cmd _ _) h

  Lives-Takes :
      {fd : ℤ} {start w : World} {ms : List Memory} {s : MsgRw}
      → Lives os codec fd start ms s w
      → arrays_after ms (some []) ≡ some (owned s)
  unfolding new_msg_rw owns_array
  Lives-Takes born = refl
  Lives-Takes (calls {ms = ms} {ms' = ms'} life call) =
      arrays_after-append ms ms' (some [])
      ∙ ap (arrays_after ms') (Lives-Takes life)
      ∙ Calls-Takes call

  -- Whatever the methods that a `CMsgRW` goes through, in any order and with any answers of the
  -- system, each of which returned, no array is given back that is not there, the arrays that are
  -- there at any moment are the one that `m_msgbuf` points to, or none where that is `m_buf`, and
  -- none is left by the destructor.
  pub delete_msg_rw-Lives :
      {fd : ℤ} {start w : World} {ms : List Memory} {s : MsgRw}
      → Lives os codec fd start ms s w
      → (arrays_after ms (some []) ≡ some (owned s))
        × (arrays_after (ms ++ delete_msg_rw s) (some []) ≡ some [])
  delete_msg_rw-Lives {ms = ms} {s = s} life = (
    Lives-Takes life,
    arrays_after-append ms (delete_msg_rw s) (some [])
        ∙ ap (arrays_after (delete_msg_rw s)) (Lives-Takes life)
        ∙ delete_array-Takes s,
  )
