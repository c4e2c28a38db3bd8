-- ===== src/Examples/Objects.antt =====
-- The life of a `CMsgRW` that reads a packet of 1100 bytes and is cleared.
use o2k.Prelude.{
  ℕ, ◌≡◌, refl, pos, true, List, [], ◌++◌, length, tabulate, length-tabulate, some, arith,
}
use o2k.Outcome.{Returns}
use o2k.Socket.Framing.{packet}
use o2k.MsgRw.{MsgRw, new_msg_rw, read_packet, clear}
use o2k.MsgRw.Delivery.{Delivered, read_packet-packet}
use o2k.MsgRw.Memory.{Memory, clear_memory, delete_msg_rw, read_memory}
use o2k.MsgRw.Memory.Owned.{arrays_after, owned}
use o2k.MsgRw.Memory.Lives.{Lives, born, calls, reads, clears, delete_msg_rw-Lives}
use o2k.AdmClient.Session.{new_msg_rw-IsWellFormed, not_Overflows-new}
use o2k.Examples.Admin.{text_codec}
use o2k.Examples.Kernel.{Net, net_os, net_stream, net_healthy}

abbrev payload : List ℕ
payload = tabulate (λ _. 7) 1100

abbrev net : Net
net = record { inbox = packet payload ++ []; outbox = []; pieces = []; error = 0 }

abbrev fuel : ℕ
fuel = 1048600

abbrev fresh : MsgRw
fresh = new_msg_rw net_os (pos 3) net

first_read :
    Returns (Delivered net_stream (pos 3) payload [] net) (read_packet net_os fuel fresh net)
unfolding new_msg_rw
first_read =
    let size : length payload ≡ 1100 = length-tabulate {A = ℕ} (λ _. 7) 1100 in
    read_packet-packet net_os net_stream net_healthy fuel payload [] fresh net
      (new_msg_rw-IsWellFormed net_os (pos 3) net) (omega (arith, size))
      (not_Overflows-new net_os (pos 3) net (length payload)) refl (omega (arith, size))

abbrev grown : MsgRw
grown = first_read.value.1

abbrev trace : List Memory
trace = ([] ++ read_memory net_os fuel fresh net) ++ clear_memory grown true

life : Lives net_os text_codec (pos 3) net trace (clear grown true) first_read.value.2
life = calls (calls born (reads fuel first_read.value.0 first_read.ends)) (clears true)

delete_msg_rw-Lives_example :
    (arrays_after trace (some []) ≡ some (owned (clear grown true)))
    × (arrays_after (trace ++ delete_msg_rw (clear grown true)) (some []) ≡ some [])
delete_msg_rw-Lives_example = delete_msg_rw-Lives net_os text_codec life
