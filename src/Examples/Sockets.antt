-- ===== src/Examples/Sockets.antt =====
-- Runs of qdcadm/SimpleSocketFunc.cpp over a stream that comes in pieces.
use o2k.Prelude.{◌≡◌, refl, pos, [], ◌∷◌, arith}
use o2k.Outcome.{ok, Returns}
use o2k.Socket.{
  no_error, header_of, socket_read, socket_read_loop, socket_write, socket_write_loop, read_packet,
  send_packet,
}
use o2k.Socket.Framing.{PacketRead, framed_packet}
use o2k.Examples.Kernel.{Net, net_os, net_stream, net_healthy, recv_by, send_by}

-- Two bytes, an interruption, then one byte at a time.
abbrev net : Net
net = record {
  inbox = 0 ∷ 0 ∷ 0 ∷ 3 ∷ 7 ∷ 8 ∷ 9 ∷ 1 ∷ [];
  outbox = [];
  pieces = 2 ∷ 0 ∷ 1 ∷ 1 ∷ 1 ∷ [];
  error = 0;
}

abbrev after_packet : Net
after_packet = record { inbox = 1 ∷ []; outbox = []; pieces = []; error = 0 }

read_packet_run :
    read_packet net_os 20 (pos 3) no_error net
    ≡ ok (record { code = pos 3; bytes = 7 ∷ 8 ∷ 9 ∷ []; err = no_error }, after_packet)
unfolding read_packet socket_read socket_read_loop header_of recv_by
read_packet_run = refl

send_packet_run :
    send_packet net_os 20 (pos 3) (7 ∷ 8 ∷ []) (pos 2) no_error (record net { inbox = [] })
    ≡ ok (
      record { code = pos 2; err = no_error },
      record { inbox = []; outbox = 0 ∷ 0 ∷ 0 ∷ 2 ∷ 7 ∷ 8 ∷ []; pieces = []; error = 0 },
    )
unfolding send_packet socket_write socket_write_loop send_by
send_packet_run = refl

framed_packet_example :
    Returns
      (PacketRead net_stream (pos 3) (7 ∷ 8 ∷ 9 ∷ []) (1 ∷ []))
      (read_packet net_os 20 (pos 3) no_error net)
framed_packet_example =
    framed_packet net_os net_stream net_healthy 20 (pos 3) (7 ∷ 8 ∷ 9 ∷ []) (1 ∷ []) no_error net
      (omega arith) refl (omega arith)
