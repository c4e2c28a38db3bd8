-- ===== src/Examples/Packets.antt =====
-- Runs of `CMsgRW::ReadPacket`.
use o2k.Prelude.{
  ℕ, ◌≡◌, refl, ◌⊎◌, pos, [], ◌∷◌, ◌++◌, tabulate, length-tabulate, some, htonl, arith,
}
use o2k.Outcome.{fault, Returns, ◌>>=◌}
use o2k.Socket.{no_error}
use o2k.MsgRw.{MsgRw, read_packet}
use o2k.MsgRw.Buffer.{IsWellFormed, Overflows}
use o2k.MsgRw.Packets.{PacketPost, Announced, read_packet-Returns}
use o2k.MsgRw.Delivery.{Delivered, read_packet-packet, read_packet_overflow}
use o2k.MsgRw.Channel.{transmit, receive, transmit-receive}
use o2k.Examples.Kernel.{Net, net_os, net_stream, net_healthy}

-- An object whose last packet was of 2000 bytes.
abbrev grown : MsgRw
grown = record {
  sock = pos 3;
  errbuf = no_error;
  buf = tabulate (λ _. 1) 1026;
  heap = some (tabulate (λ _. 1) 2002);
  lenbuf = 2002;
  lenmsg = 0;
}

grown-IsWellFormed : IsWellFormed grown
grown-IsWellFormed = record {
  buf_size = length-tabulate {A = ℕ} (λ _. 1) 1026;
  heap_size = (length-tabulate {A = ℕ} (λ _. 1) 2002, omega arith, omega arith);
  terminated = λ h. absurd (omega arith);
}

abbrev net : Net
net = record {
  inbox = 0 ∷ 0 ∷ 0 ∷ 3 ∷ 7 ∷ 0 ∷ 9 ∷ 1 ∷ [];
  outbox = [];
  pieces = 2 ∷ 0 ∷ 1 ∷ [];
  error = 0;
}

abbrev fuel : ℕ
fuel = 1048600

read_packet-Returns_example :
    Returns (PacketPost (pos 3)) (read_packet net_os fuel grown net)
    ⊎ ((n : ℕ) × (read_packet net_os fuel grown net ≡ fault)
        × Announced net_os net_stream fuel grown net n
        × Overflows n grown)
read_packet-Returns_example =
    read_packet-Returns net_os net_stream fuel grown net grown-IsWellFormed (omega arith)

read_packet-packet_example :
    Returns
      (Delivered net_stream (pos 3) (7 ∷ 0 ∷ 9 ∷ []) (1 ∷ []) net)
      (read_packet net_os fuel grown net)
read_packet-packet_example =
    read_packet-packet net_os net_stream net_healthy fuel (7 ∷ 0 ∷ 9 ∷ []) (1 ∷ []) grown net
      grown-IsWellFormed (omega arith) (λ h. absurd (omega arith)) refl (omega arith)

read_packet_overflow_example :
    read_packet net_os fuel grown (record net { inbox = htonl 2002 ++ [] }) ≡ fault
read_packet_overflow_example =
    read_packet_overflow net_os net_stream net_healthy fuel 2002 [] grown
      (record net { inbox = htonl 2002 ++ [] }) grown-IsWellFormed (omega arith) (omega arith) refl
      (omega arith)

-- The other end of a connection, which gets the bytes in pieces of its own.
abbrev peer : Net → Net
peer w = record { inbox = w.outbox; outbox = []; pieces = 1 ∷ 0 ∷ 3 ∷ []; error = 0 }

transmit-receive_example :
    Returns
      (λ end. (end.0 ≡ some (7 ∷ 0 ∷ []) ∷ some (8 ∷ []) ∷ []) × (end.2.inbox ≡ []))
      (transmit net_os fuel ((7 ∷ 0 ∷ []) ∷ (8 ∷ []) ∷ []) grown net >>= λ (_, w).
        receive net_os fuel 2 grown (peer w))
transmit-receive_example =
    transmit-receive net_os net_stream net_healthy net_os net_stream net_healthy peer fuel
      ((7 ∷ 0 ∷ []) ∷ (8 ∷ []) ∷ []) grown grown net (λ _. refl) (λ _. omega arith) (omega arith)
      ((omega arith, omega arith), ((omega arith, omega arith), tt)) grown-IsWellFormed refl
