-- ===== src/Examples/Desk.antt =====
-- A system that keeps the descriptors that are open, and a run of qdcadm on it.
use o2k.Prelude.{
  ℕ, suc, ◌+◌, ◌≡◌, refl, ap, ℤ, pos, is_neg, ◌==ℤ◌, ==ℤ_refl, true, List, [], ◌∷◌, Option, some,
  none, if◌then◌else◌, codes, ◌≤◌, ◌<◌, ◌^◌, ltb, length, arith,
}
use o2k.Outcome.{Returns}
use o2k.Os.{Os, IsStream}
use o2k.AdminMsg.{Codec}
use o2k.Qdcadm.{Run, run_loop}
use o2k.Descriptors.{TracksOpen, Open}
use o2k.Qdcadm.Termination.{IsQuiet}
use o2k.Descriptors.Loop.{run_loop-Returns}
use o2k.Examples.Kernel.{
  Net, recv_by, send_by, recv_by-got, recv_by-failed, send_by-sent, send_by-failed, le_of_lt,
}
use o2k.Examples.Admin.{text_codec, server}

-- The streams, the descriptors, and the next one.
record Desk : Type 0 where
  net : Net
  fds : List ℤ
  next : ℕ

abbrev remove : ℤ → List ℤ → List ℤ
remove fd [] = []
remove fd (fd' ∷ fds) = if fd ==ℤ fd' then fds else fd' ∷ remove fd fds

abbrev desk_os : Os Desk
desk_os = record {
  recv = λ _ n w. let (r, net') = recv_by w.net.pieces n w.net in (r, record w { net = net' });
  send = λ _ bs w. let (r, net') = send_by w.net.pieces bs w.net in (r, record w { net = net' });
  errno = λ w. w.net.error;
  shutdown = λ _ w. w;
  close = λ fd w. record w { fds = remove fd w.fds };
  inet_addr = λ _. some 0;
  socket = λ w. (pos w.next, record w { fds = pos w.next ∷ w.fds; next = suc w.next });
  connect = λ _ _ _ w. (true, w);
  set_timeout = λ _ _ _ w. (pos 0, w);
  junk = λ _ i. i + 200;
}

remove_first : (fd : ℤ) (fds : List ℤ) → remove fd (fd ∷ fds) ≡ fds
remove_first fd fds = rw (==ℤ_refl fd) refl

not_failed : (w : Desk) → is_neg (pos w.next) ≡ true → pos w.next ∷ w.fds ≡ w.fds
not_failed w e = cc

abbrev desk : TracksOpen desk_os
desk = record {
  opened = λ w. w.fds;
  recv_keeps = λ _ _ _. refl;
  send_keeps = λ _ _ _. refl;
  connect_keeps = λ _ _ _ _. refl;
  set_timeout_keeps = λ _ _ _ _. refl;
  shutdown_keeps = λ _ _. refl;
  socket_opens = λ _ _. refl;
  socket_failed = not_failed;
  close_closes = λ fd fds w e. rw e (remove_first fd fds);
}

abbrev new_desk : Desk
new_desk = record { net = server (codes "ok"); fds = pos 0 ∷ pos 1 ∷ pos 2 ∷ []; next = 3 }

abbrev list_run : Run
list_run = record {
  host = codes "1.2.3.4";
  port = pos 9876;
  pwd = codes "pw";
  cmd = codes "list";
  params = [];
  loops = 2;
  timeout_s = pos 300;
}

abbrev desk_stream : IsStream desk_os
desk_stream = record {
  inbox = λ w _. w.net.inbox;
  outbox = λ w _. w.net.outbox;
  signals = λ w. length w.net.pieces;
  recv_got =
      λ _ n w w' bs e. recv_by-got w.net.pieces n w.net w'.net bs refl (ap (λ p. (p.0, p.1.net)) e);
  recv_failed = λ _ n w w' e.
      let (a, b, c, _) =
        recv_by-failed w.net.pieces n w.net w'.net refl (ap (λ p. (p.0, p.1.net)) e) in
      (a, b, le_of_lt c, λ _. c);
  send_sent = λ _ bs w w' k e.
      send_by-sent w.net.pieces bs w.net w'.net k refl (ap (λ p. (p.0, p.1.net)) e);
  send_failed = λ _ bs w w' e.
      let (a, b, c, _) =
        send_by-failed w.net.pieces bs w.net w'.net refl (ap (λ p. (p.0, p.1.net)) e) in
      (a, b, le_of_lt c, λ _. c);
}

abbrev desk_quiet : IsQuiet desk_os desk_stream
desk_quiet = record {
  socket_quiet = λ _. omega arith;
  connect_quiet = λ _ _ _ _. omega arith;
  set_timeout_quiet = λ _ _ _ _. omega arith;
  shutdown_quiet = λ _ _. omega arith;
  close_quiet = λ _ _. omega arith;
}

-- A codec that makes no message of 2 GB.
abbrev sized : List ℕ → Option (List ℕ)
sized bs = if ltb (length bs) (2 ^ 31) then some bs else none

abbrev small_codec : Codec
small_codec = record text_codec { serialize_cmd = λ m. sized m.cmd }

sized-fits : (bs pkg : List ℕ) → sized bs ≡ some pkg → length pkg < 2 ^ 31
sized-fits bs pkg e = ground arith

run_loop-Returns_example :
    Returns
      (λ end.
        (length end.0 ≡ 2)
        × (length end.1.net.pieces ≤ 3)
        × Open desk_os desk (pos 0 ∷ pos 1 ∷ pos 2 ∷ []) end.1)
      (run_loop desk_os small_codec (2 ^ 31 + 8) list_run 2 new_desk)
run_loop-Returns_example =
    run_loop-Returns desk_os desk_stream desk desk_quiet small_codec
      (λ m pkg e. sized-fits m.cmd pkg e) (pos 0 ∷ pos 1 ∷ pos 2 ∷ []) (2 ^ 31 + 8) list_run 2
      new_desk (omega arith) refl
