-- ===== src/MsgRw/Buffer.antt =====
-- The buffers of `CMsgRW` (`m_buf`, `m_msgbuf`, `m_lenbuf`): their invariant, and what the steps of
-- `ReadPacket` do to them.
use o2k.Prelude.{
  ℕ, zero, suc, ◌+◌, ◌≤◌, ◌<◌, ◌≡◌, refl, ◌⊎◌, List, [], ◌∷◌, ◌++◌, length, length-append,
  length-drop, length-tabulate, drop, set, get_elem?, Option, none, some, lt→ltb, le→not_ltb, arith,
}
use o2k.Outcome.{ok, fault}
use o2k.Os.{Os}
use o2k.Socket.{overlay}
use o2k.MsgRw.{
  MsgRw, msgbuf, set_msgbuf, write_front, write_at, make_room, len_adm_pkg, max_adm_pkg,
}

-- `m_lenbuf` is the length of the array from `new[]`, which is longer than `m_buf`, or 0.
abbrev pub HeapFits : Option (List ℕ) → ℕ → Type 0
HeapFits none n = n ≡ 0
HeapFits (some a) n = (length a ≡ n) × (len_adm_pkg + 2 < n) × (n ≤ max_adm_pkg + 2)

-- The buffers have the sizes that the fields say, and a message at hand has a NUL behind it.
pub record IsWellFormed (s : MsgRw) : Type 0 where
  pub buf_size : length s.buf ≡ len_adm_pkg + 2
  pub heap_size : HeapFits s.heap s.lenbuf
  pub terminated : 0 < s.lenmsg → get_elem? (msgbuf s) s.lenmsg ≡ some 0

-- The packet lengths for which `make_room` leaves an array with no place for the NUL.
abbrev pub Overflows : ℕ → MsgRw → Type 0
Overflows n s = (len_adm_pkg < n) × (n ≡ s.lenbuf)

module _ {World : Type 0} (os : Os World) where
  pub length-make_room :
      (n : ℕ) (w : World) (s : MsgRw)
      → length s.buf ≡ len_adm_pkg + 2
      → HeapFits s.heap s.lenbuf
      → (n < length (msgbuf (make_room os n w s)))
        ⊎ (Overflows n s × (length (msgbuf (make_room os n w s)) ≡ n))
  unfolding make_room
  length-make_room n w s hb hh = ground (arith, length-tabulate (os.junk w) (n + 2))

  pub make_room-HeapFits :
      (n : ℕ) (w : World) (s : MsgRw)
      → n ≤ max_adm_pkg
      → HeapFits s.heap s.lenbuf
      → HeapFits (make_room os n w s).heap (make_room os n w s).lenbuf
  unfolding make_room
  make_room-HeapFits n w s hn hh = ground (arith, length-tabulate (os.junk w) (n + 2))

  pub make_room_same : (n : ℕ) (w : World) (s : MsgRw) → n ≤ s.lenbuf → make_room os n w s ≡ s
  unfolding make_room
  make_room_same n w s h = ground arith

  pub make_room_keeps :
      (n : ℕ) (w : World) (s : MsgRw)
      → ((make_room os n w s).buf ≡ s.buf)
        × ((make_room os n w s).sock ≡ s.sock)
        × ((make_room os n w s).errbuf ≡ s.errbuf)
        × ((make_room os n w s).lenmsg ≡ s.lenmsg)
  unfolding make_room
  make_room_keeps n w s = ground arith

-- The array at hand, where its length is that of the packet.
pub length-msgbuf :
    (n : ℕ) (s : MsgRw)
    → HeapFits s.heap s.lenbuf
    → len_adm_pkg < n
    → n ≡ s.lenbuf
    → length (msgbuf s) ≡ n
length-msgbuf n s hh long same = ground arith

pub length-overlay :
    (bs mem : List ℕ) → length bs ≤ length mem → length (overlay bs mem) ≡ length mem
length-overlay bs mem h = rw (length-append, length-drop) (omega arith)

-- A NUL behind the bytes that were written at the front.
pub set-overlay :
    (bs mem : List ℕ) (v : ℕ)
    → length bs < length mem
    → set (overlay bs mem) (length bs) v ≡ bs ++ (v ∷ drop (suc (length bs)) mem)
set-overlay [] [] v h = absurd (omega arith)
set-overlay [] (m ∷ mem) v h = refl
set-overlay (b ∷ bs) [] v h = absurd (omega arith)
set-overlay (b ∷ bs) (m ∷ mem) v h = rw (set-overlay bs mem v (omega arith))

pub get_elem?-set_self : (xs : List ℕ) (i v : ℕ) → i < length xs → get_elem? (set xs i v) i ≡ some v
get_elem?-set_self [] i v h = absurd (omega arith)
get_elem?-set_self (x ∷ xs) zero v h = refl
get_elem?-set_self (x ∷ xs) (suc i) v h = get_elem?-set_self xs i v (omega arith)

pub msgbuf-set_msgbuf : (s : MsgRw) (mem : List ℕ) → msgbuf (set_msgbuf s mem) ≡ mem
msgbuf-set_msgbuf s mem = ground arith

pub set_msgbuf_keeps :
    (s : MsgRw) (mem : List ℕ)
    → length s.buf ≡ len_adm_pkg + 2
    → HeapFits s.heap s.lenbuf
    → length mem ≡ length (msgbuf s)
    → (length (set_msgbuf s mem).buf ≡ len_adm_pkg + 2)
      × HeapFits (set_msgbuf s mem).heap (set_msgbuf s mem).lenbuf
      × ((set_msgbuf s mem).sock ≡ s.sock)
      × ((set_msgbuf s mem).lenmsg ≡ s.lenmsg)
      × ((set_msgbuf s mem).lenbuf ≡ s.lenbuf)
set_msgbuf_keeps s mem hb hh e = ground arith

pub write_front_lem :
    (bs mem : List ℕ) → length bs ≤ length mem → write_front bs mem ≡ ok (overlay bs mem)
unfolding write_front
write_front_lem bs mem h = ground arith

pub write_at_lem : (mem : List ℕ) (i v : ℕ) → i < length mem → write_at mem i v ≡ ok (set mem i v)
unfolding write_at
write_at_lem mem i v h = rw (lt→ltb _ _ h)

pub write_at_fault : (mem : List ℕ) (i v : ℕ) → length mem ≤ i → write_at mem i v ≡ fault
unfolding write_at
write_at_fault mem i v h = rw (le→not_ltb _ _ h)
