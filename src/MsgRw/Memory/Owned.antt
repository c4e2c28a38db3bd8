-- ===== src/MsgRw/Memory/Owned.antt =====
-- What each method of `CMsgRW` does to the array that the object owns.
use o2k.Prelude.{
  ℕ, ◌≡◌, refl, ap, sym, ◌∙◌, ℤ, pos, negsuc, is_neg, not, ◌==◌, ◌==ℤ◌, ltb, Bool, true, false,
  List, [], ◌∷◌, ◌++◌, Option, subst, none, some, if◌then◌else◌, arith,
}
use o2k.Outcome.{Outcome, ok, fault, stuck, Ensures, ◌>>=◌, Ensures-weaken, Ensures-if}
use o2k.Os.{Os}
use o2k.Socket.{ErrText, no_error, size_too_long, send_packet, Read, socket_read, header_of}
use o2k.MsgRw.{
  MsgRw, msgbuf, set_msgbuf, owns_array, clear, make_room, write_front, write_at, read_payload,
  check_length, read_packet, send, max_adm_pkg,
}
use o2k.MsgRw.Memory.{
  Memory, made, deleted, delete_array, clear_memory, room_memory, length_memory, header_memory,
  read_memory,
}
use o2k.Keeping.Messages.{Ensures-any}

-- The lengths of the arrays that are there; none where one is given back that is not.
unfoldable pub remove : ℕ → List ℕ → Option (List ℕ)
remove n [] = none
remove n (m ∷ ms) =
    if n == m then some ms else elim (remove n ms) [ none ↦ none | some r ↦ some (m ∷ r) ]

abbrev pub arrays_after : List Memory → Option (List ℕ) → Option (List ℕ)
arrays_after [] live = live
arrays_after (m ∷ ms) none = none
arrays_after (made n ∷ ms) (some live) = arrays_after ms (some (n ∷ live))
arrays_after (deleted n ∷ ms) (some live) = arrays_after ms (remove n live)

arrays_after-none : (ms : List Memory) → arrays_after ms none ≡ none
arrays_after-none [] = refl
arrays_after-none (m ∷ ms) = refl

pub arrays_after-append :
    (ms ms' : List Memory) (live : Option (List ℕ))
    → arrays_after (ms ++ ms') live ≡ arrays_after ms' (arrays_after ms live)
arrays_after-append [] ms' live = refl
arrays_after-append (m ∷ ms) ms' none = sym (arrays_after-none ms')
arrays_after-append (made n ∷ ms) ms' (some live) = arrays_after-append ms ms' (some (n ∷ live))
arrays_after-append (deleted n ∷ ms) ms' (some live) = arrays_after-append ms ms' (remove n live)

-- The array that an object has to give back.
abbrev pub owned : MsgRw → List ℕ
owned s = if owns_array s then s.lenbuf ∷ [] else []

-- The trace takes what the one object owns to what the other does.
abbrev pub Takes : List Memory → MsgRw → MsgRw → Type 0
Takes ms s s' = arrays_after ms (some (owned s)) ≡ some (owned s')

pub delete_array-Takes : (s : MsgRw) → arrays_after (delete_array s) (some (owned s)) ≡ some []
unfolding delete_array owns_array remove
delete_array-Takes s = ground arith

pub clear-Takes :
    (s : MsgRw) (free_buf : Bool) → Takes (clear_memory s free_buf) s (clear s free_buf)
unfolding clear delete_array owns_array remove
clear-Takes s free_buf = ground arith

set_msgbuf-owned : (s : MsgRw) (mem : List ℕ) → owned (set_msgbuf s mem) ≡ owned s
unfolding owns_array
set_msgbuf-owned s mem = ground arith

module _ {World : Type 0} (os : Os World) where
  make_room-Takes : (n : ℕ) (w : World) (s : MsgRw) → Takes (room_memory n s) s (make_room os n w s)
  unfolding make_room room_memory delete_array owns_array remove
  make_room-Takes n w s = ground arith

  -- What is owned behind a call that returns its value with an object and a world.
  abbrev pub Keeps : {A B : Type 0} → List ℕ → A × MsgRw × B → Type 0
  Keeps own end = owned end.1 ≡ own

  read_payload-Keeps :
      (fuel n : ℕ) (s : MsgRw) (w : World) → Ensures (Keeps (owned s)) (read_payload os fuel n s w)
  unfolding read_payload owns_array
  read_payload-Keeps fuel n s w =
      Ensures-any (Keeps (owned s)) (socket_read os fuel s.sock (pos n) s.errbuf w) _ λ x.
        Ensures-any (Keeps (owned s)) (write_front x.0.bytes (msgbuf s)) _ λ mem.
          Ensures-any (Keeps (owned s)) (write_at mem n 0) _ λ mem'.
            Ensures-if (Keeps (owned s)) (not (x.0.code ==ℤ pos n)) _ _ (set_msgbuf-owned s mem')
              (set_msgbuf-owned s mem')

  -- The trace takes what an object owns to what the one behind the call does.
  abbrev pub EndTakes : {A B : Type 0} → List Memory → MsgRw → A × MsgRw × B → Type 0
  EndTakes ms s end = Takes ms s (end.1)

  -- What follows a test of the length, and of the read of the header.
  fitting_length-Takes :
      (fuel n : ℕ) (s : MsgRw) (w : World) (too_long : Bool)
      → Ensures (EndTakes (if too_long then [] else room_memory n s) s) (
          if too_long
          then ok (negsuc 0, record s { errbuf = size_too_long n }, w)
          else read_payload os fuel n (make_room os n w s) w)
  unfolding owns_array
  fitting_length-Takes fuel n s w true = refl
  fitting_length-Takes fuel n s w false =
      let room = make_room os n w s in
      Ensures-weaken (Keeps (owned room)) (EndTakes (room_memory n s) s)
        (read_payload os fuel n room w) (read_payload-Keeps fuel n room w)
        λ end same. make_room-Takes n w s ∙ ap some (sym same)

  check_length-Takes :
      (fuel : ℕ) (len : ℤ) (s : MsgRw) (w : World)
      → Ensures (EndTakes (length_memory len s) s) (check_length os fuel len s w)
  unfolding check_length owns_array
  check_length-Takes fuel (negsuc n) s w = refl
  check_length-Takes fuel (pos n) s w = fitting_length-Takes fuel n s w (ltb max_adm_pkg n)

  -- `Clear` and an error text change nothing of the arrays.
  cleared : MsgRw → ErrText → MsgRw
  cleared s e = record (clear s false) { errbuf = e }

  length_memory-cleared :
      (len : ℤ) (s : MsgRw) (e : ErrText) → length_memory len (cleared s e) ≡ length_memory len s
  unfolding cleared clear room_memory delete_array owns_array
  length_memory-cleared (negsuc n) s e = refl
  length_memory-cleared (pos n) s e = refl

  cleared_length-Takes :
      (fuel : ℕ) (len : ℤ) (s : MsgRw) (e : ErrText) (w : World)
      → Ensures (EndTakes (length_memory len s) s) (check_length os fuel len (cleared s e) w)
  unfolding cleared clear owns_array
  cleared_length-Takes fuel len s e w =
      subst (λ ms. Ensures (EndTakes ms s) (check_length os fuel len (cleared s e) w))
        (length_memory-cleared len s e) (check_length-Takes fuel len (cleared s e) w)

  after_header : ℕ → MsgRw → World → Read × World → Outcome (ℤ × MsgRw × World)
  after_header fuel s w (h, w') =
      if is_neg h.code
      then ok (h.code, cleared s h.err, w')
      else check_length os fuel (header_of os h.bytes w) (cleared s h.err) w'

  failed_header-Takes :
      (fuel : ℕ) (s : MsgRw) (w w' : World) (h : Read) (failed : Bool)
      → Ensures (EndTakes (if failed then [] else length_memory (header_of os h.bytes w) s) s) (
          if failed
          then ok (h.code, cleared s h.err, w')
          else check_length os fuel (header_of os h.bytes w) (cleared s h.err) w')
  unfolding cleared clear owns_array
  failed_header-Takes fuel s w w' h true = refl
  failed_header-Takes fuel s w w' h false =
      cleared_length-Takes fuel (header_of os h.bytes w) s h.err w'

  read_header-Takes :
      (fuel : ℕ) (s : MsgRw) (w : World) (r : Outcome (Read × World))
      → Ensures (EndTakes (header_memory os s w r) s) (r >>= after_header fuel s w)
  unfolding after_header
  read_header-Takes fuel s w fault = tt
  read_header-Takes fuel s w stuck = tt
  read_header-Takes fuel s w (ok (h, w')) = failed_header-Takes fuel s w w' h (is_neg h.code)

  pub read_packet-Takes :
      (fuel : ℕ) (s : MsgRw) (w : World)
      → Ensures (EndTakes (read_memory os fuel s w) s) (read_packet os fuel s w)
  unfolding read_packet read_memory after_header cleared
  read_packet-Takes fuel s w =
      read_header-Takes fuel s w (socket_read os fuel s.sock (pos 4) no_error w)

  pub send-Keeps :
      (fuel : ℕ) (pkg : List ℕ) (len : ℤ) (s : MsgRw) (w : World)
      → Ensures (Keeps (owned s)) (send os fuel pkg len s w)
  unfolding send owns_array
  send-Keeps fuel pkg len s w =
      Ensures-any (Keeps (owned s)) (send_packet os fuel s.sock pkg len s.errbuf w) _ λ x. refl
