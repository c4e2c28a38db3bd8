-- ===== src/MsgRw/Memory.antt =====
-- The arrays that the methods of `CMsgRW` make with `new[]` and give back with `delete[]`.
pub mod Owned
pub mod Exchanges
pub mod Lives
use o2k.Prelude.{
  ℕ, ◌+◌, ℤ, pos, negsuc, is_neg, not_pos, to_int, length, ◌==◌, ltb, ◌&&◌, Bool, true, false, List,
  [], ◌∷◌, ◌++◌, Option, none, some, if◌then◌else◌,
}
use o2k.Outcome.{Outcome, ok, fault, stuck}
use o2k.Os.{Os}
use o2k.Socket.{no_error, Read, socket_read, header_of}
use o2k.AdminMsg.{MsgCmd, Codec}
use o2k.MsgRw.{MsgRw, send, owns_array, len_adm_pkg, max_adm_pkg}

pub data Memory : Type 0 where
  made deleted : ℕ → Memory

-- `delete []m_msgbuf` under its test.
unfoldable pub delete_array : MsgRw → List Memory
delete_array s = if owns_array s then deleted s.lenbuf ∷ [] else []

-- What `Clear` and the destructor give back.
abbrev pub clear_memory : MsgRw → Bool → List Memory
clear_memory s free_buf = if free_buf then delete_array s else []

abbrev pub delete_msg_rw : MsgRw → List Memory
delete_msg_rw s = delete_array s

-- "need allocate large buffer"
unfoldable pub room_memory : ℕ → MsgRw → List Memory
unfolding delete_array
room_memory len s =
    if ltb len_adm_pkg len && ltb s.lenbuf len then delete_array s ++ (made (len + 2) ∷ []) else []

abbrev pub length_memory : ℤ → MsgRw → List Memory
length_memory (negsuc n) s = []
length_memory (pos n) s = if ltb max_adm_pkg n then [] else room_memory n s

abbrev pub header_memory :
    {World : Type 0} → Os World → MsgRw → World → Outcome (Read × World) → List Memory
header_memory os s w (ok (h, w')) =
    if is_neg h.code then [] else length_memory (header_of os h.bytes w) s
header_memory os s w fault = []
header_memory os s w stuck = []

-- What `ReadPacket` gives back and makes, after the read of the header.
unfoldable pub read_memory : {World : Type 0} → Os World → ℕ → MsgRw → World → List Memory
unfolding room_memory
read_memory os fuel s w = header_memory os s w (socket_read os fuel s.sock (pos 4) no_error w)

-- What `ExecCmdResult` gives back and makes: what its read does, where its send has gone through.
abbrev pub sent_memory : {World : Type 0} → Os World → ℕ → Outcome (ℤ × MsgRw × World) → List Memory
sent_memory os fuel (ok (rc, s, w)) = if not_pos rc then [] else read_memory os fuel s w
sent_memory os fuel fault = []
sent_memory os fuel stuck = []

unfoldable pub exec_memory :
    {World : Type 0} → Os World → Codec → ℕ → MsgCmd → MsgRw → World → List Memory
unfolding read_memory
exec_memory os codec fuel cmd s w = elim (codec.serialize_cmd cmd) [
  | none ↦ []
  | some pkg ↦ sent_memory os fuel (send os fuel pkg (to_int (length pkg)) s w)
]
