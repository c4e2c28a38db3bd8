-- ===== src/SysError.antt =====
-- `GetSysErrorInfo` of qdcadm/SimpleSocketFunc.cpp, as it is built with the GNU library, on the bytes
-- of the buffer that it is given. `strerror` is the text that `strerror_r` answers with, one of the
-- library's own, without a NUL.
pub mod Bounds
use o2k.Prelude.{
  ℕ, zero, suc, ◌+◌, ◌-◌, pos, List, [], ◌∷◌, ◌++◌, length, take, drop, leb, if◌then◌else◌, codes,
  show_int,
}
use o2k.Outcome.{Outcome, ok, fault, ◌>>=◌}

abbrev pub sys_errmsg_max_size : ℕ
sys_errmsg_max_size = 300

-- A write of `bs` from the offset `i` on.
unfoldable pub write_range : ℕ → List ℕ → List ℕ → Outcome (List ℕ)
write_range i bs mem =
    if leb (i + length bs) (length mem)
    then ok (take i mem ++ (bs ++ drop (i + length bs) mem))
    else fault

-- The bytes that `strncpy` stores: as many as it is told, with NULs behind the text.
unfoldable pub strncpy_bytes : ℕ → List ℕ → List ℕ
strncpy_bytes zero text = []
strncpy_bytes (suc n) [] = 0 ∷ strncpy_bytes n []
strncpy_bytes (suc n) (c ∷ text) = c ∷ strncpy_bytes n text

-- "errno=%d, "
abbrev pub errno_text : ℕ → List ℕ
errno_text err_no = codes "errno=" ++ (show_int (pos err_no) ++ codes ", ")

unfoldable pub get_sys_error_info : (ℕ → List ℕ) → ℕ → List ℕ → Outcome (List ℕ)
unfolding write_range strncpy_bytes
get_sys_error_info strerror err_no info = do
  let head = errno_text err_no
  info' ← write_range 0 (head ++ (0 ∷ [])) info
  write_range (length head) (strncpy_bytes (sys_errmsg_max_size - 1) (strerror err_no)) info'
