-- ===== src/Prelude/Bytes.antt =====
-- Bytes of a 32-bit word in network order, and C strings.
use Prim.Native.Nat.{ℕ, zero, suc, ◌+◌, ◌*◌, ◌/◌, ◌%◌, ◌^◌, ◌<◌}
use Prim.Native.Char.{code}
use Prim.Native.String.{String}
use mathlib.Core.Path.{◌≡◌, refl}
use mathlib.Core.Bool.{Bool, true, false, ◌&&◌}
use mathlib.Core.Option.{Option, none, some}
use mathlib.Core.List.{List, [], ◌∷◌, ◌++◌, map}
use native.Mathlib.Omega.{arith}
use o2k.Prelude.Tests.{leb, ◌==◌, if◌then◌else◌}

abbrev pub IsByte : ℕ → Type 0
IsByte b = b < 256

-- The four bytes that `htonl` leaves in memory.
abbrev pub htonl : ℕ → List ℕ
htonl n = n / 2 ^ 24 % 256 ∷ n / 2 ^ 16 % 256 ∷ n / 2 ^ 8 % 256 ∷ n % 256 ∷ []

-- The word that `ntohl` reads from four bytes.
abbrev pub ntohl : List ℕ → ℕ
ntohl (a ∷ b ∷ c ∷ d ∷ _) = ((a * 256 + b) * 256 + c) * 256 + d
ntohl _ = 0

pub ntohl-htonl : (n : ℕ) → n < 2 ^ 32 → ntohl (htonl n) ≡ n
ntohl-htonl n h = omega arith

-- The bytes of a C string: those before the first NUL, or `none` where the array has none.
abbrev pub c_str : List ℕ → Option (List ℕ)
c_str [] = none
c_str (zero ∷ bs) = some []
c_str (suc b ∷ bs) = elim (c_str bs) [ none ↦ none | some s ↦ some (suc b ∷ s) ]

-- The bytes before the first NUL; a `std::string` keeps a NUL behind its last byte.
abbrev pub until_nul : List ℕ → List ℕ
until_nul [] = []
until_nul (zero ∷ bs) = []
until_nul (suc b ∷ bs) = suc b ∷ until_nul bs

pub c_str-append_nul : (bs rest : List ℕ) → c_str (bs ++ (zero ∷ rest)) ≡ some (until_nul bs)
c_str-append_nul [] rest = refl
c_str-append_nul (zero ∷ bs) rest = refl
c_str-append_nul (suc b ∷ bs) rest = rw (c_str-append_nul bs rest)

-- The code points of a text: its bytes, if it is ASCII.
abbrev pub codes : String → List ℕ
codes String.[] = []
codes (String.◌∷◌ c s) = code c ∷ codes s

-- `tolower` in the C locale.
unfoldable pub to_lower : ℕ → ℕ
to_lower c = if leb 65 c && leb c 90 then c + 32 else c

abbrev pub bytes_eq : List ℕ → List ℕ → Bool
bytes_eq [] [] = true
bytes_eq [] (d ∷ ds) = false
bytes_eq (c ∷ cs) [] = false
bytes_eq (c ∷ cs) (d ∷ ds) = c == d && bytes_eq cs ds

-- `strcasecmp(a, b) == 0`, up to the first NUL of each.
unfoldable pub str_case_eq : List ℕ → List ℕ → Bool
unfolding to_lower
str_case_eq a b = bytes_eq (map to_lower (until_nul a)) (map to_lower (until_nul b))
