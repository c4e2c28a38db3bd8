-- ===== src/SysError/Bounds.antt =====
-- How long the buffer of `GetSysErrorInfo` has to be.
use o2k.Prelude.{
  ℕ, zero, suc, ◌+◌, ◌≤◌, ◌<◌, ◌≡◌, ◌⊎◌, refl, ap, sym, List, [], ◌∷◌, ◌++◌, length, length-append,
  length-take, length-drop, length-decimal, take, drop, leb, codes, show_int, decimal, arith,
  Bool-cases, inl, inr, append_assoc, c_str, c_str-append_nul, until_nul, take_front, some, ◌∙◌,
  ltb, ◌/◌, ◌%◌,
}
use o2k.Outcome.{Outcome, ok, fault, Returns, Returns-ok, ◌>>=◌}
use o2k.SysError.{sys_errmsg_max_size, write_range, strncpy_bytes, errno_text, get_sys_error_info}

length-strncpy_bytes : (n : ℕ) (text : List ℕ) → length (strncpy_bytes n text) ≡ n
unfolding strncpy_bytes
length-strncpy_bytes zero text = refl
length-strncpy_bytes (suc n) [] = ap suc (length-strncpy_bytes n [])
length-strncpy_bytes (suc n) (c ∷ text) = ap suc (length-strncpy_bytes n text)

-- A write inside the array, and one that leaves it.
write_range_ok :
    (i : ℕ) (bs mem : List ℕ)
    → i + length bs ≤ length mem
    → write_range i bs mem ≡ ok (take i mem ++ (bs ++ drop (i + length bs) mem))
unfolding write_range
write_range_ok i bs mem h = ground arith

write_range_fault :
    (i : ℕ) (bs mem : List ℕ) → length mem < i + length bs → write_range i bs mem ≡ fault
unfolding write_range
write_range_fault i bs mem h = ground arith

length-write :
    (i : ℕ) (bs mem : List ℕ)
    → i + length bs ≤ length mem
    → length (take i mem ++ (bs ++ drop (i + length bs) mem)) ≡ length mem
length-write i bs mem h = omega (
  arith,
  length-append (take i mem) (bs ++ drop (i + length bs) mem),
  length-append bs (drop (i + length bs) mem),
  length-take i mem,
  length-drop (i + length bs) mem,
)

pub errno_text_bounds : (e : ℕ) → (8 ≤ length (errno_text e)) × (length (errno_text e) ≤ 18)
unfolding show_int
errno_text_bounds e =
    let digits = length-append (decimal 10 e) (codes ", ") in
    let few = length-decimal 10 e in (omega arith, omega arith)

pub until_nul-append : (a b : List ℕ) → until_nul a ≡ a → until_nul (a ++ b) ≡ a ++ until_nul b
until_nul-append [] b h = refl
until_nul-append (zero ∷ a) b h = cc
until_nul-append (suc c ∷ a) b h =
    let tail : until_nul a ≡ a = ground arith in rw (until_nul-append a b tail)

until_nul-decimal : (fuel n : ℕ) → until_nul (decimal fuel n) ≡ decimal fuel n
unfolding decimal
until_nul-decimal zero n = refl
until_nul-decimal (suc fuel) n = elim (Bool-cases (ltb n 10)) [
  | inl one ↦ rw one (digit n)
  | inr more ↦ rw more (
      until_nul-append (decimal fuel (n / 10)) _ (until_nul-decimal fuel (n / 10))
      ∙ ap (λ t. decimal fuel (n / 10) ++ t) (digit (n % 10)))
]
  where
    digit : (d : ℕ) → until_nul ((48 + d) ∷ []) ≡ (48 + d) ∷ []
    digit d = let some_code : 48 + d ≡ suc (47 + d) = omega arith in rw some_code refl

until_nul-errno_text : (e : ℕ) → until_nul (errno_text e) ≡ errno_text e
unfolding show_int
until_nul-errno_text e =
    let digits = until_nul-append (decimal 10 e) (codes ", ") (until_nul-decimal 10 e) in rw digits

-- Text that is shorter than the field is followed by a NUL.
strncpy_short :
    (n : ℕ) (text : List ℕ)
    → length text < n
    → (zeros : List ℕ) × (strncpy_bytes n text ≡ text ++ (0 ∷ zeros))
unfolding strncpy_bytes
strncpy_short zero text h = absurd (omega arith)
strncpy_short (suc n) [] h = (strncpy_bytes n [], refl)
strncpy_short (suc n) (c ∷ text) h =
    let (zeros, e) = strncpy_short n text (omega arith) in (zeros, rw e)

-- The two writes, of a head and of the text behind it.
abbrev writes : List ℕ → List ℕ → List ℕ → Outcome (List ℕ)
writes head str info = write_range 0 (head ++ (0 ∷ [])) info >>= λ info'.
    write_range (length head) (strncpy_bytes 299 str) info'

writes_fault :
    (head str info : List ℕ) → length info < length head + 299 → writes head str info ≡ fault
writes_fault head str info h =
    let size = length-strncpy_bytes 299 str in
    let size' = length-append head (0 ∷ []) in
    elim (Bool-cases (leb (length (head ++ (0 ∷ []))) (length info))) [
      | inl room ↦
          let fits : 0 + length (head ++ (0 ∷ [])) ≤ length info = ground arith in
          rw (write_range_ok 0 (head ++ (0 ∷ [])) info fits) (
            write_range_fault (length head) (strncpy_bytes 299 str) _
              (omega (arith, length-write 0 (head ++ (0 ∷ [])) info fits)))
      | inr none ↦
          let over : length info < 0 + length (head ++ (0 ∷ [])) = ground arith in
          rw (write_range_fault 0 (head ++ (0 ∷ [])) info over) refl
    ]

writes_text :
    (head str info : List ℕ)
    → until_nul head ≡ head
    → until_nul str ≡ str
    → length str < 299
    → length head + 299 ≤ length info
    → Returns
        (λ info'. (length info' ≡ length info) × (c_str info' ≡ some (head ++ str)))
        (writes head str info)
writes_text head str info no_nul no_nul' short room =
    let head' = head ++ (0 ∷ []) in
    let text = strncpy_bytes 299 str in
    let size = length-strncpy_bytes 299 str in
    let size' = length-append head (0 ∷ []) in
    let fits : 0 + length head' ≤ length info = omega arith in
    let mem = head' ++ drop (0 + length head') info in
    let length_mem : length mem ≡ length info = length-write 0 head' info fits in
    let fits' : length head + length text ≤ length mem = omega arith in
    let (zeros, padded) = strncpy_short 299 str short in
    let front : take (length head) mem ≡ head =
      ap (take (length head)) (append_assoc head (0 ∷ []) _)
      ∙ take_front (length head) head _ refl in
    let behind = drop (length head + length text) mem in
    rw (write_range_ok 0 head' info fits, write_range_ok (length head) text mem fits')
      (record {
        value = take (length head) mem ++ (text ++ behind);
        ends = refl;
        holds = (
          length-write (length head) text mem fits' ∙ length_mem,
          ap c_str (
                ap (λ t. t ++ (text ++ behind)) front
                ∙ ap (λ t. head ++ (t ++ behind)) padded
                ∙ ap (λ t. head ++ t) (append_assoc str (0 ∷ zeros) behind)
                ∙ sym (append_assoc head str (0 ∷ (zeros ++ behind))))
              ∙ c_str-append_nul (head ++ str) (zeros ++ behind)
              ∙ ap some (until_nul-append head str no_nul ∙ ap (λ t. head ++ t) no_nul'),
        );
      })

-- What `GetSysErrorInfo` makes of a buffer, where the library's text has no NUL and is shorter than
-- 299 bytes: it writes 299 bytes behind the number, however short the text is. Either these fit, and
-- the buffer keeps its length and holds the number and the text; or they do not, and they are
-- written outside the buffer.
pub get_sys_error_info_bounds :
    (strerror : ℕ → List ℕ) (err_no : ℕ) (info : List ℕ)
    → until_nul (strerror err_no) ≡ strerror err_no
    → length (strerror err_no) < 299
    → ((length (errno_text err_no) + 299 ≤ length info)
        × Returns
            (λ info'.
              (length info' ≡ length info)
              × (c_str info' ≡ some (errno_text err_no ++ strerror err_no)))
            (get_sys_error_info strerror err_no info))
      ⊎ ((length info < length (errno_text err_no) + 299)
          × (get_sys_error_info strerror err_no info ≡ fault))
unfolding get_sys_error_info
get_sys_error_info_bounds strerror err_no info no_nul short =
    elim (Bool-cases (leb (length (errno_text err_no) + 299) (length info))) [
      | inl fits ↦
          let room : length (errno_text err_no) + 299 ≤ length info = ground arith in
          inl (
            room,
            writes_text (errno_text err_no) (strerror err_no) info (until_nul-errno_text err_no)
                no_nul short room,
          )
      | inr over ↦
          let less : length info < length (errno_text err_no) + 299 = ground arith in
          inr (less, writes_fault (errno_text err_no) (strerror err_no) info less)
    ]

-- A buffer of SYS_ERRMSG_MAX_SIZE bytes is always too short.
pub get_sys_error_info_overflow :
    (strerror : ℕ → List ℕ) (err_no : ℕ) (info : List ℕ)
    → length info ≡ sys_errmsg_max_size
    → get_sys_error_info strerror err_no info ≡ fault
unfolding get_sys_error_info
get_sys_error_info_overflow strerror err_no info e =
    let long = errno_text_bounds err_no in
    writes_fault (errno_text err_no) (strerror err_no) info (omega arith)

writes-Returns :
    (head str info : List ℕ)
    → length head + 299 ≤ length info
    → Returns (λ info'. length info' ≡ length info) (writes head str info)
writes-Returns head str info room =
    let head' = head ++ (0 ∷ []) in
    let text = strncpy_bytes 299 str in
    let size = length-strncpy_bytes 299 str in
    let size' = length-append head (0 ∷ []) in
    let fits : 0 + length head' ≤ length info = omega arith in
    let mem = head' ++ drop (0 + length head') info in
    let length_mem : length mem ≡ length info = length-write 0 head' info fits in
    let fits' : length head + length text ≤ length mem = omega arith in
    rw (write_range_ok 0 head' info fits, write_range_ok (length head) text mem fits')
      (Returns-ok _ (length-write (length head) text mem fits' ∙ length_mem))

-- 317 bytes are enough for any number and text.
pub get_sys_error_info-Returns :
    (strerror : ℕ → List ℕ) (err_no : ℕ) (info : List ℕ)
    → 317 ≤ length info
    → Returns (λ info'. length info' ≡ length info) (get_sys_error_info strerror err_no info)
unfolding get_sys_error_info
get_sys_error_info-Returns strerror err_no info room =
    let long = errno_text_bounds err_no in
    writes-Returns (errno_text err_no) (strerror err_no) info (omega arith)
