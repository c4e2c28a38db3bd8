-- ===== src/Qdcadm/Clock.antt =====
-- `nowTm` and `nowStr` of qdcadm/qdcadm.cpp: the clock in a report.
use o2k.Prelude.{
  ℕ, ◌+◌, ◌^◌, ◌≤◌, ◌<◌, ◌≡◌, refl, ap, ℤ, pos, ◌+ℤ◌, ltb, List, [], ◌∷◌, ◌++◌, length, take, drop,
  if◌then◌else◌, digits_of, pad_number, pad_number-digits_of, arith,
}
use o2k.Outcome.{Outcome, ok, fault, Returns, Returns-ok}

-- The fields of `struct tm` that are used.
pub record Tm : Type 0 where
  pub tm_year : ℤ
  pub tm_mon : ℤ
  pub tm_mday : ℤ
  pub tm_hour : ℤ
  pub tm_min : ℤ
  pub tm_sec : ℤ

-- `time` and `localtime_r`.
pub record Clock (World : Type 0) : Type 0 where
  pub time : World → ℤ
  pub localtime_r : ℤ → Tm

unfoldable pub now_tm : {World : Type 0} → Clock World → World → Tm
now_tm clock w = clock.localtime_r (clock.time w)

-- Six fields with what stands between them.
abbrev fields : List ℕ → List ℕ → List ℕ → List ℕ → List ℕ → List ℕ → List ℕ
fields y m d h i s = y ++ (45 ∷ (m ++ (45 ∷ (d ++ (32 ∷ (h ++ (58 ∷ (i ++ (58 ∷ s)))))))))

-- `"%04d-%02d-%02d %02d:%02d:%02d"`
unfoldable pub tm_text : Tm → List ℕ
tm_text tm =
    fields (pad_number 4 (tm.tm_year +ℤ pos 1900)) (pad_number 2 (tm.tm_mon +ℤ pos 1))
      (pad_number 2 tm.tm_mday) (pad_number 2 tm.tm_hour) (pad_number 2 tm.tm_min)
      (pad_number 2 tm.tm_sec)

-- `nowStr`: the text and its NUL go to `char buf[64]`.
unfoldable pub now_str : Tm → Outcome (List ℕ)
unfolding tm_text
now_str tm = if ltb (length (tm_text tm)) 64 then ok (tm_text tm) else fault

-- The numbers in the text, by their places.
abbrev number_at : ℕ → ℕ → List ℕ → ℕ
number_at place width text = digits_of 0 (take width (drop place text))

abbrev pub read_now : List ℕ → List ℕ
read_now text =
    number_at 0 4 text
    ∷ number_at 5 2 text
    ∷ number_at 8 2 text
    ∷ number_at 11 2 text
    ∷ number_at 14 2 text
    ∷ number_at 17 2 text
    ∷ []

-- Fields of two and of four characters.
two : (p : List ℕ) → length p ≡ 2 → (a : ℕ) × (b : ℕ) × (p ≡ a ∷ b ∷ [])
two [] h = absurd (omega arith)
two (a ∷ []) h = absurd (omega arith)
two (a ∷ b ∷ []) h = (a, b, refl)
two (a ∷ b ∷ c ∷ p) h = absurd (omega arith)

four : (p : List ℕ) → length p ≡ 4 → (a b c d : ℕ) × (p ≡ a ∷ b ∷ c ∷ d ∷ [])
four [] h = absurd (omega arith)
four (a ∷ []) h = absurd (omega arith)
four (a ∷ b ∷ p) h = let (c, d, e) = two p (omega arith) in (a, b, c, d, ap (λ t. a ∷ b ∷ t) e)

-- The text of six fields has each at its place.
read_fields :
    (y m d h i s : List ℕ)
    → length y ≡ 4
    → length m ≡ 2
    → length d ≡ 2
    → length h ≡ 2
    → length i ≡ 2
    → length s ≡ 2
    → (length (fields y m d h i s) ≡ 19)
      × (read_now (fields y m d h i s)
          ≡ digits_of 0 y
            ∷ digits_of 0 m
            ∷ digits_of 0 d
            ∷ digits_of 0 h
            ∷ digits_of 0 i
            ∷ digits_of 0 s
            ∷ [])
read_fields y m d h i s ly lm ld lh li ls =
    let (y0, y1, y2, y3, ey) = four y ly in
    let (m0, m1, em) = two m lm in
    let (d0, d1, ed) = two d ld in
    let (h0, h1, eh) = two h lh in
    let (i0, i1, ei) = two i li in
    let (s0, s1, es) = two s ls in rw (ey, em, ed, eh, ei, es) (refl, refl)

-- `nowStr` never leaves its buffer and tells the time: for a time of the years 1900 to 9999, with fields
-- as `localtime_r` documents them, it returns 19 characters, from which the numbers of the year, the
-- month, the day, the hour, the minute and the second are read back.
pub now_str-read_now :
    (year mon mday hour min sec : ℕ)
    → year + 1900 < 10 ^ 4
    → mon < 12
    → mday ≤ 31
    → hour < 24
    → min < 60
    → sec ≤ 60
    → Returns
        (λ text.
          (length text ≡ 19)
          × (read_now text ≡ (year + 1900) ∷ (mon + 1) ∷ mday ∷ hour ∷ min ∷ sec ∷ []))
        (now_str (record {
          tm_year = pos year;
          tm_mon = pos mon;
          tm_mday = pos mday;
          tm_hour = pos hour;
          tm_min = pos min;
          tm_sec = pos sec;
        }))
unfolding now_str
now_str-read_now year mon mday hour min sec hy hm hd hh hi hs =
    let (ly, dy) = pad_number-digits_of 3 (year + 1900) (omega arith) (omega arith) in
    let (lm, dm) = pad_number-digits_of 1 (mon + 1) (omega arith) (omega arith) in
    let (ld, dd) = pad_number-digits_of 1 mday (omega arith) (omega arith) in
    let (lh, dh) = pad_number-digits_of 1 hour (omega arith) (omega arith) in
    let (li, di) = pad_number-digits_of 1 min (omega arith) (omega arith) in
    let (ls, ds) = pad_number-digits_of 1 sec (omega arith) (omega arith) in
    let (size, numbers) = read_fields _ _ _ _ _ _ ly lm ld lh li ls in
    rw (size, now_str) (Returns-ok _ (size, rw (dy, dm, dd, dh, di, ds) at numbers))
