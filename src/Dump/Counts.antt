-- ===== src/Dump/Counts.antt =====
-- The statistics of binlogdumpK.
use o2k.Prelude.{
  ℕ, suc, ◌+◌, ◌%◌, ◌^◌, ◌<◌, ◌≡◌, refl, ap, ◌∙◌, Bool, true, false, List, [], ◌∷◌, length, arith,
  Bool-cases, inl, inr, if◌then◌else◌,
}
use o2k.Kafka.{is_empty}
use o2k.Dump.{
  Statistics, increment, EntryType, transaction_begin, row_data, transaction_end, EventType, insert,
  update, delete, Formats, Printer, count_row, print_value, print_sql,
}

-- The buffers printed one after the other.
abbrev pub print_all : Formats → Bool → List (List ℕ) → Printer → Printer
print_all pb raw [] p = p
print_all pb raw (buf ∷ bufs) p = print_all pb raw bufs (print_sql pb raw buf p).1

-- The rows among the buffers: those that hold a ROWDATA entry, with the event of each.
abbrev is_row : EntryType → Bool
is_row row_data = true
is_row _ = false

abbrev pub events : Formats → List (List ℕ) → List EventType
events pb [] = []
events pb (buf ∷ bufs) =
    let entry = pb.parse_entry buf in
    let rest = events pb bufs in
    if is_empty buf
    then rest
    else if is_row entry.entry_type
    then (pb.parse_row_change entry.store_value).event_type ∷ rest
    else rest

-- How many of them a test picks.
abbrev pub count : (EventType → Bool) → List EventType → ℕ
count f [] = 0
count f (e ∷ es) = if f e then suc (count f es) else count f es

abbrev pub is_insert : EventType → Bool
is_insert insert = true
is_insert _ = false

abbrev pub is_update : EventType → Bool
is_update update = true
is_update _ = false

abbrev pub is_delete : EventType → Bool
is_delete delete = true
is_delete _ = false

abbrev count_all : List EventType → Statistics → Statistics
count_all [] s = s
count_all (e ∷ es) s = count_all es (count_row e s)

abbrev pub AreWords : Statistics → Type 0
AreWords s =
    (s.total_rows < 2 ^ 64)
    × (s.insert_cnt < 2 ^ 64)
    × (s.update_cnt < 2 ^ 64)
    × (s.delete_cnt < 2 ^ 64)

-- The statistics with the events counted in 64 bits.
abbrev pub counted : Statistics → List EventType → Statistics
counted s es = record {
  total_rows = (s.total_rows + length es) % 2 ^ 64;
  insert_cnt = (s.insert_cnt + count is_insert es) % 2 ^ 64;
  update_cnt = (s.update_cnt + count is_update es) % 2 ^ 64;
  delete_cnt = (s.delete_cnt + count is_delete es) % 2 ^ 64;
}

increment_then : (x n m : ℕ) → m ≡ suc n → (increment x + n) % 2 ^ 64 ≡ (x + m) % 2 ^ 64
unfolding increment
increment_then x n m e = omega arith

count_row-AreWords : (e : EventType) (s : Statistics) → AreWords s → AreWords (count_row e s)
unfolding count_row increment
count_row-AreWords insert s (t, i, u, d) = (omega arith, omega arith, u, d)
count_row-AreWords update s (t, i, u, d) = (omega arith, i, omega arith, d)
count_row-AreWords delete s (t, i, u, d) = (omega arith, i, u, omega arith)
count_row-AreWords _ s (t, i, u, d) = (omega arith, i, u, d)

counted-count_row :
    (e : EventType) (s : Statistics) (es : List EventType)
    → counted (count_row e s) es ≡ counted s (e ∷ es)
unfolding count_row
counted-count_row insert s es =
    rw
      (
        increment_then s.total_rows (length es) (suc (length es)) refl,
        increment_then s.insert_cnt (count is_insert es) (suc (count is_insert es)) refl,
      )
      refl
counted-count_row update s es =
    rw
      (
        increment_then s.total_rows (length es) (suc (length es)) refl,
        increment_then s.update_cnt (count is_update es) (suc (count is_update es)) refl,
      )
      refl
counted-count_row delete s es =
    rw
      (
        increment_then s.total_rows (length es) (suc (length es)) refl,
        increment_then s.delete_cnt (count is_delete es) (suc (count is_delete es)) refl,
      )
      refl
counted-count_row _ s es = rw (increment_then s.total_rows (length es) (suc (length es)) refl) refl

count_all-counted :
    (es : List EventType) (s : Statistics) → AreWords s → count_all es s ≡ counted s es
count_all-counted [] s (t, i, u, d) =
    let t' : (s.total_rows + 0) % 2 ^ 64 ≡ s.total_rows = omega arith in
    let i' : (s.insert_cnt + 0) % 2 ^ 64 ≡ s.insert_cnt = omega arith in
    let u' : (s.update_cnt + 0) % 2 ^ 64 ≡ s.update_cnt = omega arith in
    let d' : (s.delete_cnt + 0) % 2 ^ 64 ≡ s.delete_cnt = omega arith in rw (t', i', u', d') refl
count_all-counted (e ∷ es) s h =
    count_all-counted es (count_row e s) (count_row-AreWords e s h) ∙ counted-count_row e s es

print_value_row :
    (pb : Formats) (t : EntryType) (value : List ℕ) (p : Printer)
    → is_row t ≡ true
    → (print_value pb t value p).stat ≡ count_row (pb.parse_row_change value).event_type p.stat
unfolding print_value
print_value_row pb row_data value p h = refl
print_value_row pb _ value p h = cc

print_value_other :
    (pb : Formats) (t : EntryType) (value : List ℕ) (p : Printer)
    → is_row t ≡ false
    → (print_value pb t value p).stat ≡ p.stat
unfolding print_value
print_value_other pb row_data value p h = cc
print_value_other pb transaction_begin value p h = refl
print_value_other pb transaction_end value p h = refl
print_value_other pb _ value p h = refl

print_all-count_all :
    (pb : Formats) (raw : Bool) (bufs : List (List ℕ)) (p : Printer)
    → (print_all pb raw bufs p).stat ≡ count_all (events pb bufs) p.stat
unfolding print_sql
print_all-count_all pb raw [] p = refl
print_all-count_all pb raw ([] ∷ bufs) p = print_all-count_all pb raw bufs p
print_all-count_all pb raw ((c ∷ buf) ∷ bufs) p =
    let entry = pb.parse_entry (c ∷ buf) in
    let ih = print_all-count_all pb raw bufs (print_sql pb raw (c ∷ buf) p).1 in
    elim (Bool-cases (is_row entry.entry_type)) [
      | inl row ↦ rw row (
          ih
          ∙ ap (count_all (events pb bufs))
              (print_value_row pb entry.entry_type entry.store_value _ row))
      | inr other ↦ rw other (
          ih
          ∙ ap (count_all (events pb bufs))
              (print_value_other pb entry.entry_type entry.store_value _ other))
    ]

-- After any buffers are printed, the four statistics are what they were before, increased, in 64
-- bits, by the number of rows among the buffers and by the numbers of inserts, updates and deletes
-- among these.
pub print_all-counted :
    (pb : Formats) (raw : Bool) (bufs : List (List ℕ)) (p : Printer)
    → AreWords p.stat
    → (print_all pb raw bufs p).stat ≡ counted p.stat (events pb bufs)
print_all-counted pb raw bufs p h =
    print_all-count_all pb raw bufs p ∙ count_all-counted (events pb bufs) p.stat h
