-- ===== src/Dump/Texts.antt =====
-- The bytes that `PrintSql` of binlogdump/binlogdumpK.cpp writes.
use o2k.Prelude.{
  ℕ, ◌≡◌, refl, sym, ap, ◌∙◌, Bool, List, [], ◌∷◌, ◌++◌, append_assoc, append-nil, codes, until_nul,
  if◌then◌else◌,
}
use o2k.Dump.{
  EntryType, transaction_begin, row_data, transaction_end, Formats, Printer, print_value, print_sql,
}
use o2k.Dump.Counts.{print_all}

-- The message inside an entry, as text up to a NUL; nothing of an entry of another type.
abbrev store_text : Formats → EntryType → List ℕ → List ℕ
store_text pb transaction_begin value =
    codes "-- storevalue:\n" ++ until_nul (pb.print_transaction_begin value)
store_text pb transaction_end value =
    codes "-- storevalue:\n" ++ until_nul (pb.print_transaction_end value)
store_text pb row_data value =
    codes "-- storevalue:\n" ++ until_nul (pb.print_row_change (pb.parse_row_change value))
store_text pb _ value = []

-- An entry, without its value unless that is asked for, and the message inside it.
abbrev pub entry_text : Formats → Bool → List ℕ → List ℕ
entry_text pb print_raw [] = []
entry_text pb print_raw (c ∷ cs) =
    let entry = pb.parse_entry (c ∷ cs) in
    let shown = if print_raw then entry else record entry { store_value = [] } in
    (codes "\n-- binlog :" ++ until_nul (pb.print_entry shown))
    ++ store_text pb entry.entry_type entry.store_value

abbrev pub texts : Formats → Bool → List (List ℕ) → List ℕ
texts pb print_raw [] = []
texts pb print_raw (buf ∷ bufs) = entry_text pb print_raw buf ++ texts pb print_raw bufs

print_value-store_text :
    (pb : Formats) (t : EntryType) (value : List ℕ) (p : Printer)
    → (print_value pb t value p).out ≡ p.out ++ store_text pb t value
unfolding print_value
print_value-store_text pb transaction_begin value p = refl
print_value-store_text pb transaction_end value p = refl
print_value-store_text pb row_data value p = refl
print_value-store_text pb _ value p = sym (append-nil p.out)

print_sql-entry_text :
    (pb : Formats) (raw : Bool) (buf : List ℕ) (p : Printer)
    → (print_sql pb raw buf p).1.out ≡ p.out ++ entry_text pb raw buf
unfolding print_sql
print_sql-entry_text pb raw [] p = sym (append-nil p.out)
print_sql-entry_text pb raw (c ∷ cs) p =
    let entry = pb.parse_entry (c ∷ cs) in
    let shown = if raw then entry else record entry { store_value = [] } in
    let head = codes "\n-- binlog :" ++ until_nul (pb.print_entry shown) in
    print_value-store_text pb entry.entry_type entry.store_value (record p { out = p.out ++ head })
    ∙ append_assoc p.out head (store_text pb entry.entry_type entry.store_value)

pub print_all-texts :
    (pb : Formats) (raw : Bool) (bufs : List (List ℕ)) (p : Printer)
    → (print_all pb raw bufs p).out ≡ p.out ++ texts pb raw bufs
print_all-texts pb raw [] p = sym (append-nil p.out)
print_all-texts pb raw (buf ∷ bufs) p =
    print_all-texts pb raw bufs (print_sql pb raw buf p).1
    ∙ ap (λ out. out ++ texts pb raw bufs) (print_sql-entry_text pb raw buf p)
    ∙ append_assoc p.out (entry_text pb raw buf) (texts pb raw bufs)
