-- ===== src/Qdcadm/Output/Announcements.antt =====
-- What qdcadm announces before its loop, and what the loop then does.
use o2k.Prelude.{
  ℕ, ◌≡◌, ◌<◌, ◌^◌, arith, subst, to_int, to_word, digits_of, digits_of-decimal, show_int, refl,
  pos, pos_part, not_pos, ltℤ, not, ◌&&◌, ◌||◌, List, [], ◌∷◌, length, Option, none, some, codes,
  ltb, if◌then◌else◌, Bool-cases, inl, inr,
}
use o2k.Qdcadm.{
  strtol_digits, to_long, atoi, param, Run, runs, is_perf, preprocess, to_address, split_address,
  parse_args,
}
use o2k.Qdcadm.Output.{announcement, preprocess_text, address_text, plan_text}

-- The announcement of a run.
abbrev pub announced : Run → List ℕ
announced r = if is_perf r.cmd then announcement r.loops (atoi (param (codes "1") r.params)) else []

-- The text announces the run, and the number of its passes is an `int`.
abbrev Announces : List ℕ → Run → Type 0
Announces text r = (text ≡ announced r) × (r.loops < 2 ^ 31)

announced_run :
    (r r' : Run) (text : List ℕ) → Announces text r → runs r ≡ runs r' → Announces text r'
announced_run r r' text h e = let same : r ≡ r' = cc in subst (Announces text) same h

to_int_bound : (n : ℕ) → pos_part (to_int n) < 2 ^ 31
to_int_bound n = ground arith

atoi_bound : (text : List ℕ) → pos_part (atoi text) < 2 ^ 31
unfolding atoi
atoi_bound text = to_int_bound (to_word (to_long (strtol_digits text)))

preprocess_text-announced :
    (r r' : Run)
    → r.loops ≡ 1
    → preprocess r ≡ runs r'
    → Announces (preprocess_text r.cmd r.params) r'
unfolding preprocess preprocess_text
preprocess_text-announced r r' l e =
    let itv = atoi (param (codes "1") r.params) in
    let loop = atoi (param (codes "2") r.params) in
    elim (Bool-cases (is_perf r.cmd)) [
      | inr other ↦
          rw other (announced_run r r' [] (rw other (refl, omega (arith, l))) (rw other at e))
      | inl perf ↦ elim (Bool-cases (ltb (length r.params) 1)) [
        | inl none_given ↦ cc (rw (perf, none_given) at e)
        | inr given ↦ elim (Bool-cases (ltℤ itv (pos 1) || ltℤ (pos 300) itv)) [
          | inl outside ↦ cc (rw (perf, given, outside) at e)
          | inr inside ↦ elim (Bool-cases (ltb 1 (length r.params) && not (not_pos loop))) [
            | inl more ↦
                rw (perf, given, inside, more)
                  (announced_run (record r { timeout_s = pos 300; loops = pos_part loop }) r' _
                    (rw perf (refl, atoi_bound (param (codes "2") r.params)))
                    (rw (perf, given, inside, more) at e))
            | inr one ↦
                rw (perf, given, inside, one)
                  (announced_run (record r { timeout_s = pos 300 }) r' _
                    (rw (perf, l) (refl, omega (arith, l))) (rw (perf, given, inside, one) at e))
          ]
        ]
      ]
    ]

address_text-announced :
    (addr pwd cmd : List ℕ) (args : List (List ℕ)) (a : Option (List ℕ × List ℕ)) (r : Run)
    → to_address pwd cmd args a ≡ runs r
    → Announces (address_text addr cmd args a) r
address_text-announced addr pwd cmd args none r e = cc
address_text-announced addr pwd cmd args (some (host, port)) r e =
    preprocess_text-announced _ r refl e

-- Whatever the arguments, where `main` reaches its loop it has written before it, of get_perf, how many
-- times it runs, the digits standing for the number of passes that the loop makes, and the interval, which is the first
-- parameter; and nothing of any other command.
pub plan_text-announced :
    (built name : List ℕ) (argv : List (List ℕ)) (r : Run)
    → parse_args argv ≡ runs r
    → (plan_text built name argv ≡ announced r) × (digits_of 0 (show_int (pos r.loops)) ≡ r.loops)
unfolding parse_args plan_text show_int
plan_text-announced built name [] r e = cc
plan_text-announced built name (a ∷ []) r e = cc
plan_text-announced built name (a ∷ b ∷ []) r e = cc
plan_text-announced built name (addr ∷ pwd ∷ cmd ∷ args) r e =
    let (text, few) = address_text-announced addr pwd cmd args (split_address addr) r e in
    (text, digits_of-decimal 10 r.loops (omega arith))
