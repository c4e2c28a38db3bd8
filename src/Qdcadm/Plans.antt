-- ===== src/Qdcadm/Plans.antt =====
-- What the arguments of qdcadm come to.
use o2k.Prelude.{
  ℕ, ◌≤◌, ◌≡◌, refl, subst, ℤ, pos, negsuc, pos_part, not_pos, ltℤ, Bool, true, false, not, ◌&&◌,
  ◌||◌, List, [], ◌∷◌, length, Option, none, some, codes, ltb, arith, Bool-cases, inl, inr,
}
use o2k.Qdcadm.{atoi, param, Run, runs, is_perf, preprocess, to_address, split_address, parse_args}

-- Of get_perf: the interval is from 1 to 300, the timeout 300, and there is a pass. Of another
-- command: there is one pass, with a timeout of 5.
abbrev pub IsPlanned : Bool → Run → Type 0
IsPlanned true r =
    (ltℤ (atoi (param (codes "1") r.params)) (pos 1) ≡ false)
    × (ltℤ (pos 300) (atoi (param (codes "1") r.params)) ≡ false)
    × (r.timeout_s ≡ pos 300)
    × (1 ≤ r.loops)
IsPlanned false r = (r.timeout_s ≡ pos 5) × (r.loops ≡ 1)

some_loops : (loop : ℤ) → not_pos loop ≡ false → 1 ≤ pos_part loop
some_loops (pos n) h = ground arith
some_loops (negsuc n) h = cc

planned :
    (r r' : Run) → runs r ≡ runs r' → IsPlanned (is_perf r.cmd) r → IsPlanned (is_perf r'.cmd) r'
planned r r' e h = let same : r ≡ r' = cc in subst (λ s. IsPlanned (is_perf s.cmd) s) same h

or_false : (a b : Bool) → (a || b) ≡ false → (a ≡ false) × (b ≡ false)
or_false a b h = ground arith

preprocess-IsPlanned :
    (r r' : Run)
    → r.timeout_s ≡ pos 5
    → r.loops ≡ 1
    → preprocess r ≡ runs r'
    → IsPlanned (is_perf r'.cmd) r'
unfolding preprocess
preprocess-IsPlanned r r' t l e =
    let itv = atoi (param (codes "1") r.params) in
    let loop = atoi (param (codes "2") r.params) in
    elim (Bool-cases (is_perf r.cmd)) [
      | inr other ↦ planned r r' (rw other at e) (rw other (t, l))
      | inl perf ↦ elim (Bool-cases (ltb (length r.params) 1)) [
        | inl none_given ↦ cc (rw (perf, none_given) at e)
        | inr given ↦ elim (Bool-cases (ltℤ itv (pos 1) || ltℤ (pos 300) itv)) [
          | inl outside ↦ cc (rw (perf, given, outside) at e)
          | inr inside ↦
              let (least, most) = or_false (ltℤ itv (pos 1)) (ltℤ (pos 300) itv) inside in
              elim (Bool-cases (ltb 1 (length r.params) && not (not_pos loop))) [
                | inl more ↦
                    let some_passes : not_pos loop ≡ false = ground arith in
                    planned (record r { timeout_s = pos 300; loops = pos_part loop }) r'
                      (rw (perf, given, inside, more) at e)
                      (rw perf (least, most, refl, some_loops loop some_passes))
                | inr one ↦
                    planned (record r { timeout_s = pos 300 }) r'
                      (rw (perf, given, inside, one) at e)
                      (rw perf (least, most, refl, omega arith))
              ]
        ]
      ]
    ]

to_address-IsPlanned :
    (pwd cmd : List ℕ) (args : List (List ℕ)) (a : Option (List ℕ × List ℕ)) (r : Run)
    → to_address pwd cmd args a ≡ runs r
    → IsPlanned (is_perf r.cmd) r
to_address-IsPlanned pwd cmd args none r e = cc
to_address-IsPlanned pwd cmd args (some (host, port)) r e = preprocess-IsPlanned _ r refl refl e

-- Whatever the arguments, where `main` reaches its loop with get_perf, in any case of letters, the
-- interval is from 1 to 300, the timeout is 300 seconds and there is a pass; with another command
-- there is one pass, and the timeout is 5 seconds.
pub parse_args-IsPlanned :
    (argv : List (List ℕ)) (r : Run) → parse_args argv ≡ runs r → IsPlanned (is_perf r.cmd) r
unfolding parse_args
parse_args-IsPlanned [] r e = cc
parse_args-IsPlanned (a ∷ []) r e = cc
parse_args-IsPlanned (a ∷ b ∷ []) r e = cc
parse_args-IsPlanned (addr ∷ pwd ∷ cmd ∷ args) r e =
    to_address-IsPlanned pwd cmd args (split_address addr) r e
