-- ===== src/Arguments/Split.antt =====
-- `StrSplit`: it ends, its fields are not empty, and it takes apart what a separator joins.
use o2k.Prelude.{
  ℕ, zero, suc, ◌+◌, ◌≤◌, ◌≡◌, refl, ap, ◌∙◌, true, false, List, [], ◌∷◌, ◌++◌, append_assoc, All,
  length, length-drop, length-append, take, drop, take_front, Option, none, some, arith, Bool-cases,
  inl, inr, ◌==◌,
}
use o2k.Outcome.{ok, Returns}
use o2k.Kafka.{is_empty}
use o2k.Arguments.{push_field, strstr, split_at, split_loop, str_split}

abbrev pub IsFilled : List ℕ → Type 0
IsFilled s = is_empty s ≡ false

abbrev pub AreFilled : List (List ℕ) → Type 0
AreFilled = All IsFilled

All-append : (xs ys : List (List ℕ)) → AreFilled xs → AreFilled ys → AreFilled (xs ++ ys)
All-append [] ys h k = k
All-append (x ∷ xs) ys (h, hs) k = (h, All-append xs ys hs k)

push_field-AreFilled :
    (one : List ℕ) (out : List (List ℕ)) → AreFilled out → AreFilled (push_field one out)
push_field-AreFilled [] out h = h
push_field-AreFilled (c ∷ one) out h = All-append out _ h (refl, tt)

IsFilled-length : (s : List ℕ) → IsFilled s → 1 ≤ length s
IsFilled-length [] h = cc
IsFilled-length (c ∷ s) h = omega arith

module _ (sep : List ℕ) (filled : IsFilled sep) where
  split_at-Returns :
      (fuel : ℕ) (src : List ℕ) (out : List (List ℕ)) (o : Option ℕ)
      → IsFilled src
      → length src ≤ suc fuel
      → AreFilled out
      → ((rest : List ℕ) (out' : List (List ℕ))
          → IsFilled rest
          → length rest ≤ fuel
          → AreFilled out'
          → Returns AreFilled (split_loop fuel rest sep out'))
      → Returns AreFilled (split_at (λ rest out'. split_loop fuel rest sep out') src sep out o)
  split_at-Returns fuel src out none some_src enough h ih = record {
    value = push_field src out;
    ends = refl;
    holds = push_field-AreFilled src out h;
  }
  split_at-Returns fuel src out (some p) some_src enough h ih =
      elim (Bool-cases (is_empty (drop (p + length sep) src))) [
        | inl over ↦ record {
          value = push_field (take p src) out;
          ends = rw over refl;
          holds = push_field-AreFilled (take p src) out h;
        }
        | inr more ↦
            let long = IsFilled-length sep filled in
            let shorter = length-drop (p + length sep) src in
            let long' = IsFilled-length src some_src in
            rw more (
              ih (drop (p + length sep) src) (push_field (take p src) out) more (omega arith)
                (push_field-AreFilled (take p src) out h))
      ]

  split_loop-Returns :
      (fuel : ℕ) (src : List ℕ) (out : List (List ℕ))
      → IsFilled src
      → length src ≤ fuel
      → AreFilled out
      → Returns AreFilled (split_loop fuel src sep out)
  unfolding split_loop
  split_loop-Returns zero src out some_src enough h =
      let long = IsFilled-length src some_src in absurd (omega arith)
  split_loop-Returns (suc fuel) src out some_src enough h =
      split_at-Returns fuel src out (strstr src sep) some_src enough h
        (λ rest out'. split_loop-Returns fuel rest out')

-- `StrSplit` ends, and it adds no empty field.
pub str_split-Returns :
    (src sep : List ℕ) (out : List (List ℕ))
    → AreFilled out
    → Returns AreFilled (str_split src sep out)
unfolding str_split
str_split-Returns src sep out h = elim (Bool-cases (is_empty src)) [
  | inl nothing ↦ record { value = out; ends = rw nothing refl; holds = h }
  | inr some_src ↦ elim (Bool-cases (is_empty sep)) [
    | inl no_sep ↦ record {
      value = out ++ (src ∷ []);
      ends = rw (some_src, no_sep) refl;
      holds = All-append out _ h (some_src, tt);
    }
    | inr filled ↦
        rw (some_src, filled)
          (split_loop-Returns sep filled (length src) src out some_src (omega arith) h)
  ]
]

-- The fields with the separator between them.
abbrev pub join : ℕ → List (List ℕ) → List ℕ
join sep [] = []
join sep (f ∷ []) = f
join sep (f ∷ g ∷ fs) = f ++ (sep ∷ join sep (g ∷ fs))

-- A field without the separator.
abbrev pub Lacks : ℕ → List ℕ → Type 0
Lacks sep f = All (λ c. (sep == c) ≡ false) f

strstr-Lacks : (sep : ℕ) (f : List ℕ) → Lacks sep f → strstr f (sep ∷ []) ≡ none
unfolding strstr
strstr-Lacks sep [] h = refl
strstr-Lacks sep (c ∷ f) (h, hs) = rw (h, strstr-Lacks sep f hs)

strstr_found :
    (sep : ℕ) (f rest : List ℕ)
    → Lacks sep f
    → strstr (f ++ (sep ∷ rest)) (sep ∷ []) ≡ some (length f)
unfolding strstr
strstr_found sep [] rest h = let same : (sep == sep) ≡ true = ground arith in rw same refl
strstr_found sep (c ∷ f) rest (h, hs) = rw (h, strstr_found sep f rest hs)

drop_past : (f rest : List ℕ) (c n : ℕ) → n ≡ suc (length f) → drop n (f ++ (c ∷ rest)) ≡ rest
drop_past f rest c zero e = absurd (omega arith)
drop_past [] rest c (suc n) e = let none_left : n ≡ 0 = omega arith in rw none_left refl
drop_past (d ∷ f) rest c (suc n) e = drop_past f rest c n (omega arith)

push_field-IsFilled :
    (f : List ℕ) (out : List (List ℕ)) → IsFilled f → push_field f out ≡ out ++ (f ∷ [])
push_field-IsFilled [] out h = cc
push_field-IsFilled (c ∷ f) out h = refl

join-IsFilled :
    (sep : ℕ) (f : List ℕ) (fs : List (List ℕ)) → IsFilled f → IsFilled (join sep (f ∷ fs))
join-IsFilled sep f [] h = h
join-IsFilled sep [] (g ∷ fs) h = cc
join-IsFilled sep (c ∷ f) (g ∷ fs) h = refl

abbrev pub IsField : ℕ → List ℕ → Type 0
IsField sep f = IsFilled f × Lacks sep f

split_loop-join :
    (sep fuel : ℕ) (f : List ℕ) (fs out : List (List ℕ))
    → All (IsField sep) (f ∷ fs)
    → length (join sep (f ∷ fs)) ≤ fuel
    → split_loop fuel (join sep (f ∷ fs)) (sep ∷ []) out ≡ ok (out ++ (f ∷ fs))
unfolding split_loop
split_loop-join sep zero f fs out ((some_f, _), _) enough =
    let long = IsFilled-length (join sep (f ∷ fs)) (join-IsFilled sep f fs some_f) in
    absurd (omega arith)
split_loop-join sep (suc fuel) f [] out ((some_f, lacks), _) enough =
    rw (strstr-Lacks sep f lacks) (ap ok (push_field-IsFilled f out some_f))
split_loop-join sep (suc fuel) f (g ∷ fs) out ((some_f, lacks), later) enough =
    let rest = join sep (g ∷ fs) in
    let behind = drop_past f rest sep (length f + 1) (omega arith) in
    let front = take_front (length f) f (sep ∷ rest) refl in
    let long = length-append f (sep ∷ rest) in
    let more = join-IsFilled sep g fs later.0.0 in
    rw (strstr_found sep f rest lacks, behind, front, more, push_field-IsFilled f out some_f)
      (split_loop-join sep fuel g fs (out ++ (f ∷ [])) later (omega arith)
        ∙ ap ok (append_assoc out (f ∷ []) (g ∷ fs)))

-- Fields that are not empty and that do not hold the separator come out of `StrSplit` again, in
-- their order, behind those that were there.
pub str_split-join :
    (sep : ℕ) (f : List ℕ) (fs out : List (List ℕ))
    → All (IsField sep) (f ∷ fs)
    → str_split (join sep (f ∷ fs)) (sep ∷ []) out ≡ ok (out ++ (f ∷ fs))
unfolding str_split
str_split-join sep f fs out fields =
    rw (join-IsFilled sep f fs fields.0.0)
      (split_loop-join sep (length (join sep (f ∷ fs))) f fs out fields (omega arith))
