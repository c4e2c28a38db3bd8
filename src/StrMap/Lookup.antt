-- ===== src/StrMap/Lookup.antt =====
-- What a map holds after an assignment.
use o2k.Prelude.{
  ℕ, ◌≡◌, ◌≢◌, fun_ext, Option, if◌then◌else◌, subst, refl, Bool, true, false, not, ◌&&◌, List, [],
  ◌∷◌, some, ◌==◌, bytes_eq, arith, Bool-cases, inl, inr,
}
use o2k.StrMap.{str_lt, StrMap, put, get}

pub str_lt_irrefl : (a : List ℕ) → str_lt a a ≡ false
unfolding str_lt
str_lt_irrefl [] = refl
str_lt_irrefl (c ∷ cs) = let same : (c == c) ≡ true = ground arith in rw same (str_lt_irrefl cs)

-- Keys that are in no order are one key.
pub str_lt_connected : (a b : List ℕ) → str_lt a b ≡ false → str_lt b a ≡ false → a ≡ b
unfolding str_lt
str_lt_connected [] [] h k = refl
str_lt_connected [] (d ∷ ds) h k = cc
str_lt_connected (c ∷ cs) [] h k = cc
str_lt_connected (c ∷ cs) (d ∷ ds) h k =
    let same : c ≡ d = ground arith in
    let h' : str_lt cs ds ≡ false = ground arith in
    let k' : str_lt ds cs ≡ false = ground arith in rw (same, str_lt_connected cs ds h' k') refl

pub bytes_eq_refl : (a : List ℕ) → bytes_eq a a ≡ true
bytes_eq_refl [] = refl
bytes_eq_refl (c ∷ cs) = let same : (c == c) ≡ true = ground arith in rw same (bytes_eq_refl cs)

-- What `get` does at an entry.
abbrev pub hits : List ℕ → List ℕ → Bool
hits j k = not (str_lt j k) && not (str_lt k j)

pub hits_refl : (k : List ℕ) → hits k k ≡ true
hits_refl k = rw (str_lt_irrefl k) refl

pub hits→eq : (j k : List ℕ) → hits j k ≡ true → j ≡ k
hits→eq j k h =
    let less : str_lt j k ≡ false = ground arith in
    let more : str_lt k j ≡ false = ground arith in str_lt_connected j k less more

put-get_same : (k v : List ℕ) (m : StrMap) → get k (put k v m) ≡ some v
unfolding get put
put-get_same k v [] = rw (hits_refl k) refl
put-get_same k v ((j, u) ∷ m) = elim (Bool-cases (str_lt k j)) [
  | inl before ↦ rw before (rw (hits_refl k) refl)
  | inr not_before ↦ elim (Bool-cases (str_lt j k)) [
    | inl behind ↦ rw (not_before, behind) (rw (not_before, behind) (put-get_same k v m))
    | inr same ↦ rw (not_before, same) (rw (hits_refl k) refl)
  ]
]

put-get_other : (j k v : List ℕ) (m : StrMap) → hits j k ≡ false → get j (put k v m) ≡ get j m
unfolding get put
put-get_other j k v [] h = rw h refl
put-get_other j k v ((i, u) ∷ m) h = elim (Bool-cases (str_lt k i)) [
  | inl before ↦ rw before (rw h refl)
  | inr not_before ↦ elim (Bool-cases (str_lt i k)) [
    | inl behind ↦ rw (not_before, behind) (rw (put-get_other j k v m h) refl)
    | inr here ↦
        let same : k ≡ i = str_lt_connected k i not_before here in
        rw (not_before, here)
          (rw h (
            let missed : hits j i ≡ false = subst (λ t. hits j t ≡ false) same h in rw missed refl))
  ]
]

-- After `m[k] = v` the map holds `v` at `k`, and at every other key what it held before.
pub put-get :
    (j k v : List ℕ) (m : StrMap)
    → (get k (put k v m) ≡ some v) × ((j ≢ k) → get j (put k v m) ≡ get j m)
put-get j k v m = (
  put-get_same k v m,
  λ other. elim (Bool-cases (hits j k)) [
    | inl same ↦ absurd (other (hits→eq j k same))
    | inr apart ↦ put-get_other j k v m apart
  ],
)

pub bytes_eq→eq : (a b : List ℕ) → bytes_eq a b ≡ true → a ≡ b
bytes_eq→eq [] [] h = refl
bytes_eq→eq [] (d ∷ ds) h = cc
bytes_eq→eq (c ∷ cs) [] h = cc
bytes_eq→eq (c ∷ cs) (d ∷ ds) h =
    let first : c ≡ d = ground arith in
    let rest : bytes_eq cs ds ≡ true = ground arith in rw (first, bytes_eq→eq cs ds rest) refl

-- A function of keys, changed at one.
abbrev pub update : (List ℕ → Option (List ℕ)) → List ℕ → List ℕ → List ℕ → Option (List ℕ)
update f k v j = if bytes_eq j k then some v else f j

-- A map is a function from keys to values, of which `m[k] = v` changes the value at `k` and nothing else:
-- `get` after `put` is that change of `get`, as an equation of functions.
pub get-put : (k v : List ℕ) (m : StrMap) → (λ j. get j (put k v m)) ≡ update (λ j. get j m) k v
get-put k v m = fun_ext λ j. elim (Bool-cases (bytes_eq j k)) [
  | inl same ↦ rw (bytes_eq→eq j k same) (rw (bytes_eq_refl k) (put-get k k v m).0)
  | inr apart ↦
      rw apart
        ((put-get j k v m).1 λ e. let unequal = rw e at apart in cc (bytes_eq_refl k, unequal))
]
