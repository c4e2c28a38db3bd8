-- ===== src/Qdcadm/Parameters.antt =====
-- What of the arguments of qdcadm goes where.
use o2k.Prelude.{
  ℕ, suc, ◌+◌, ◌≤◌, ◌<◌, ◌≡◌, refl, ap, sym, subst, ◌∙◌, fun_ext, ◌==◌, ==_iff, pos, List, [], ◌∷◌,
  ◌++◌, length, Option, none, some, if◌then◌else◌, bytes_eq, decimal, decimal-eq, pow10, arith,
  codes, not, not_pos, ltℤ, ◌&&◌, ◌||◌, ltb, Bool-cases, Option-cases, inl, inr,
}
use o2k.StrMap.{StrMap, get, put}
use o2k.StrMap.Lookup.{get-put, bytes_eq→eq}
use o2k.Qdcadm.{
  atoi, param, params_from, split_address, Run, runs, is_perf, preprocess, to_address, parse_args,
}

-- The arguments by the numeral of their position, the first of them at `i`.
abbrev pub numbered : ℕ → List (List ℕ) → List ℕ → Option (List ℕ)
numbered i [] key = none
numbered i (arg ∷ args) key =
    if bytes_eq key (decimal 10 i) then some arg else numbered (suc i) args key

numbered_before :
    (i j : ℕ) (args : List (List ℕ))
    → i < j
    → j + length args ≤ pow10 10
    → numbered j args (decimal 10 i) ≡ none
numbered_before i j [] h k = refl
numbered_before i j (arg ∷ args) h k = elim (Bool-cases (bytes_eq (decimal 10 i) (decimal 10 j))) [
  | inl same ↦
      let equal : i ≡ j =
        decimal-eq 10 i j (omega arith) (omega arith)
          (bytes_eq→eq (decimal 10 i) (decimal 10 j) same) in
      absurd (omega arith)
  | inr apart ↦ rw apart (numbered_before i (suc j) args (omega arith) (omega arith))
]

abbrev or_else : Option (List ℕ) → Option (List ℕ) → Option (List ℕ)
or_else none b = b
or_else (some a) b = some a

or_else-none : (a : Option (List ℕ)) → or_else a none ≡ a
or_else-none none = refl
or_else-none (some a) = refl

get-params_from :
    (i : ℕ) (args : List (List ℕ)) (m : StrMap) (key : List ℕ)
    → i + length args ≤ pow10 10
    → get key (params_from i args m) ≡ or_else (numbered i args key) (get key m)
unfolding params_from
get-params_from i [] m key h = refl
get-params_from i (arg ∷ args) m key h =
    let next : i + 1 ≡ suc i = omega arith in
    let rest = get-params_from (suc i) args (put (decimal 10 i) arg m) key (omega arith) in
    let here = ap (λ f. f key) (get-put (decimal 10 i) arg m) in
    elim (Bool-cases (bytes_eq key (decimal 10 i))) [
      | inl same ↦
          let is_key = bytes_eq→eq key (decimal 10 i) same in
          let behind : numbered (suc i) args key ≡ none =
            rw is_key (numbered_before i (suc i) args (omega arith) (omega arith)) in
          rw next (rw (rest, behind, here) (rw same refl))
      | inr apart ↦ rw next (rw (rest, here) (rw apart refl))
    ]

-- A run with the host, the password, the command and the parameters of another.
abbrev SameCommand : Run → Run → Type 0
SameCommand r r' =
    (r'.host ≡ r.host)
    × (r'.port ≡ r.port)
    × (r'.pwd ≡ r.pwd)
    × (r'.cmd ≡ r.cmd)
    × (r'.params ≡ r.params)

same_command : (r r' r'' : Run) → runs r' ≡ runs r'' → SameCommand r r' → SameCommand r r''
same_command r r' r'' e h = let same : r' ≡ r'' = cc in subst (λ x. SameCommand r x) same h

preprocess-SameCommand : (r r' : Run) → preprocess r ≡ runs r' → SameCommand r r'
unfolding preprocess
preprocess-SameCommand r r' e =
    let itv = atoi (param (codes "1") r.params) in
    let loop = atoi (param (codes "2") r.params) in
    elim (Bool-cases (is_perf r.cmd)) [
      | inr other ↦ same_command r _ r' (rw other at e) (refl, refl, refl, refl, refl)
      | inl perf ↦ elim (Bool-cases (ltb (length r.params) 1)) [
        | inl none_given ↦ cc (rw (perf, none_given) at e)
        | inr given ↦ elim (Bool-cases (ltℤ itv (pos 1) || ltℤ (pos 300) itv)) [
          | inl outside ↦ cc (rw (perf, given, outside) at e)
          | inr inside ↦ elim (Bool-cases (ltb 1 (length r.params) && not (not_pos loop))) [
            | inl more ↦
                same_command r _ r' (rw (perf, given, inside, more) at e)
                  (refl, refl, refl, refl, refl)
            | inr one ↦
                same_command r _ r' (rw (perf, given, inside, one) at e)
                  (refl, refl, refl, refl, refl)
          ]
        ]
      ]
    ]

split_address_lem :
    (addr host port : List ℕ) → split_address addr ≡ some (host, port) → addr ≡ host ++ (58 ∷ port)
unfolding split_address
split_address_lem [] host port e = cc
split_address_lem (c ∷ cs) host port e = elim (Bool-cases (c == 58)) [
  | inl colon ↦ let is_colon = (==_iff c 58).0 colon in let split = rw colon at e in cc
  | inr other ↦ elim (Option-cases (split_address cs)) [
    | inl without ↦ cc (rw (other, without) at e)
    | inr ((front, behind), found) ↦
        let tail = split_address_lem cs front behind found in
        let split = rw (other, found) at e in cc
  ]
]

-- What the loop of `main` runs, of the arguments behind the program's name.
pub record Commanded (addr pwd cmd : List ℕ) (args : List (List ℕ)) (r : Run) : Type 0 where
  pub port_text : List ℕ
  pub address : addr ≡ r.host ++ (58 ∷ port_text)
  pub port : r.port ≡ atoi port_text
  pub password : r.pwd ≡ pwd
  pub command : r.cmd ≡ cmd
  pub parameters : (λ key. get key r.params) ≡ numbered 1 args

to_address-Commanded :
    (addr pwd cmd : List ℕ) (args : List (List ℕ)) (a : Option (List ℕ × List ℕ)) (r : Run)
    → split_address addr ≡ a
    → length args < pow10 10
    → to_address pwd cmd args a ≡ runs r
    → Commanded addr pwd cmd args r
unfolding get
to_address-Commanded addr pwd cmd args none r s few e = cc
to_address-Commanded addr pwd cmd args (some (host, port)) r s few e =
    let (h, p, pw, c, ps) = preprocess-SameCommand _ r e in
    record {
      port_text = port;
      address = split_address_lem addr host port s ∙ ap (λ t. t ++ (58 ∷ port)) (sym h);
      port = p;
      password = pw;
      command = c;
      parameters = rw ps (
          fun_ext λ key.
            get-params_from 1 args [] key (omega arith) ∙ or_else-none (numbered 1 args key));
    }

-- Where `main` reaches its loop, with fewer than 10^10 arguments behind the command: the address is the
-- host, a colon, and the text whose value is the port; the password and the command are those given;
-- and the map of the parameters is, as a function of its keys, the arguments by the numerals of their
-- positions, from "1" on, and nothing at any other key.
pub parse_args-Commanded :
    (addr pwd cmd : List ℕ) (args : List (List ℕ)) (r : Run)
    → length args < pow10 10
    → parse_args (addr ∷ pwd ∷ cmd ∷ args) ≡ runs r
    → Commanded addr pwd cmd args r
unfolding parse_args
parse_args-Commanded addr pwd cmd args r few e =
    to_address-Commanded addr pwd cmd args (split_address addr) r refl few e
