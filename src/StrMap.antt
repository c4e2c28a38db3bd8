-- ===== src/StrMap.antt =====
-- `std::map<std::string, std::string>`, which qdcadm fills with the parameters of a command and
-- walks in the order of its keys: a list of entries with growing keys.
pub mod Lookup
use o2k.Prelude.{
  ℕ, Bool, true, false, not, ◌&&◌, List, [], ◌∷◌, Option, none, some, ltb, ◌==◌, if◌then◌else◌,
}

-- `std::string::operator<`: byte by byte, a proper front first.
unfoldable pub str_lt : List ℕ → List ℕ → Bool
str_lt [] [] = false
str_lt [] (d ∷ ds) = true
str_lt (c ∷ cs) [] = false
str_lt (c ∷ cs) (d ∷ ds) = let rest = str_lt cs ds in if c == d then rest else ltb c d

abbrev pub StrMap : Type 0
StrMap = List (List ℕ × List ℕ)

-- `m[k] = v`
unfoldable pub put : List ℕ → List ℕ → StrMap → StrMap
unfolding str_lt
put k v [] = (k, v) ∷ []
put k v ((j, u) ∷ m) =
    let rest = put k v m in
    if str_lt k j then (k, v) ∷ (j, u) ∷ m else if str_lt j k then (j, u) ∷ rest else (k, v) ∷ m

-- The value at a key, where it is there.
unfoldable pub get : List ℕ → StrMap → Option (List ℕ)
unfolding str_lt
get k [] = none
get k ((j, u) ∷ m) = if not (str_lt k j) && not (str_lt j k) then some u else get k m
