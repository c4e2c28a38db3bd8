-- ===== src/Arguments/Options.antt =====
-- What the arguments of binlogdumpK come to.
use o2k.Prelude.{ℕ, ◌==◌, ◌≡◌, Bool, true, false, ◌||◌, List, [], ◌∷◌, All, take, arith, codes}
use o2k.Outcome.{Outcome, ok, Returns, Returns-bind, Returns-ok, Returns-if}
use o2k.Arguments.{
  TopicInfo, max_file_name_len, Args, exits, args, with_tables, handle_option, proceed,
  get_input_arg,
}
use o2k.Arguments.Split.{AreFilled, str_split-Returns}

abbrev pub has_letter : List ℕ → ℕ → Bool
has_letter [] ch = false
has_letter (c ∷ cs) ch = c == ch || has_letter cs ch

-- What `getopt` returns with the option string of `GetInputArg`: a letter of that string, or `?`.
abbrev pub AreOptions : List (ℕ × List ℕ) → Type 0
AreOptions = All (λ o. has_letter (codes "hvznstbmgSECTr?") o.0 ≡ true)

-- The topic keeps its suffix, and the table names stay non-empty.
abbrev pub IsKept : List ℕ → Args → Type 0
IsKept suffix (exits c) = Unit
IsKept suffix (args topic raw) = (topic.suffix ≡ suffix) × AreFilled topic.table_name

option_x : (ch : ℕ) → has_letter (codes "hvznstbmgSECTr?") ch ≡ true → (ch == 120) ≡ false
option_x ch h = ground arith

module _ (suffix : List ℕ) where
  kept :
      (topic : TopicInfo) (raw : Bool)
      → topic.suffix ≡ suffix
      → AreFilled topic.table_name
      → Returns (IsKept suffix) (ok (args topic raw))
  kept topic raw same filled = Returns-ok (args topic raw) (same, filled)

  handle_option-IsKept :
      (ch : ℕ) (optarg : List ℕ) (topic : TopicInfo) (raw : Bool)
      → has_letter (codes "hvznstbmgSECTr?") ch ≡ true
      → topic.suffix ≡ suffix
      → AreFilled topic.table_name
      → Returns (IsKept suffix) (handle_option ch optarg topic raw)
  unfolding handle_option
  handle_option-IsKept ch optarg topic raw letter same filled =
      Returns-if (ch == 104) _ _ (λ e. Returns-ok _ tt)
        λ e.
          Returns-if (ch == 98) _ _ (λ e. kept _ raw same filled)
            λ e.
              Returns-if (ch == 110) _ _ (λ e. kept _ raw same filled)
                λ e.
                  Returns-if (ch == 115) _ _ (λ e. kept _ raw same filled)
                    λ e.
                      Returns-if (ch == 116) _ _
                        (λ e.
                          Returns-bind _ (with_tables topic raw)
                            (str_split-Returns (take max_file_name_len optarg) (codes ",")
                              topic.table_name filled)
                            λ names e' filled'.
                              kept (record topic { table_name = names }) raw same filled')
                        λ e.
                          Returns-if (ch == 109) _ _ (λ e. kept _ raw same filled)
                            λ e.
                              Returns-if (ch == 103) _ _ (λ e. kept _ raw same filled)
                                λ e.
                                  Returns-if (ch == 67) _ _ (λ e. kept _ raw same filled)
                                    λ e.
                                      Returns-if (ch == 114) _ _ (λ e. kept topic true same filled)
                                        λ e.
                                          Returns-if (ch == 120) _ _
                                            (λ e. absurd (cc (option_x ch letter, e)))
                                            λ e. Returns-ok _ tt

  proceed-IsKept :
      (go : TopicInfo → Bool → Outcome Args) (a : Args)
      → IsKept suffix a
      → ((t : TopicInfo) (r : Bool)
          → t.suffix ≡ suffix
          → AreFilled t.table_name
          → Returns (IsKept suffix) (go t r))
      → Returns (IsKept suffix) (proceed go a)
  proceed-IsKept go (exits c) h ih = Returns-ok _ tt
  proceed-IsKept go (args t r) (same, filled) ih = ih t r same filled

  -- Of options that `getopt` can return, `GetInputArg` either exits or makes a topic whose table
  -- names are not empty and whose suffix is still the one that `main` set: no option changes it.
  pub get_input_arg-IsKept :
      (options : List (ℕ × List ℕ)) (topic : TopicInfo) (raw : Bool)
      → AreOptions options
      → topic.suffix ≡ suffix
      → AreFilled topic.table_name
      → Returns (IsKept suffix) (get_input_arg options topic raw)
  unfolding get_input_arg
  get_input_arg-IsKept [] topic raw letters same filled = kept topic raw same filled
  get_input_arg-IsKept ((ch, optarg) ∷ options) topic raw (letter, later) same filled =
      Returns-bind _ _ (handle_option-IsKept ch optarg topic raw letter same filled) λ a e h.
        proceed-IsKept _ a h
          λ t r same' filled'. get_input_arg-IsKept options t r later same' filled'
