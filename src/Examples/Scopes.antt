-- ===== src/Examples/Scopes.antt =====
-- A scope that defers two closures, on a world that is a list.
use o2k.Prelude.{ℕ, ◌≡◌, refl, List, [], ◌∷◌}
use o2k.Outcome.{Outcome, ok}
use o2k.Defer.{new_multi, run_each, delete_multi, defer}
use o2k.Defer.Scopes.{Statement, does, defers, multi_scope, nested_scope, multi_scope-nested_scope}

abbrev push : ℕ → List ℕ → Outcome (List ℕ)
push n w = ok (n ∷ w)

abbrev statements : List (Statement (List ℕ))
statements = defers (push 1) ∷ does (push 2) ∷ defers (push 3) ∷ []

scope_run : multi_scope statements new_multi [] ≡ ok (1 ∷ 3 ∷ 2 ∷ [])
unfolding multi_scope delete_multi defer run_each
scope_run = refl

multi_scope-nested_scope_example : multi_scope statements new_multi [] ≡ nested_scope statements []
multi_scope-nested_scope_example = multi_scope-nested_scope statements []
