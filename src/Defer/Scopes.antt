-- ===== src/Defer/Scopes.antt =====
-- One `MyDeferMulti` against a `MyDefer` for each closure.
use o2k.Prelude.{◌≡◌, refl, ap, ◌∙◌, fun_ext, List, [], ◌∷◌, reverse, reverse-append}
use o2k.Outcome.{Outcome, ok, fault, stuck, ◌>>=◌}
use o2k.Defer.{Closure, delete_my_defer, MyDeferMulti, new_multi, defer, run_each, delete_multi}

-- A statement of a scope: a step, or a closure that is deferred.
pub data Statement (World : Type 0) : Type 0 where
  does defers : Closure World → Statement World

module _ {World : Type 0} where
  -- A scope with one `MyDeferMulti`, which is destroyed at its end.
  unfoldable pub multi_scope : List (Statement World) → MyDeferMulti World → World → Outcome World
  unfolding defer delete_multi
  multi_scope [] d w = delete_multi d w >>= λ (_, w'). ok w'
  multi_scope (does g ∷ ss) d w = g w >>= multi_scope ss d
  multi_scope (defers f ∷ ss) d w = multi_scope ss (defer f d) w

  -- A scope with a `MyDefer` where a closure is deferred; objects are destroyed in the reverse of the order
  -- in which they were made.
  unfoldable pub nested_scope : List (Statement World) → World → Outcome World
  unfolding delete_my_defer
  nested_scope [] w = ok w
  nested_scope (does g ∷ ss) w = g w >>= nested_scope ss
  nested_scope (defers f ∷ ss) w = nested_scope ss w >>= delete_my_defer (record { func = f })

  bind_assoc :
      (m : Outcome World) (f g : World → Outcome World) → (m >>= λ w. f w >>= g) ≡ ((m >>= f) >>= g)
  bind_assoc (ok w) f g = refl
  bind_assoc fault f g = refl
  bind_assoc stuck f g = refl

  bind_ok : (m : Outcome World) → (m >>= λ w. ok w) ≡ m
  bind_ok (ok w) = refl
  bind_ok fault = refl
  bind_ok stuck = refl

  drop_object :
      (d : MyDeferMulti World) (m : Outcome World) → ((m >>= λ w. ok (d, w)) >>= λ (_, w). ok w) ≡ m
  drop_object d (ok w) = refl
  drop_object d fault = refl
  drop_object d stuck = refl

  multi_scope_lem :
      (ss : List (Statement World)) (d : MyDeferMulti World) (w : World)
      → multi_scope ss d w ≡ (nested_scope ss w >>= run_each (reverse d.funcs))
  unfolding multi_scope nested_scope delete_multi defer delete_my_defer run_each
  multi_scope_lem [] d w = drop_object new_multi (run_each (reverse d.funcs) w)
  multi_scope_lem (does g ∷ ss) d w =
      ap (λ k. g w >>= k) (fun_ext λ w'. multi_scope_lem ss d w')
      ∙ bind_assoc (g w) (nested_scope ss) (run_each (reverse d.funcs))
  multi_scope_lem (defers f ∷ ss) d w =
      multi_scope_lem ss (defer f d) w
      ∙ ap (λ fs. nested_scope ss w >>= run_each fs) (reverse-append d.funcs (f ∷ []))
      ∙ bind_assoc (nested_scope ss w) f (run_each (reverse d.funcs))

  -- Whatever a scope does and defers, and whichever step or closure fails: with one `MyDeferMulti` it runs
  -- as with a `MyDefer` for each closure, where it is deferred.
  pub multi_scope-nested_scope :
      (ss : List (Statement World)) (w : World) → multi_scope ss new_multi w ≡ nested_scope ss w
  unfolding run_each
  multi_scope-nested_scope ss w = multi_scope_lem ss new_multi w ∙ bind_ok (nested_scope ss w)
