-- ===== src/Defer.antt =====
-- The guards of binlogdump/utmisc.h, which run or release something where a scope ends. A closure is a step
-- of the world; `fclose` and the test of a byte order are steps and bytes that are given.
pub mod Scopes
use o2k.Prelude.{
  ℕ, ◌==◌, Bool, List, [], ◌∷◌, ◌++◌, reverse, Option, none, some, if◌then◌else◌, codes,
}
use o2k.Outcome.{Outcome, ok, ◌>>=◌}

abbrev pub Closure : Type 0 → Type 0
Closure World = World → Outcome World

pub record MyDefer (World : Type 0) : Type 0 where
  pub func : Closure World

pub record MyDeferMulti (World : Type 0) : Type 0 where
  pub funcs : List (Closure World)

module _ {World : Type 0} where
  -- The destructor of `MyDefer`.
  unfoldable pub delete_my_defer : MyDefer World → World → Outcome World
  delete_my_defer d w = d.func w

  abbrev pub new_multi : MyDeferMulti World
  new_multi = record { funcs = [] }

  unfoldable pub defer : Closure World → MyDeferMulti World → MyDeferMulti World
  defer f d = record { funcs = d.funcs ++ (f ∷ []) }

  -- The loop over the closures.
  unfoldable pub run_each : List (Closure World) → World → Outcome World
  run_each [] w = ok w
  run_each (f ∷ fs) w = f w >>= run_each fs

  -- The destructor, from the last closure to the first.
  unfoldable pub delete_multi : MyDeferMulti World → World → Outcome (MyDeferMulti World × World)
  unfolding run_each
  delete_multi d w = run_each (reverse d.funcs) w >>= λ w'. ok (record { funcs = [] }, w')

  -- The destructors of `DeferFree` and `DeferFclose`: what they release, where it is not null.
  unfoldable pub delete_defer_free {ℓ} :
      {Ptr : Type ℓ} → (Ptr → Closure World) → Option Ptr → Closure World
  delete_defer_free free none w = ok w
  delete_defer_free free (some ptr) w = free ptr w

  unfoldable pub delete_defer_fclose {ℓ} :
      {File : Type ℓ} → (File → Closure World) → Option File → Closure World
  delete_defer_fclose fclose none w = ok w
  delete_defer_fclose fclose (some fp) w = fclose fp w

-- `HostEndian`, on the byte at the address of an `int` of 1.
abbrev pub is_little_endian : ℕ → Bool
is_little_endian first = first == 1

abbrev pub is_big_endian : ℕ → Bool
is_big_endian first = first == 0

unfoldable pub get_endian_name : ℕ → List ℕ
get_endian_name first = if is_little_endian first then codes "Little Endian" else codes "Big Endian"
