-- ===== src/Common/Dict.antt =====
-- `HashMap<String, V>` as an association list. The order of the entries stands for the unspecified
-- order of the map's iteration, so a theorem holds for each such order.
use Prim.Native.Nat.{◌+◌, ◌≤◌}
use Prim.Native.String.{String}
use mathlib.Core.Path.{◌≡◌, refl}
use mathlib.Core.Option.{Option, none, some}
use mathlib.Core.List.{List, [], ◌∷◌}
use native.Mathlib.Omega.{arith}
use arb_core.Common.Tests.{if◌then◌else◌, str_eq, eq_iff}
use arb_core.Common.Lists.{length}

abbrev pub Dict {ℓ} : Type ℓ → Type ℓ
Dict V = List (String × V)

module _ {ℓ} {V : Type ℓ} where
  unfoldable pub find : Dict V → String → Option V
  find [] key = none
  find ((key', value) ∷ rest) key = if str_eq key key' then some value else find rest key

  unfoldable pub put : Dict V → String → V → Dict V
  put [] key new = (key, new) ∷ []
  put ((key', value) ∷ rest) key new =
      if str_eq key key' then (key', new) ∷ rest else (key', value) ∷ put rest key new

  unfoldable pub delete : Dict V → String → Dict V
  delete [] key = []
  delete ((key', value) ∷ rest) key =
      if str_eq key key' then delete rest key else (key', value) ∷ delete rest key

  -- reading one key after a write of another or of the same
  pub find-put :
      (m : Dict V) (key other : String) (new : V)
      → find (put m key new) other ≡ (if str_eq other key then some new else find m other)
  unfolding find put
  find-put [] key other new = refl
  find-put ((key', value) ∷ rest) key other new =
      ground
        (arith, find-put rest key other new, eq_iff other key, eq_iff other key', eq_iff key key')

  pub find-delete :
      (m : Dict V) (key other : String)
      → find (delete m key) other ≡ (if str_eq other key then none else find m other)
  unfolding find delete
  find-delete [] key other = ground arith
  find-delete ((key', value) ∷ rest) key other =
      ground
        (arith, find-delete rest key other, eq_iff other key, eq_iff other key', eq_iff key key')

  pub length-put-le : (m : Dict V) (key : String) (new : V) → length (put m key new) ≤ length m + 1
  unfolding put
  length-put-le [] key new = omega arith
  length-put-le (e ∷ rest) key new = ground (arith, length-put-le rest key new)

  pub length-delete-le : (m : Dict V) (key : String) → length (delete m key) ≤ length m
  unfolding delete
  length-delete-le [] key = omega arith
  length-delete-le (e ∷ rest) key = ground (arith, length-delete-le rest key)

  -- a write at a key that is there replaces the entry
  pub length-put_present :
      (m : Dict V) (key : String) (new old : V)
      → find m key ≡ some old
      → length (put m key new) ≡ length m
  unfolding find put
  length-put_present [] key new old h = absurd (ground arith)
  length-put_present ((key', value) ∷ rest) key new old h =
      ground (arith, length-put_present rest key new old)

-- No key has two entries.
abbrev pub IsMap : {V : Type 0} → Dict V → Type 0
IsMap [] = Unit
IsMap ((key, value) ∷ rest) = (find rest key ≡ none) × IsMap rest

module _ {V : Type 0} where
  pub put-IsMap : (m : Dict V) (key : String) (new : V) → IsMap m → IsMap (put m key new)
  unfolding find put
  put-IsMap [] key new h = ground arith
  put-IsMap ((key', value) ∷ rest) key new (fresh, h) = ground (
    arith,
    put-IsMap rest key new h,
    find-put rest key key' new,
    eq_iff key key',
    eq_iff key' key,
  )

  pub delete-IsMap : (m : Dict V) (key : String) → IsMap m → IsMap (delete m key)
  unfolding find delete
  delete-IsMap [] key h = ground arith
  delete-IsMap ((key', value) ∷ rest) key (fresh, h) =
      ground (
        arith,
        delete-IsMap rest key h,
        find-delete rest key key',
        eq_iff key key',
        eq_iff key' key,
      )
