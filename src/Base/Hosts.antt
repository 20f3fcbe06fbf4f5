-- ===== src/Base/Hosts.antt =====
-- Go's `map[string]V` with host names for keys: an association list, in the order in which a
-- `range` over the map happens to visit it. Theorems hold for every order.
use Prim.Native.String.{String}
use mathlib.Core.Path.{◌≡◌}
use mathlib.Core.Option.{Option, none, some}
use mathlib.Core.List.{List, [], ◌∷◌}
use native.Mathlib.Omega.{arith}
use rdsync.Base.Tests.{if◌then◌else◌}
use rdsync.Base.Text.{str_eq, eq_iff}

abbrev pub HostMap {ℓ} : Type ℓ → Type ℓ
HostMap V = List (String × V)

module _ {ℓ} {V : Type ℓ} where
  -- v, ok := m[k]
  unfoldable pub get : HostMap V → String → Option V
  get [] k = none
  get ((j, v) ∷ m) k = if str_eq j k then some v else get m k

  -- delete(m, k)
  unfoldable pub delete : HostMap V → String → HostMap V
  delete [] k = []
  delete ((j, v) ∷ m) k = let rest = delete m k in if str_eq j k then rest else (j, v) ∷ rest

  -- m[k] = v
  unfoldable pub put : HostMap V → String → V → HostMap V
  put m k v = (k, v) ∷ delete m k

  -- The keys, in the order of the map.
  abbrev pub keys : HostMap V → List String
  keys [] = []
  keys ((j, v) ∷ m) = j ∷ keys m

  pub get-delete :
      (m : HostMap V) (k j : String) → get (delete m k) j ≡ (if str_eq k j then none else get m j)
  unfolding get delete
  get-delete [] k j = ground arith
  get-delete ((i, v) ∷ m) k j = ground (arith, get-delete m k j, eq_iff i k, eq_iff i j, eq_iff k j)

  pub get-put :
      (m : HostMap V) (k : String) (v : V) (j : String)
      → get (put m k v) j ≡ (if str_eq k j then some v else get m j)
  unfolding put get
  get-put m k v j = ground (arith, get-delete m k j)

-- m[k] with the zero value for a missing key.
abbrev pub or_zero {ℓ} : {V : Type ℓ} → V → Option V → V
or_zero z none = z
or_zero z (some v) = v
