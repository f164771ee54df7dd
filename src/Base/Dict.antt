-- ===== src/Base/Dict.antt =====
-- Go's `map[K]V` as an association list: the order of the list is an order of iteration.
use go_api_boot.Base.Tests.{if◌then◌else◌}
use go_api_boot.Base.Equality.{Eq, ◌==◌, ==_iff, ==_refl}
use mathlib.Core.Path.{◌≡◌, refl}
use mathlib.Core.Option.{Option, none, some}
use mathlib.Core.List.{List, [], ◌∷◌, map}
use native.Mathlib.Omega.{arith}

abbrev pub Dict {ℓ κ} : Type ℓ → Type κ → Type (ℓ ⊔ κ)
Dict K V = List (K × V)

module _ {ℓ κ} {K : Type ℓ} {V : Type κ} ⦃e : Eq K⦄ where
  -- val, ok := dict[key]
  unfoldable pub lookup : K → Dict K V → Option V
  lookup key [] = none
  lookup key ((other, val) ∷ dict) = if other == key then some val else lookup key dict

  -- dict[key] = val
  unfoldable pub insert : K → V → Dict K V → Dict K V
  insert key val [] = (key, val) ∷ []
  insert key val ((other, old) ∷ dict) =
      if other == key then (key, val) ∷ dict else (other, old) ∷ insert key val dict

  -- delete(dict, key)
  unfoldable pub erase : K → Dict K V → Dict K V
  erase key [] = []
  erase key ((other, old) ∷ dict) =
      let rest = erase key dict in if other == key then rest else (other, old) ∷ rest

  pub lookup-insert :
      (key other : K) (val : V) (dict : Dict K V)
      → lookup other (insert key val dict) ≡ (if key == other then some val else lookup other dict)
  unfolding lookup insert
  lookup-insert key other val [] = refl
  lookup-insert key other val ((first, old) ∷ dict) = ground (
    arith,
    ==_iff key other,
    ==_iff first key,
    ==_iff first other,
    lookup-insert key other val dict,
  )

  pub lookup-insert_self : (k : K) (v : V) (m : Dict K V) → lookup k (insert k v m) ≡ some v
  lookup-insert_self k v m = rw (lookup-insert k k v m, ==_refl k)

  pub lookup-erase :
      (k j : K) (m : Dict K V) → lookup j (erase k m) ≡ (if k == j then none else lookup j m)
  unfolding lookup erase
  lookup-erase k j [] = ground arith
  lookup-erase k j ((i, w) ∷ m) =
      ground (arith, ==_iff k j, ==_iff i k, ==_iff i j, lookup-erase k j m)

-- The keys, in the order of iteration.
unfoldable pub keys {ℓ κ} : {K : Type ℓ} {V : Type κ} → Dict K V → List K
keys = map (λ (k, _). k)
