-- ===== src/Base/Maps.antt =====
-- Maps of the program as association lists (std::unordered_map with `emplace`, `operator[]`,
-- `erase`, `count`), and sets as lists of keys.
use mathlib.Core.Path.{◌≡◌, refl}
use mathlib.Core.Logic.{inl, inr}
use mathlib.Core.Bool.{Bool, false, ◌||◌, ◌&&◌, not}
use mathlib.Core.Option.{Option, none, some}
use mathlib.Core.List.{List, [], ◌∷◌}
use native.Mathlib.Omega.{arith}
use migang_bot_cpp.Base.Tests.{Key, ◌==◌, Bool-cases, if◌then◌else◌}

module _ {ℓ κ} {K : Type ℓ} {V : Type κ} ⦃e : Key K⦄ where
  unfoldable pub lookup : K → List (K × V) → Option V
  lookup k [] = none
  lookup k ((j, v) ∷ m) = if j == k then some v else lookup k m

  -- `m[k] = v`
  unfoldable pub insert : K → V → List (K × V) → List (K × V)
  insert key new [] = (key, new) ∷ []
  insert key new ((k, old) ∷ m) =
      let rest = insert key new m in if k == key then (key, new) ∷ m else (k, old) ∷ rest

  unfoldable pub erase : K → List (K × V) → List (K × V)
  erase k [] = []
  erase k ((j, w) ∷ m) = let rest = erase k m in if j == k then rest else (j, w) ∷ rest

  pub lookup-insert :
      (k asked : K) (v : V) (m : List (K × V))
      → lookup asked (insert k v m) ≡ (if k == asked then some v else lookup asked m)
  unfolding lookup insert
  lookup-insert k j v [] = ground arith
  lookup-insert k j v ((i, w) ∷ m) =
      ground
        (arith, e.same_key_iff k j, e.same_key_iff i k, e.same_key_iff i j, lookup-insert k j v m)

  pub lookup-erase :
      (k j : K) (m : List (K × V)) → lookup j (erase k m) ≡ (if k == j then none else lookup j m)
  unfolding lookup erase
  lookup-erase k j [] = ground arith
  lookup-erase k j ((i, w) ∷ m) =
      ground (arith, e.same_key_iff k j, e.same_key_iff i k, e.same_key_iff i j, lookup-erase k j m)

  pub lookup-insert_self : (k : K) (v : V) (m : List (K × V)) → lookup k (insert k v m) ≡ some v
  lookup-insert_self k v m = ground (arith, lookup-insert k k v m, e.same_key_iff k k)

  pub lookup-erase_self : (k : K) (m : List (K × V)) → lookup k (erase k m) ≡ none
  lookup-erase_self k m = ground (arith, lookup-erase k k m, e.same_key_iff k k)

module _ {ℓ} {K : Type ℓ} ⦃e : Key K⦄ where
  -- `s.count(k)`
  unfoldable pub member : K → List K → Bool
  member k [] = false
  member k (x ∷ xs) = x == k || member k xs

  -- `s.emplace(k)`
  unfoldable pub emplace : K → List K → List K
  emplace k xs = if member k xs then xs else k ∷ xs

  -- `s.erase(k)`
  unfoldable pub remove : K → List K → List K
  remove k [] = []
  remove k (x ∷ xs) = let rest = remove k xs in if x == k then rest else x ∷ rest

  pub member-emplace : (k j : K) (xs : List K) → member j (emplace k xs) ≡ (k == j || member j xs)
  unfolding member emplace
  member-emplace k j xs = elim (Bool-cases (k == j)) [
    | inl same ↦ elim (Bool-cases (member k xs)) [
      | inl old ↦ rw (same, old) (rw (← (e.same_key_iff k j).0 same) old)
      | inr new ↦ rw (same, new) (rw same refl)
    ]
    | inr other ↦ elim (Bool-cases (member k xs)) [
      | inl old ↦ rw (other, old) refl
      | inr new ↦ rw (other, new) (rw other refl)
    ]
  ]

  pub member-remove :
      (k j : K) (xs : List K) → member j (remove k xs) ≡ (not (k == j) && member j xs)
  unfolding member remove
  member-remove k j [] = ground arith
  member-remove k j (x ∷ xs) =
      ground
        (arith, e.same_key_iff x k, e.same_key_iff k j, e.same_key_iff x j, member-remove k j xs)
