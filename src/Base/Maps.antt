-- ===== src/Base/Maps.antt =====
-- Go's maps as association lists with distinct keys. The order of entries is never observed.
use Prim.Native.Nat.{suc, ◌≤◌}
use mathlib.Core.Path.{◌≡◌, refl}
use mathlib.Core.Logic.{◌≢◌}
use mathlib.Core.Option.{Option, none, some}
use mathlib.Core.List.{List, [], ◌∷◌}
use native.Mathlib.Omega.{arith}
use execenv.Base.Tests.{Eq, if◌then◌else◌}
use execenv.Base.Lists.{length}

abbrev pub GoMap {ℓ κ} : Type ℓ → Type κ → Type (ℓ ⊔ κ)
GoMap K V = List (K × V)

module _ {ℓ κ} {K : Type ℓ} ⦃e : Eq K⦄ {V : Type κ} where
  -- v, ok := m[k]
  unfoldable pub lookup : K → GoMap K V → Option V
  lookup k [] = none
  lookup k ((j, v) ∷ m) = if e.beq j k then some v else lookup k m

  -- m[k] = v
  unfoldable pub insert : K → V → GoMap K V → GoMap K V
  insert k v [] = (k, v) ∷ []
  insert k v ((j, w) ∷ m) = if e.beq j k then (j, v) ∷ m else (j, w) ∷ insert k v m

  -- delete(m, k)
  unfoldable pub delete : K → GoMap K V → GoMap K V
  delete k [] = []
  delete k ((j, v) ∷ m) = let rest = delete k m in if e.beq j k then rest else (j, v) ∷ rest

  pub lookup-insert :
      (k j : K) (v : V) (m : GoMap K V)
      → lookup j (insert k v m) ≡ (if e.beq k j then some v else lookup j m)
  unfolding lookup insert
  lookup-insert k j v [] = refl
  lookup-insert k j v ((i, w) ∷ m) =
      ground (arith, e.beq_iff k j, e.beq_iff i k, e.beq_iff i j, lookup-insert k j v m)

  pub lookup-delete :
      (k j : K) (m : GoMap K V) → lookup j (delete k m) ≡ (if e.beq k j then none else lookup j m)
  unfolding lookup delete
  lookup-delete k j [] = ground arith
  lookup-delete k j ((i, w) ∷ m) =
      ground (arith, e.beq_iff k j, e.beq_iff i k, e.beq_iff i j, lookup-delete k j m)

  -- No entry has the key.
  abbrev pub Fresh : K → GoMap K V → Type ℓ
  Fresh k [] = Unit {ℓ}
  Fresh k ((j, v) ∷ m) = (j ≢ k) × Fresh k m

  abbrev pub IsDistinct : GoMap K V → Type ℓ
  IsDistinct [] = Unit {ℓ}
  IsDistinct ((k, v) ∷ m) = Fresh k m × IsDistinct m

  pub lookup-Fresh : (k : K) (m : GoMap K V) → Fresh k m → lookup k m ≡ none
  unfolding lookup
  lookup-Fresh k [] f = refl
  lookup-Fresh k ((j, v) ∷ m) (g, f) = ground (arith, e.beq_iff j k, lookup-Fresh k m f, g)

  Fresh-insert : (i k : K) (v : V) (m : GoMap K V) → k ≢ i → Fresh i m → Fresh i (insert k v m)
  unfolding insert
  Fresh-insert i k v [] h f = (h, tt)
  Fresh-insert i k v ((j, w) ∷ m) h (g, f) = ground (arith, e.beq_iff j k, Fresh-insert i k v m h f)

  Fresh-delete : (i k : K) (m : GoMap K V) → Fresh i m → Fresh i (delete k m)
  unfolding delete
  Fresh-delete i k [] f = tt
  Fresh-delete i k ((j, w) ∷ m) (g, f) = ground (arith, Fresh-delete i k m f)

  pub insert-IsDistinct : (k : K) (v : V) (m : GoMap K V) → IsDistinct m → IsDistinct (insert k v m)
  unfolding insert
  insert-IsDistinct k v [] d = (tt, tt)
  insert-IsDistinct k v ((j, w) ∷ m) (f, d) =
      ground (arith, e.beq_iff j k, Fresh-insert j k v m, insert-IsDistinct k v m d)

  pub delete-IsDistinct : (k : K) (m : GoMap K V) → IsDistinct m → IsDistinct (delete k m)
  unfolding delete
  delete-IsDistinct k [] d = tt
  delete-IsDistinct k ((j, w) ∷ m) (f, d) =
      ground (arith, Fresh-delete j k m f, delete-IsDistinct k m d)

  pub length-delete-le : (k : K) (m : GoMap K V) → length (delete k m) ≤ length m
  unfolding delete
  length-delete-le k [] = omega arith
  length-delete-le k ((j, w) ∷ m) = ground (arith, length-delete-le k m)

  pub length-delete_present :
      (k : K) (m : GoMap K V) (v : V) → lookup k m ≡ some v → suc (length (delete k m)) ≤ length m
  unfolding lookup delete
  length-delete_present k [] v h = cc
  length-delete_present k ((j, w) ∷ m) v h =
      ground (arith, length-delete-le k m, length-delete_present k m v)

  Fresh-length : (k : K) (m : GoMap K V) → Fresh k m → length (delete k m) ≡ length m
  unfolding delete
  Fresh-length k [] f = refl
  Fresh-length k ((j, w) ∷ m) f = ground (arith, e.beq_iff j k, e.beq_iff k j, Fresh-length k m)

  pub length-delete_held :
      (k : K) (m : GoMap K V) (v : V)
      → IsDistinct m
      → lookup k m ≡ some v
      → suc (length (delete k m)) ≡ length m
  unfolding lookup delete
  length-delete_held k [] v d h = cc
  length-delete_held k ((j, w) ∷ m) v d h =
      ground (arith, e.beq_iff j k, e.beq_iff k j, Fresh-length k m, length-delete_held k m v)

  pub length-insert_absent :
      (k : K) (v : V) (m : GoMap K V) → lookup k m ≡ none → length (insert k v m) ≡ suc (length m)
  unfolding lookup insert
  length-insert_absent k v [] h = refl
  length-insert_absent k v ((j, w) ∷ m) h = ground (arith, length-insert_absent k v m)

  pub length-insert-le : (k : K) (v : V) (m : GoMap K V) → length (insert k v m) ≤ suc (length m)
  unfolding insert
  length-insert-le k v [] = omega arith
  length-insert-le k v ((j, w) ∷ m) = ground (arith, length-insert-le k v m)
