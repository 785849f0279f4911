-- ===== src/Prelude/Maps.antt =====
-- Go's `map[K]V` as an association list: one entry for each key, in no order that matters.
use Prim.Native.Nat.{ℕ}
use Prim.Native.String.{String}
use mathlib.Core.Path.{◌≡◌}
use mathlib.Core.Logic.{◌↔◌}
use mathlib.Core.Bool.{Bool, true}
use mathlib.Core.Option.{Option, none, some}
use mathlib.Core.List.{List, [], ◌∷◌}
use native.Mathlib.Omega.{arith}
use text.Mathlib.TextEquality.{eq_iff}
use raft_implementation.Prelude.Tests.{if◌then◌else◌, ◌==◌, str_eq, ==_iff}

-- A key type with Go's `==`.
pub record Eq {ℓ} (A : Type ℓ) : Type ℓ where
  pub beq : A → A → Bool
  pub beq_iff : (a b : A) → (beq a b ≡ true) ↔ (a ≡ b)

instance abbrev pub nat_eq : Eq ℕ
nat_eq = record { beq = ◌==◌; beq_iff = ==_iff }

instance abbrev pub string_eq : Eq String
string_eq = record { beq = str_eq; beq_iff = eq_iff }

abbrev pub GoMap {ℓ κ} : Type ℓ → Type κ → Type (ℓ ⊔ κ)
GoMap K V = List (K × V)

module _ {ℓ κ} {K : Type ℓ} {V : Type κ} ⦃e : Eq K⦄ where
  -- v, ok := m[k]
  unfoldable pub lookup : K → GoMap K V → Option V
  lookup k [] = none
  lookup k ((j, v) ∷ m) = if e.beq j k then some v else lookup k m

  -- delete(m, k)
  unfoldable pub delete : K → GoMap K V → GoMap K V
  delete k [] = []
  delete k ((j, v) ∷ m) = let rest = delete k m in if e.beq j k then rest else (j, v) ∷ rest

  -- m[k] = v
  unfoldable pub insert : K → V → GoMap K V → GoMap K V
  unfolding delete
  insert k v m = (k, v) ∷ delete k m

  -- m[k], with the zero value for a key that is not there
  unfoldable pub lookup_or : V → K → GoMap K V → V
  unfolding lookup
  lookup_or zero_value k m = elim (lookup k m) [ none ↦ zero_value | some v ↦ v ]

  pub lookup-delete :
      (k j : K) (m : GoMap K V) → lookup j (delete k m) ≡ (if e.beq k j then none else lookup j m)
  unfolding lookup delete
  lookup-delete k j [] = ground arith
  lookup-delete k j ((i, v) ∷ m) =
      ground (arith, lookup-delete k j m, e.beq_iff i k, e.beq_iff i j, e.beq_iff k j)

  pub lookup-insert :
      (k j : K) (v : V) (m : GoMap K V)
      → lookup j (insert k v m) ≡ (if e.beq k j then some v else lookup j m)
  unfolding lookup insert
  lookup-insert k j v m = ground (arith, lookup-delete k j m)

  pub lookup_or-insert :
      (z : V) (k j : K) (v : V) (m : GoMap K V)
      → lookup_or z j (insert k v m) ≡ (if e.beq k j then v else lookup_or z j m)
  unfolding lookup_or
  lookup_or-insert z k j v m = ground (arith, lookup-insert k j v m)

  pub lookup_or-delete :
      (z : V) (k j : K) (m : GoMap K V)
      → lookup_or z j (delete k m) ≡ (if e.beq k j then z else lookup_or z j m)
  unfolding lookup_or
  lookup_or-delete z k j m = ground (arith, lookup-delete k j m)
