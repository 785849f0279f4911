-- ===== src/Raft/Cluster/Quorum.antt =====
-- Counting over the list of the cluster's nodes: two majorities meet.
use raft_implementation.Prelude.{
  ◌+◌, ◌<◌, ◌≤◌, ◌≡◌, refl, String, Bool, true, false, List, [], ◌∷◌, arith, length, count, str_eq,
  if◌then◌else◌, eq_iff, Bool-cases, inl, inr, any, false≢true,
}

-- If p and q together hold more often than there are items, some item has both.
pub counts_meet :
    (p q : String → Bool) (is : List String)
    → length is < count p is + count q is
    → (i : String) × (p i ≡ true) × (q i ≡ true)
counts_meet p q [] h = absurd (omega arith)
counts_meet p q (i ∷ is) h = elim (Bool-cases (p i)) [
  | inl yp ↦ elim (Bool-cases (q i)) [
    | inl yq ↦ (i, yp, yq)
    | inr nq ↦ counts_meet p q is (ground arith)
  ]
  | inr np ↦ counts_meet p q is (ground arith)
]

pub count_mono :
    (p q : String → Bool) (is : List String)
    → ((i : String) → p i ≡ true → q i ≡ true)
    → count p is ≤ count q is
count_mono p q [] h = omega arith
count_mono p q (i ∷ is) h = ground (arith, h i, count_mono p q is h)

pub count_same :
    (p q : String → Bool) (is : List String) → ((i : String) → p i ≡ q i) → count p is ≡ count q is
count_same p q [] h = refl
count_same p q (i ∷ is) h = ground (arith, h i, count_same p q is h)

abbrev pub mem : String → List String → Bool
mem i is = any (λ j. str_eq i j) is

-- No name stands twice.
abbrev pub Distinct : List String → Type 0
Distinct [] = Unit
Distinct (i ∷ is) = (mem i is ≡ false) × Distinct is

-- Marking an item that does not stand in the list changes no count.
count-mark_absent :
    (v : String) (p : String → Bool) (is : List String)
    → mem v is ≡ false
    → count (λ u. if str_eq v u then true else p u) is ≡ count p is
count-mark_absent v p [] h = refl
count-mark_absent v p (i ∷ is) h = ground (arith, count-mark_absent v p is)

-- Marking an unmarked item of the list adds one.
pub count-mark :
    (v : String) (p : String → Bool) (is : List String)
    → Distinct is
    → mem v is ≡ true
    → p v ≡ false
    → count (λ u. if str_eq v u then true else p u) is ≡ count p is + 1
count-mark v p [] d h n = absurd (false≢true h)
count-mark v p (i ∷ is) d h n =
    ground (arith, eq_iff v i, count-mark_absent v p is, count-mark v p is d.1)

pub count_none : (is : List String) → count (λ (u : String). false) is ≡ 0
count_none [] = refl
count_none (i ∷ is) = count_none is

-- A mark on one name of the list counts one.
pub count_one :
    (v : String) (is : List String)
    → Distinct is
    → mem v is ≡ true
    → count (λ u. if str_eq v u then true else false) is ≡ 1
count_one v is d h = omega (arith, count-mark v (λ u. false) is d h refl, count_none is)
