-- ===== src/Prelude/Splits.antt =====
-- Laws of splitting, joining and trimming.
use Prim.Native.Nat.{ℕ, zero, suc, ◌/◌, ◌%◌, ◌<◌}
use Prim.Native.Char.{Char, code}
use Prim.Native.String.{String}
use mathlib.Core.Path.{◌≡◌, refl, ap, ◌∙◌}
use mathlib.Core.Logic.{◌≢◌, ◌⊎◌}
use mathlib.Core.Bool.{Bool, true, false}
use mathlib.Core.Option.{some}
use mathlib.Core.List.{List, [], ◌∷◌}
use native.Mathlib.Omega.{arith}
use text.Mathlib.TextEquality.{eq_iff}
use text.Mathlib.TextLemmas.{cons-append, nil-append, append-ne-nil_of_right_ne-nil}
use raft_implementation.Prelude.Tests.{◌==◌, str_eq, if◌then◌else◌}
use raft_implementation.Prelude.Lists.{All}
use raft_implementation.Prelude.Text.{
  ◌<>◌, cons, split_on, cut_at, join_with, is_free, is_free-append, digit, digits, trim_left,
  trim_right, is_space,
}

module _ (sep : Char) where
  pub split_on_free : (x : String) → is_free (code sep) x ≡ true → split_on (code sep) x ≡ x ∷ []
  unfolding split_on is_free
  split_on_free String.[] h = refl
  split_on_free (String.◌∷◌ c s) h = ground (arith, split_on_free s)

  pub split_on-append :
      (x s : String)
      → is_free (code sep) x ≡ true
      → split_on (code sep) (x <> cons sep s) ≡ x ∷ split_on (code sep) s
  unfolding split_on is_free
  split_on-append String.[] s h = rw (nil-append (cons sep s)) (ground arith)
  split_on-append (String.◌∷◌ c x) s h =
      rw (cons-append c x (cons sep s)) (ground (arith, split_on-append x s))

  pub cut_at-append :
      (x s : String)
      → is_free (code sep) x ≡ true
      → cut_at (code sep) (x <> cons sep s) ≡ some (x, s)
  unfolding cut_at is_free
  cut_at-append String.[] s h = rw (nil-append (cons sep s)) (ground arith)
  cut_at-append (String.◌∷◌ c x) s h =
      rw (cons-append c x (cons sep s)) (ground (arith, cut_at-append x s))

  abbrev pub IsFree : String → Type 0
  IsFree x = is_free (code sep) x ≡ true

  -- Splitting what was joined gives back the parts.
  pub split_on-join_with :
      (x : String) (xs : List String)
      → IsFree x
      → All IsFree xs
      → split_on (code sep) (join_with (cons sep "") (x ∷ xs)) ≡ x ∷ xs
  unfolding join_with
  split_on-join_with x [] h hs = split_on_free x h
  split_on-join_with x (y ∷ ys) h hs =
      rw
        (
          cons-append sep "" (join_with (cons sep "") (y ∷ ys)),
          nil-append (join_with (cons sep "") (y ∷ ys)),
        )
        (split_on-append x (join_with (cons sep "") (y ∷ ys)) h
          ∙ ap (λ zs. x ∷ zs) (split_on-join_with y ys hs.0 hs.1))

  either : (b : Bool) (x y : String) → IsFree x → IsFree y → IsFree (if b then x else y)
  either true x y h k = h
  either false x y h k = k

  digit-IsFree : (d : ℕ) → (code sep < 48) ⊎ (57 < code sep) → IsFree (digit d)
  unfolding is_free
  digit-IsFree d h = either (d == 0) _ _ (ground arith) (
      either (d == 1) _ _ (ground arith) (
        either (d == 2) _ _ (ground arith) (
          either (d == 3) _ _ (ground arith) (
            either (d == 4) _ _ (ground arith) (
              either (d == 5) _ _ (ground arith) (
                either (d == 6) _ _ (ground arith) (
                  either (d == 7) _ _ (ground arith)
                    (either (d == 8) _ _ (ground arith) (ground arith)))))))))

  pub digits-IsFree : (fuel n : ℕ) → (code sep < 48) ⊎ (57 < code sep) → IsFree (digits fuel n)
  unfolding digits
  digits-IsFree zero n h = digit-IsFree n h
  digits-IsFree (suc fuel) n h = ground (
    arith,
    digit-IsFree n h,
    digit-IsFree (n % 10) h,
    digits-IsFree fuel (n / 10) h,
    is_free-append (code sep) (digits fuel (n / 10)) (digit (n % 10)),
  )

-- A text whose end is not trimmed away keeps it behind any front.
pub trim_right-append : (s t : String) → trim_right t ≢ "" → trim_right (s <> t) ≡ s <> trim_right t
unfolding trim_right
trim_right-append String.[] t h = rw (nil-append t, nil-append (trim_right t)) refl
trim_right-append (String.◌∷◌ c s) t h =
    let kept : s <> trim_right t ≢ "" = append-ne-nil_of_right_ne-nil s h in
    let more = trim_right-append s t h in
    let some_left : str_eq (trim_right (s <> t)) "" ≡ false =
      ground (arith, eq_iff (trim_right (s <> t)) "") in
    rw (cons-append c s t, cons-append c s (trim_right t)) (ground arith)

-- A text that begins with a character that is no space keeps its front.
pub trim_left-cons :
    (c : Char) (s : String) → is_space (code c) ≡ false → trim_left (cons c s) ≡ cons c s
unfolding trim_left
trim_left-cons c s h = ground arith
