-- ===== src/Prelude/Decimals.antt =====
-- A printed number has nothing to trim, and no character but digits.
use Prim.Native.Nat.{ℕ, zero, suc, ◌/◌, ◌%◌}
use Prim.Native.String.{String}
use mathlib.Core.Path.{◌≡◌, refl, sym, ap, ◌∙◌}
use mathlib.Core.Logic.{◌≢◌}
use mathlib.Core.Bool.{false}
use native.Mathlib.Omega.{arith}
use text.Mathlib.TextEquality.{eq_iff}
use text.Mathlib.TextLemmas.{append-ne-nil_of_right_ne-nil}
use raft_implementation.Prelude.Tests.{ltb, ◌==◌, str_eq, if-elim}
use raft_implementation.Prelude.Text.{◌<>◌, trim_right, digit, digits, decimal}
use raft_implementation.Prelude.Splits.{trim_right-append}

abbrev IsTrim : String → Type 0
IsTrim s = (trim_right s ≡ s) × (s ≢ "")

not_empty : (s : String) → str_eq s "" ≡ false → s ≢ ""
not_empty s h e = ground (arith, eq_iff s "")

digit-IsTrim : (d : ℕ) → IsTrim (digit d)
unfolding trim_right
digit-IsTrim d =
    let P = IsTrim in
    if-elim P (d == 0) _ _ (λ h. (refl, not_empty "0" refl))
      (λ h.
        if-elim P (d == 1) _ _ (λ h. (refl, not_empty "1" refl))
          (λ h.
            if-elim P (d == 2) _ _ (λ h. (refl, not_empty "2" refl))
              (λ h.
                if-elim P (d == 3) _ _ (λ h. (refl, not_empty "3" refl))
                  (λ h.
                    if-elim P (d == 4) _ _ (λ h. (refl, not_empty "4" refl))
                      (λ h.
                        if-elim P (d == 5) _ _ (λ h. (refl, not_empty "5" refl))
                          (λ h.
                            if-elim P (d == 6) _ _ (λ h. (refl, not_empty "6" refl))
                              (λ h.
                                if-elim P (d == 7) _ _ (λ h. (refl, not_empty "7" refl))
                                  (λ h.
                                    if-elim P (d == 8) _ _ (λ h. (refl, not_empty "8" refl))
                                      (λ h. (refl, not_empty "9" refl))))))))))

append-IsTrim : (s t : String) → IsTrim t → IsTrim (s <> t)
append-IsTrim s t h = (
  trim_right-append s t (λ e. h.1 (sym h.0 ∙ e)) ∙ ap (λ u. s <> u) h.0,
  append-ne-nil_of_right_ne-nil s h.1,
)

digits-IsTrim : (fuel n : ℕ) → IsTrim (digits fuel n)
unfolding digits
digits-IsTrim zero n = digit-IsTrim n
digits-IsTrim (suc fuel) n =
    if-elim IsTrim (ltb n 10) (digit n) (digits fuel (n / 10) <> digit (n % 10))
      (λ h. digit-IsTrim n)
      (λ h. append-IsTrim (digits fuel (n / 10)) (digit (n % 10)) (digit-IsTrim (n % 10)))

pub trim_right-decimal : (s : String) (n : ℕ) → trim_right (s <> decimal n) ≡ s <> decimal n
unfolding decimal
trim_right-decimal s n = (append-IsTrim s (decimal n) (digits-IsTrim n n)).0
