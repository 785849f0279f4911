-- ===== src/Prelude/Text.antt =====
-- Go's strings package on native texts, as far as the program uses it: one-character separators,
-- trimming and decimal numbers.
use Prim.Native.Nat.{ℕ, zero, suc, ◌/◌, ◌%◌}
use Prim.Native.Char.{Char, code}
use Prim.Native.String
use Prim.Native.String.{String, slice, len}
use mathlib.Core.Path.{◌≡◌, refl}
use mathlib.Core.Bool.{Bool, true, false, ◌&&◌, ◌||◌}
use mathlib.Core.Option.{Option, none, some}
use mathlib.Core.List.{List, [], ◌∷◌}
use native.Mathlib.Omega.{arith}
use text.Mathlib.Text.{starts_with}
use text.Mathlib.TextLemmas.{cons-append, nil-append}
use text.Mathlib.TextPositions.{len-append, starts_with-append, slice-append_right}
use raft_implementation.Prelude.Tests.{ltb, leb, ◌==◌, str_eq, if◌then◌else◌}

infixr 65 ◌<>◌
abbrev pub ◌<>◌ : String → String → String
s <> t = String.◌++◌ s t

abbrev pub cons : Char → String → String
cons c s = String.◌∷◌ c s

-- strings.TrimPrefix.
unfoldable pub trim_prefix : String → String → String
trim_prefix s p = if starts_with s p then slice s (len p) (len s) else s

pub trim_prefix-append : (p s : String) → trim_prefix (p <> s) p ≡ s
unfolding trim_prefix
trim_prefix-append p s =
    ground (arith, starts_with-append p s, len-append p s, slice-append_right p s)

-- unicode.IsSpace.
abbrev pub is_space : ℕ → Bool
is_space k =
    (leb 9 k && leb k 13)
    || (k == 32)
    || (k == 133)
    || (k == 160)
    || (k == 5760)
    || (leb 8192 k && leb k 8202)
    || (k == 8232)
    || (k == 8233)
    || (k == 8239)
    || (k == 8287)
    || (k == 12288)

unfoldable pub trim_left : String → String
trim_left String.[] = ""
trim_left (String.◌∷◌ c s) = let rest = trim_left s in if is_space (code c) then rest else cons c s

unfoldable pub trim_right : String → String
trim_right String.[] = ""
trim_right (String.◌∷◌ c s) =
    let rest = trim_right s in if is_space (code c) && str_eq rest "" then "" else cons c rest

-- strings.TrimSpace.
unfoldable pub trim_space : String → String
unfolding trim_left trim_right
trim_space s = trim_right (trim_left s)

abbrev pub add_front : Char → List String → List String
add_front c [] = cons c "" ∷ []
add_front c (x ∷ xs) = cons c x ∷ xs

-- strings.Split at the character with this code.
unfoldable pub split_on : ℕ → String → List String
split_on k String.[] = "" ∷ []
split_on k (String.◌∷◌ c s) =
    let rest = split_on k s in if code c == k then "" ∷ rest else add_front c rest

abbrev pub grow : Char → Option (String × String) → Option (String × String)
grow c none = none
grow c (some (a, b)) = some (cons c a, b)

-- strings.SplitN with the limit 2: the two parts, if there is a separator.
unfoldable pub cut_at : ℕ → String → Option (String × String)
cut_at k String.[] = none
cut_at k (String.◌∷◌ c s) =
    let rest = cut_at k s in if code c == k then some ("", s) else grow c rest

-- strings.Join.
unfoldable pub join_with : String → List String → String
join_with sep [] = ""
join_with sep (x ∷ []) = x
join_with sep (x ∷ (y ∷ ys)) = x <> sep <> join_with sep (y ∷ ys)

abbrev pub digit : ℕ → String
digit d =
    if d == 0
    then "0"
    else if d == 1
    then "1"
    else if d == 2
    then "2"
    else if d == 3
    then "3"
    else if d == 4
    then "4"
    else if d == 5
    then "5"
    else if d == 6
    then "6"
    else if d == 7
    then "7"
    else if d == 8
    then "8"
    else "9"

unfoldable pub digits : ℕ → ℕ → String
digits zero n = digit n
digits (suc fuel) n =
    let front = digits fuel (n / 10) in if ltb n 10 then digit n else front <> digit (n % 10)

-- The verb %d, for a number that is not negative: n rounds are enough.
unfoldable pub decimal : ℕ → String
unfolding digits
decimal n = digits n n

-- The text has no character with this code.
unfoldable pub is_free : ℕ → String → Bool
is_free k String.[] = true
is_free k (String.◌∷◌ c s) = let rest = is_free k s in if code c == k then false else rest

pub is_free-append : (k : ℕ) (s t : String) → is_free k (s <> t) ≡ is_free k s && is_free k t
unfolding is_free
is_free-append k String.[] t = rw (nil-append t) refl
is_free-append k (String.◌∷◌ c s) t = rw (cons-append c s t) (ground (arith, is_free-append k s t))
