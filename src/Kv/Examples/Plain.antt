-- ===== src/Kv/Examples/Plain.antt =====
-- An encoding of operations and of the store's data as bytes: each text is its characters' numbers
-- plus one, ended by a zero.
use Prim.Native.Nat.{ℕ, zero, suc, compare, Ordering}
use Prim.Native.Char.{Char, char, code, nul, IsLt, IsScalar}
use Prim.Native.String.{String}
use text.Mathlib.TextEquality.{Char-path}
use raft_implementation.Prelude.{
  ◌≡◌, refl, ap, ◌∙◌, Option, none, some, List, [], ◌∷◌, cons, add_front,
}
use raft_implementation.Raft.Log.{Bytes}
use raft_implementation.Kv.Store.{Op, Data, Codec}

abbrev Both : Ordering → Ordering → Type 0
Both Ordering.lt o = IsLt o
Both Ordering.eq q = ⊥
Both Ordering.gt q = ⊥

abbrev Scalar : Ordering → Ordering → Ordering → Type 0
Scalar Ordering.lt p q = Unit
Scalar Ordering.eq p q = Both p q
Scalar Ordering.gt p q = Both p q

less : (o : Ordering) → Dec (IsLt o)
less Ordering.lt = yes tt
less Ordering.eq = no (λ x. x)
less Ordering.gt = no (λ x. x)

decide_both : (p q : Ordering) → Dec (Both p q)
decide_both Ordering.lt q = less q
decide_both Ordering.eq q = no (λ x. x)
decide_both Ordering.gt q = no (λ x. x)

decide_scalar : (o p q : Ordering) → Dec (Scalar o p q)
decide_scalar Ordering.lt p q = yes tt
decide_scalar Ordering.eq p q = decide_both p q
decide_scalar Ordering.gt p q = decide_both p q

abbrev from_decision : (n : ℕ) → Dec (IsScalar n) → Char
from_decision n (yes p) = char n p
from_decision n (no p) = nul

-- The character of a number.
unfoldable of_code : ℕ → Char
of_code n = from_decision n (decide_scalar (compare n 55296) (compare 57343 n) (compare n 1114112))

from_decision-code : (n : ℕ) (p : IsScalar n) (d : Dec (IsScalar n)) → from_decision n d ≡ char n p
from_decision-code n p (yes q) = Char-path (char n q) (char n p) refl
from_decision-code n p (no q) = absurd (q p)

of_code-code : (c : Char) → of_code (code c) ≡ c
unfolding of_code
of_code-code (char n p) = from_decision-code n p _

unfoldable write_text : String → Bytes → Bytes
write_text String.[] rest = 0 ∷ rest
write_text (String.◌∷◌ c s) rest = suc (code c) ∷ write_text s rest

pub read_texts : Bytes → List String
unfolding of_code
read_texts [] = []
read_texts (zero ∷ bytes) = "" ∷ read_texts bytes
read_texts (suc k ∷ bytes) = add_front (of_code k) (read_texts bytes)

read_texts-write_text :
    (s : String) (rest : Bytes) → read_texts (write_text s rest) ≡ s ∷ read_texts rest
unfolding read_texts write_text
read_texts-write_text String.[] rest = refl
read_texts-write_text (String.◌∷◌ c s) rest =
    ap (λ xs. add_front (of_code (code c)) xs) (read_texts-write_text s rest)
    ∙ ap (λ d. cons d s ∷ read_texts rest) (of_code-code c)

abbrev pub op_of : List String → Option Op
op_of (kind ∷ (key ∷ (value ∷ []))) = some (record { kind = kind; key = key; value = value })
op_of _ = none

pub encode_op : Op → Bytes
unfolding write_text
encode_op o = write_text o.kind (write_text o.key (write_text o.value []))

pub encode_data : Data → Bytes
unfolding write_text
encode_data [] = []
encode_data ((k, v) ∷ d) = write_text k (write_text v (encode_data d))

abbrev add_entry : String → String → Option Data → Option Data
add_entry k v none = none
add_entry k v (some d) = some ((k, v) ∷ d)

abbrev pub data_of : List String → Option Data
data_of [] = some []
data_of (k ∷ []) = none
data_of (k ∷ (v ∷ rest)) = add_entry k v (data_of rest)

pub decode_op-encode_op : (o : Op) → op_of (read_texts (encode_op o)) ≡ some o
unfolding encode_op read_texts
decode_op-encode_op o = ap op_of (
    read_texts-write_text o.kind (write_text o.key (write_text o.value []))
    ∙ ap (λ xs. o.kind ∷ xs)
        (read_texts-write_text o.key (write_text o.value [])
          ∙ ap (λ xs. o.key ∷ xs) (read_texts-write_text o.value [])))

pub decode_data-encode_data : (d : Data) → data_of (read_texts (encode_data d)) ≡ some d
unfolding encode_data read_texts
decode_data-encode_data [] = refl
decode_data-encode_data ((k, v) ∷ d) =
    ap data_of (
      read_texts-write_text k (write_text v (encode_data d))
      ∙ ap (λ xs. k ∷ xs) (read_texts-write_text v (encode_data d)))
    ∙ ap (add_entry k v) (decode_data-encode_data d)

abbrev pub plain : Codec
plain = record {
  encode_op = encode_op;
  decode_op = λ bytes. op_of (read_texts bytes);
  encode_data = encode_data;
  decode_data = λ bytes. data_of (read_texts bytes);
  decode_op-encode_op = decode_op-encode_op;
  decode_data-encode_data = decode_data-encode_data;
}
