-- ===== src/Rlp/ItemRoundTrip.antt =====
-- Trees of byte strings, written and read back by `Decode for RlpItem`.
use ethereum_rust.Base.{
  ℕ, zero, suc, ◌+◌, ◌^◌, ◌≤◌, ◌<◌, ◌≡◌, refl, sym, ap, ◌∙◌, true, false, List, [], ◌∷◌, ◌++◌, ltb,
  leb, arith, length, append-nil, All, drop, append_assoc, length_of_drop, get_elem?-drop,
  Bool-cases, inl, inr,
}
use ethereum_rust.Base.Outcome.{ok}
use ethereum_rust.Rlp.Encode.{
  encode_length, long_form, string_form, list_form, Encoder, finish, new,
}
use ethereum_rust.Rlp.Decode.{is_list, index}
use ethereum_rust.Rlp.Length.{length-encode_length}
use ethereum_rust.Rlp.Header.{at}
use ethereum_rust.Rlp.Reads.{Reads, decode_bytes-Reads, string_form_pos, list_form_pos}
use ethereum_rust.Rlp.Words.{Writes, encode_bytes-Writes, read_back}
use ethereum_rust.Rlp.Lists.{forms, Readable, decode_list-Reads}
use ethereum_rust.Rlp.Item.{
  RlpItem, Items, string, list, nil, cons, from_list, encode_item, encode_items, decode_rlp_item,
}

unfoldable pub to_list : Items → List RlpItem
to_list nil = []
to_list (cons x xs) = x ∷ to_list xs

from_list-to_list : (xs : Items) → from_list (to_list xs) ≡ xs
unfolding from_list to_list
from_list-to_list nil = refl
from_list-to_list (cons x xs) = ap (cons x) (from_list-to_list xs)

-- What the writer appends for an item, and for the items of a list.
unfoldable mutual
  pub item_form : RlpItem → List ℕ
  item_form (string bytes) = string_form bytes
  item_form (list xs) = list_form (items_form xs)

  pub items_form : Items → List ℕ
  items_form nil = []
  items_form (cons x xs) = item_form x ++ items_form xs

-- Fuel for the depth of the tree and the length of its lists.
unfoldable mutual
  pub fuel_of : RlpItem → ℕ
  fuel_of (string bytes) = 1
  fuel_of (list xs) = suc (fuel_of_items xs)

  pub fuel_of_items : Items → ℕ
  fuel_of_items nil = 1
  fuel_of_items (cons x xs) = fuel_of x + suc (fuel_of_items xs)

-- No string and no list's payload holds 4 GiB or more.
abbrev mutual
  pub IsSmall : RlpItem → Type 0
  IsSmall (string bytes) = length bytes < 2 ^ 32
  IsSmall (list xs) = AreSmall xs × (length (items_form xs) < 2 ^ 32)

  pub AreSmall : Items → Type 0
  AreSmall nil = Unit {0}
  AreSmall (cons x xs) = IsSmall x × AreSmall xs

is_list_lem :
    (bytes rest : List ℕ) (p b : ℕ)
    → drop p bytes ≡ b ∷ rest
    → is_list (at bytes p) ≡ ok (leb 0xc0 b) (at bytes p)
unfolding is_list index
is_list_lem bytes rest p b e = ground (arith, length_of_drop p bytes e, get_elem?-drop p bytes e)

is_list-string_form :
    (payload bytes rest : List ℕ) (p : ℕ)
    → drop p bytes ≡ string_form payload ++ rest
    → is_list (at bytes p) ≡ ok false (at bytes p)
unfolding string_form long_form
is_list-string_form [] bytes rest p e = is_list_lem bytes rest p 0x80 e
is_list-string_form (b ∷ []) bytes rest p e = elim (Bool-cases (ltb b 0x80)) [
  | inl low ↦ ground (arith, is_list_lem bytes rest p b (rw low at e))
  | inr high ↦ is_list_lem bytes (b ∷ rest) p 0x81 (rw high at e)
]
is_list-string_form (b ∷ c ∷ bs) bytes rest p e =
    let bits = b ∷ c ∷ bs in
    let lb = encode_length (length bits) in
    elim (Bool-cases (ltb (length bits) 56)) [
      | inl short ↦
          ground (arith, is_list_lem bytes (bits ++ rest) p (0x80 + length bits) (rw short at e))
      | inr long ↦ ground (
        arith,
        length-encode_length (length bits),
        is_list_lem bytes ((lb ++ bits) ++ rest) p (0xb7 + length lb) (rw long at e),
      )
    ]

is_list-list_form :
    (payload bytes rest : List ℕ) (p : ℕ)
    → drop p bytes ≡ list_form payload ++ rest
    → is_list (at bytes p) ≡ ok true (at bytes p)
unfolding list_form long_form
is_list-list_form payload bytes rest p e =
    let lb = encode_length (length payload) in
    elim (Bool-cases (ltb (length payload) 56)) [
      | inl short ↦
          ground
            (arith, is_list_lem bytes (payload ++ rest) p (0xc0 + length payload) (rw short at e))
      | inr long ↦
          ground
            (arith, is_list_lem bytes ((lb ++ payload) ++ rest) p (0xf7 + length lb) (rw long at e))
    ]

items_form-forms : (xs : Items) → items_form xs ≡ forms item_form (to_list xs)
unfolding item_form to_list
items_form-forms nil = refl
items_form-forms (cons x xs) = ap (◌++◌ (item_form x)) (items_form-forms xs)

item_form_pos : (x : RlpItem) → 0 < length (item_form x)
unfolding item_form
item_form_pos (string bytes) = string_form_pos bytes
item_form_pos (list xs) = list_form_pos (items_form xs)

string-Reads :
    (payload : List ℕ) (fuel : ℕ)
    → length payload < 2 ^ 32
    → Reads (decode_rlp_item (suc fuel)) (string_form payload) (string payload)
unfolding decode_rlp_item
string-Reads payload fuel small bytes rest p h e = ground (
  arith,
  is_list-string_form payload bytes rest p e,
  decode_bytes-Reads payload small bytes rest p h e,
)

list-Reads :
    (xs : Items) (fuel : ℕ)
    → length (items_form xs) < 2 ^ 32
    → All (Readable (decode_rlp_item fuel) item_form) (to_list xs)
    → length (to_list xs) < fuel
    → Reads (decode_rlp_item (suc fuel)) (list_form (items_form xs)) (list xs)
unfolding decode_rlp_item
list-Reads xs fuel small all enough bytes rest p h e =
    let n = items_form-forms xs in
    ground (
      arith,
      is_list-list_form (items_form xs) bytes rest p e,
      decode_list-Reads (decode_rlp_item fuel) item_form (to_list xs) fuel all enough
          (rw n at small) bytes rest p h (rw n at e),
      n,
      from_list-to_list xs,
    )

length-to_list : (xs : Items) → length (to_list xs) < fuel_of_items xs
unfolding fuel_of to_list
length-to_list nil = omega arith
length-to_list (cons x xs) = omega (arith, length-to_list xs)

mutual
  unfolding item_form fuel_of to_list

  item-Reads :
      (x : RlpItem) (fuel : ℕ)
      → IsSmall x
      → fuel_of x ≤ fuel
      → Reads (decode_rlp_item fuel) (item_form x) x
  item-Reads (string bytes) zero s f = absurd (omega arith)
  item-Reads (string bytes) (suc fuel) s f = string-Reads bytes fuel s
  item-Reads (list xs) zero s f = absurd (omega arith)
  item-Reads (list xs) (suc fuel) s f =
      list-Reads xs fuel s.1 (items-Readable xs fuel s.0 (omega arith))
        (omega (arith, length-to_list xs))

  items-Readable :
      (xs : Items) (fuel : ℕ)
      → AreSmall xs
      → fuel_of_items xs ≤ fuel
      → All (Readable (decode_rlp_item fuel) item_form) (to_list xs)
  items-Readable nil fuel s f = tt
  items-Readable (cons x xs) fuel s f = (
    (item_form_pos x, item-Reads x fuel s.0 (omega arith)),
    items-Readable xs fuel s.1 (omega arith),
  )

mutual
  unfolding encode_item item_form

  item-Writes : (x : RlpItem) → Writes (encode_item x) (item_form x)
  item-Writes (string bytes) e = encode_bytes-Writes bytes e
  item-Writes (list xs) e = ap (λ b. finish e ++ list_form b) (items-Writes xs new)

  items-Writes : (xs : Items) → Writes (encode_items xs) (items_form xs)
  items-Writes nil e = sym (append-nil (finish e))
  items-Writes (cons x xs) e =
      items-Writes xs (encode_item x e)
      ∙ ap (λ b. b ++ items_form xs) (item-Writes x e)
      ∙ append_assoc (finish e) (item_form x) (items_form xs)

-- A tree of byte strings that was appended to any buffer is read back, and the reader stops at its
-- end. Its strings and the payloads of its lists are shorter than 4 GiB, the input fits the address
-- space, and the fuel is at least the size of the tree.
pub decode_rlp_item-encode_item :
    (x : RlpItem) (fuel : ℕ) (rest : List ℕ) (e : Encoder)
    → IsSmall x
    → fuel_of x ≤ fuel
    → length (finish (encode_item x e) ++ rest) < 2 ^ 64
    → decode_rlp_item fuel (at (finish (encode_item x e) ++ rest) (length (finish e)))
      ≡ ok x (at (finish (encode_item x e) ++ rest) (length (finish (encode_item x e))))
decode_rlp_item-encode_item x fuel rest e s f h =
    read_back (encode_item x) (decode_rlp_item fuel) (item_form x) x (item-Writes x)
      (item-Reads x fuel s f) e rest h
