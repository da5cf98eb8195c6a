-- ===== src/Rlp/Lists.antt =====
-- Lists of any items, written by `encode_list` and read back by `decode_list`.
use ethereum_rust.Base.{
  ℕ, zero, suc, ◌+◌, ◌^◌, ◌<◌, ◌≡◌, refl, sym, ap, ◌∙◌, true, List, [], ◌∷◌, ◌++◌, ltb, leb, arith,
  length, lt→ltb, ==_refl, append-nil, All, drop, length-append, drop-append_length, append_assoc,
  drop-add,
}
use ethereum_rust.Base.Outcome.{ok}
use ethereum_rust.Rlp.Encode.{list_form, Encoder, finish, new, encode_each, encode_list}
use ethereum_rust.Rlp.Decode.{Decode, decode_each, decode_list}
use ethereum_rust.Rlp.Header.{at, list_form-Announces}
use ethereum_rust.Rlp.Reads.{
  Reads, fits, add_usize_lem, skip_lem, payload_place, form_length, list_form_pos,
}
use ethereum_rust.Rlp.Words.{Writes, read_back}

module _ {A : Type 0} (form : A → List ℕ) where
  -- The items' forms, one after the other.
  abbrev pub forms : List A → List ℕ
  forms [] = []
  forms (x ∷ xs) = form x ++ forms xs

-- The form is read as the item, and is not empty.
abbrev pub Readable : {A : Type 0} → Decode A → (A → List ℕ) → A → Type 0
Readable decode form x = (0 < length (form x)) × Reads decode (form x) x

module _ {A : Type 0} (decode : Decode A) (form : A → List ℕ) where
  pub decode_each-forms :
      (xs : List A) (fuel : ℕ) (bytes rest : List ℕ) (p q : ℕ)
      → All (Readable decode form) xs
      → length xs < fuel
      → length bytes < 2 ^ 64
      → drop p bytes ≡ forms form xs ++ rest
      → q ≡ p + length (forms form xs)
      → decode_each fuel decode q (at bytes p) ≡ ok xs (at bytes q)
  unfolding decode_each
  decode_each-forms xs zero bytes rest p q all f h e eq = absurd (omega arith)
  decode_each-forms [] (suc fuel) bytes rest p q all f h e eq =
      let z : p ≡ q = omega arith in ground (arith, z)
  decode_each-forms (x ∷ xs) (suc fuel) bytes rest p q all f h e eq =
      let now = all.0.1 bytes (forms form xs ++ rest) p h (e ∙ append_assoc (form x) _ rest) in
      let place : drop (p + length (form x)) bytes ≡ forms form xs ++ rest =
        drop-add p (length (form x)) bytes
        ∙ ap (drop (length (form x))) (e ∙ append_assoc (form x) _ rest)
        ∙ drop-append_length (form x) _ in
      let n = length-append (form x) (forms form xs) in
      let rec =
        decode_each-forms xs fuel bytes rest (p + length (form x)) q all.1 (omega arith) h place
          (omega (arith, n)) in
      let more : ltb p q ≡ true = lt→ltb p q (omega (arith, n, all.0.0)) in
      ground (arith, now, rec, more)

  pub decode_list-Reads :
      (xs : List A) (fuel : ℕ)
      → All (Readable decode form) xs
      → length xs < fuel
      → length (forms form xs) < 2 ^ 32
      → Reads (decode_list fuel decode) (list_form (forms form xs)) xs
  unfolding decode_list
  decode_list-Reads xs fuel all f small bytes rest p h e =
      let payload = forms form xs in
      let a = list_form-Announces bytes payload rest p small e in
      let room = fits bytes (list_form payload) rest p (list_form_pos payload) e in
      let n = form_length a in
      let q = p + length a.head in
      let s = skip_lem bytes p (length a.head) (omega (arith, room, n)) in
      let t = add_usize_lem q (length payload) (at bytes q) (omega (arith, room, n)) in
      let items =
        decode_each-forms xs fuel bytes rest q (q + length payload) all f h (payload_place rest a e)
          refl in
      let here : q + length payload ≡ p + length (list_form payload) = omega (arith, n) in
      let ends : leb (q + length payload) (length bytes) ≡ true = ground (arith, room, n) in
      ground (arith, a.read, s, t, items, here, ends, ==_refl (q + length payload))

-- `encode_list` appends the header and the items' forms.
module _ {A : Type 0} (encode : A → Encoder → Encoder) (form : A → List ℕ) where
  encode_each-forms :
      (xs : List A) (e : Encoder)
      → ((x : A) → Writes (encode x) (form x))
      → finish (encode_each encode xs e) ≡ finish e ++ forms form xs
  unfolding encode_each
  encode_each-forms [] e w = sym (append-nil (finish e))
  encode_each-forms (x ∷ xs) e w =
      encode_each-forms xs (encode x e) w
      ∙ ap (λ b. b ++ forms form xs) (w x e)
      ∙ append_assoc (finish e) (form x) (forms form xs)

  encode_list-Writes :
      (xs : List A)
      → ((x : A) → Writes (encode x) (form x))
      → Writes (encode_list encode xs) (list_form (forms form xs))
  unfolding encode_list
  encode_list-Writes xs w e = ap (λ b. finish e ++ list_form b) (encode_each-forms xs new w)

-- A list of any items that was appended to any buffer is read back, and the reader stops at its end,
-- if the writer of the items appends forms of at least one byte that the reader of the items reads.
-- The payload is shorter than 4 GiB, the input fits the address space, and the fuel exceeds the
-- number of the items.
pub decode_list-encode_list :
    {A : Type 0} (encode : A → Encoder → Encoder) (decode : Decode A) (form : A → List ℕ)
    (xs : List A) (fuel : ℕ) (rest : List ℕ) (e : Encoder)
    → ((x : A) → Writes (encode x) (form x))
    → All (Readable decode form) xs
    → length xs < fuel
    → length (forms form xs) < 2 ^ 32
    → length (finish (encode_list encode xs e) ++ rest) < 2 ^ 64
    → decode_list fuel decode (at (finish (encode_list encode xs e) ++ rest) (length (finish e)))
      ≡ ok xs (
          at (finish (encode_list encode xs e) ++ rest) (length (finish (encode_list encode xs e))))
decode_list-encode_list encode decode form xs fuel rest e w all f small h =
    read_back (encode_list encode xs) (decode_list fuel decode) (list_form (forms form xs)) xs
      (encode_list-Writes encode form xs w) (decode_list-Reads decode form xs fuel all f small) e
      rest h
