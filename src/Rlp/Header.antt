-- ===== src/Rlp/Header.antt =====
-- What the reader makes of the headers that the writer puts in front of a payload.
use ethereum_rust.Base.{
  ℕ, ◌+◌, ◌-◌, ◌^◌, ◌≤◌, ◌<◌, ◌≡◌, refl, ap, ◌∙◌, inl, inr, Bool, true, false, List, [], ◌∷◌, ◌++◌,
  ltb, arith, length, take, drop, length-append, take-append_length, drop-add, length_of_drop,
  get_elem?-drop, append_assoc, Bool-cases,
}
use ethereum_rust.Base.Outcome.{ok}
use ethereum_rust.Rlp.Encode.{encode_length, long_form, string_form, list_form}
use ethereum_rust.Rlp.Decode.{Decoder, decode_header, header, long_header, slice, index}
use ethereum_rust.Rlp.Length.{decode_length-encode_length, length-encode_length}

-- A decoder over `bytes` that stands at `p`.
abbrev pub at : List ℕ → ℕ → Decoder
at bytes p = record { bytes = bytes; position = p }

pub slice_lem :
    (bytes : List ℕ) (p i j : ℕ)
    → i ≤ j
    → j ≤ length bytes
    → slice i j (at bytes p) ≡ ok (take (j - i) (drop i bytes)) (at bytes p)
unfolding slice
slice_lem bytes p i j h k = ground arith

-- A slice whose content is at hand in front of a rest.
pub slice-drop :
    (bytes xs ys : List ℕ) (p i : ℕ)
    → i + length xs ≤ length bytes
    → drop i bytes ≡ xs ++ ys
    → slice i (i + length xs) (at bytes p) ≡ ok xs (at bytes p)
slice-drop bytes xs ys p i k e =
    slice_lem bytes p i (i + length xs) (omega arith) k ∙ ap (λ z. ok z (at bytes p)) taken
  where
    taken : take (i + length xs - i) (drop i bytes) ≡ xs
    taken =
        let n : i + length xs - i ≡ length xs = omega arith in rw (n, e) (take-append_length xs ys)

pub decode_header-header :
    (bytes rest : List ℕ) (p prefix : ℕ)
    → drop p bytes ≡ prefix ∷ rest
    → decode_header (at bytes p) ≡ header prefix (at bytes p)
unfolding decode_header index
decode_header-header bytes rest p prefix e =
    ground (arith, length_of_drop p bytes e, get_elem?-drop p bytes e)

long_header-long_form :
    (bytes payload rest : List ℕ) (p base : ℕ) (is_data : Bool)
    → 0 < length payload
    → length payload < 2 ^ 32
    → drop p bytes ≡ long_form base payload ++ rest
    → long_header (length (encode_length (length payload))) is_data (at bytes p)
      ≡ ok (1 + length (encode_length (length payload)), length payload, is_data) (at bytes p)
unfolding long_header long_form
long_header-long_form bytes payload rest p base is_data h k e =
    let lb = encode_length (length payload) in
    let fits : p + 1 + length lb ≤ length bytes = omega (
      arith,
      length_of_drop p bytes e,
      length-append (lb ++ payload) rest,
      length-append lb payload,
    ) in
    let tail : drop (p + 1) bytes ≡ lb ++ (payload ++ rest) =
      drop-add p 1 bytes ∙ ap (drop 1) e ∙ append_assoc lb payload rest in
    ground (
      arith,
      fits,
      slice-drop bytes lb (payload ++ rest) p (p + 1) fits tail,
      decode_length-encode_length (length payload) (at bytes p) h k,
    )

-- `form` is a header and the payload, and the reader finds the payload's place and length.
pub record Announces (form payload : List ℕ) (is_data : Bool) (bytes : List ℕ) (p : ℕ)
    : Type 0 where
  pub head : List ℕ
  pub split : form ≡ head ++ payload
  pub read : decode_header (at bytes p) ≡ ok (length head, length payload, is_data) (at bytes p)

short_string : (len : ℕ) (d : Decoder) → len < 56 → header (0x80 + len) d ≡ ok (1, len, true) d
unfolding header
short_string len d h = ground arith

short_list : (len : ℕ) (d : Decoder) → len < 56 → header (0xc0 + len) d ≡ ok (1, len, false) d
unfolding header
short_list len d h = ground arith

long_string : (n : ℕ) (d : Decoder) → 1 ≤ n → n ≤ 8 → header (0xb7 + n) d ≡ long_header n true d
unfolding header
long_string n d h k = let e : 0xb7 + n - 0xb7 ≡ n = omega arith in ground (arith, e)

long_list : (n : ℕ) (d : Decoder) → 1 ≤ n → n ≤ 8 → header (0xf7 + n) d ≡ long_header n false d
unfolding header
long_list n d h k = let e : 0xf7 + n - 0xf7 ≡ n = omega arith in ground (arith, e)

module _ (bytes payload rest : List ℕ) (p : ℕ) (small : length payload < 2 ^ 32) where
  announced_long :
      (base : ℕ) (is_data : Bool)
      → 56 ≤ length payload
      → ((n : ℕ) (d : Decoder) → 1 ≤ n → n ≤ 8 → header (base + n) d ≡ long_header n is_data d)
      → drop p bytes ≡ long_form base payload ++ rest
      → Announces (long_form base payload) payload is_data bytes p
  unfolding long_form
  announced_long base is_data long reads e =
      let lb = encode_length (length payload) in
      let n = length-encode_length (length payload) in
      record {
        head = (base + length lb) ∷ lb;
        split = refl;
        read =
            decode_header-header bytes ((lb ++ payload) ++ rest) p (base + length lb) e
            ∙ reads (length lb) (at bytes p) n.0 (omega (arith, n.1))
            ∙ unfold long_form in
              long_header-long_form bytes payload rest p base is_data (omega arith) small e
              ∙ ap (λ k. ok (k, length payload, is_data) (at bytes p)) (omega arith);
      }

  pub list_form-Announces :
      drop p bytes ≡ list_form payload ++ rest → Announces (list_form payload) payload false bytes p
  unfolding list_form
  list_form-Announces e = elim (Bool-cases (ltb (length payload) 56)) [
    | inl short ↦ rw short (record {
      head = (0xc0 + length payload) ∷ [];
      split = refl;
      read =
          decode_header-header bytes (payload ++ rest) p (0xc0 + length payload) (rw short at e)
          ∙ short_list (length payload) (at bytes p) (ground arith);
    })
    | inr long ↦ rw long (announced_long 0xf7 false (ground arith) long_list (rw long at e))
  ]

pub string_form-Announces :
    (bytes payload rest : List ℕ) (p : ℕ)
    → length payload < 2 ^ 32
    → drop p bytes ≡ string_form payload ++ rest
    → Announces (string_form payload) payload true bytes p
unfolding string_form header
string_form-Announces bytes [] rest p small e = record {
  head = 0x80 ∷ [];
  split = refl;
  read = decode_header-header bytes rest p 0x80 e;
}
string_form-Announces bytes (b ∷ []) rest p small e = elim (Bool-cases (ltb b 0x80)) [
  | inl low ↦ rw low (record {
    head = [];
    split = refl;
    read = decode_header-header bytes rest p b (rw low at e) ∙ ground arith;
  })
  | inr high ↦ rw high (record {
    head = 0x81 ∷ [];
    split = refl;
    read = decode_header-header bytes (b ∷ rest) p 0x81 (rw high at e);
  })
]
string_form-Announces bytes (b ∷ c ∷ bs) rest p small e =
    elim (Bool-cases (ltb (length (b ∷ c ∷ bs)) 56)) [
      | inl short ↦ rw short (record {
        head = (0x80 + length (b ∷ c ∷ bs)) ∷ [];
        split = refl;
        read =
            decode_header-header bytes (b ∷ c ∷ bs ++ rest) p _ (rw short at e)
            ∙ short_string (length (b ∷ c ∷ bs)) (at bytes p) (ground arith);
      })
      | inr long ↦ rw long (
          announced_long bytes (b ∷ c ∷ bs) rest p small 0xb7 true (ground arith) long_string
            (rw long at e))
    ]
