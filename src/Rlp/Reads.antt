-- ===== src/Rlp/Reads.antt =====
-- A reader that consumes exactly what a writer appended, wherever it stands in the input.
use ethereum_rust.Base.{
  ℕ, ◌+◌, ◌^◌, ◌≤◌, ◌<◌, ◌≡◌, ap, ◌∙◌, Bool, List, [], ◌∷◌, ◌++◌, arith, length, drop,
  length-append, drop-append_length, drop-add, length_of_drop, append_assoc, lt→ltb,
}
use ethereum_rust.Base.Outcome.{ok}
use ethereum_rust.Rlp.Encode.{string_form, list_form}
use ethereum_rust.Rlp.Decode.{Decoder, Decode, add_usize, skip, take_bytes, decode_bytes}
use ethereum_rust.Rlp.Header.{at, slice-drop, Announces, string_form-Announces}

abbrev pub Reads : {A : Type 0} → Decode A → List ℕ → A → Type 0
Reads decode form x =
    (bytes rest : List ℕ) (p : ℕ)
    → length bytes < 2 ^ 64
    → drop p bytes ≡ form ++ rest
    → decode (at bytes p) ≡ ok x (at bytes (p + length form))

pub fits :
    (bytes form rest : List ℕ) (p : ℕ)
    → 0 < length form
    → drop p bytes ≡ form ++ rest
    → p + length form ≤ length bytes
fits bytes [] rest p h e = absurd (omega arith)
fits bytes (x ∷ form) rest p h e = omega (arith, length_of_drop p bytes e, length-append form rest)

pub add_usize_lem : (a b : ℕ) (d : Decoder) → a + b < 2 ^ 64 → add_usize a b d ≡ ok (a + b) d
unfolding add_usize
add_usize_lem a b d h = rw (lt→ltb _ _ h)

pub skip_lem :
    (bytes : List ℕ) (p n : ℕ) → p + n < 2 ^ 64 → skip n (at bytes p) ≡ ok tt (at bytes (p + n))
unfolding skip
skip_lem bytes p n h = ground (arith, add_usize_lem p n (at bytes p) h)

take_bytes_lem :
    (bytes xs rest : List ℕ) (p : ℕ)
    → length bytes < 2 ^ 64
    → p + length xs ≤ length bytes
    → drop p bytes ≡ xs ++ rest
    → take_bytes (length xs) (at bytes p) ≡ ok xs (at bytes (p + length xs))
unfolding take_bytes
take_bytes_lem bytes xs rest p h k e =
    ground (arith, slice-drop bytes xs rest p p k e, add_usize_lem p (length xs) (at bytes p))

-- Past the header of a form stands its payload.
pub payload_place :
    {form payload bytes : List ℕ} (rest : List ℕ) {is_data : Bool} {p : ℕ}
    (a : Announces form payload is_data bytes p)
    → drop p bytes ≡ form ++ rest
    → drop (p + length a.head) bytes ≡ payload ++ rest
payload_place {form} {payload} {bytes} rest {is_data} {p} a e =
    drop-add p (length a.head) bytes
    ∙ ap (drop (length a.head)) (e ∙ ap (λ f. f ++ rest) a.split ∙ append_assoc a.head payload rest)
    ∙ drop-append_length a.head (payload ++ rest)

pub form_length :
    {form payload bytes : List ℕ} {is_data : Bool} {p : ℕ}
    (a : Announces form payload is_data bytes p)
    → length form ≡ length a.head + length payload
form_length {form} {payload} a = ap length a.split ∙ length-append a.head payload

pub string_form_pos : (payload : List ℕ) → 0 < length (string_form payload)
unfolding string_form
string_form_pos [] = omega arith
string_form_pos (b ∷ []) = ground arith
string_form_pos (b ∷ c ∷ bs) = ground arith

pub list_form_pos : (payload : List ℕ) → 0 < length (list_form payload)
unfolding list_form
list_form_pos payload = ground arith

pub decode_bytes-Reads :
    (payload : List ℕ) → length payload < 2 ^ 32 → Reads decode_bytes (string_form payload) payload
unfolding decode_bytes
decode_bytes-Reads payload small bytes rest p h e =
    let a = string_form-Announces bytes payload rest p small e in
    let room = fits bytes (string_form payload) rest p (string_form_pos payload) e in
    let n = form_length a in
    let q = p + length a.head in
    let s = skip_lem bytes p (length a.head) (omega (arith, room, n)) in
    let t =
      take_bytes_lem bytes payload rest q h (omega (arith, room, n)) (payload_place rest a e) in
    let here : q + length payload ≡ p + length (string_form payload) = omega (arith, n) in
    ground (arith, a.read, s, t, here)
