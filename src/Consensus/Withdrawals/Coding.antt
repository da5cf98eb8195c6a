-- ===== src/Consensus/Withdrawals/Coding.antt =====
-- crates/consensus/src/eip7002.rs: the encoding of a request, and the precompile that makes one.
use ethereum_rust.Base.{
  ℕ, ◌^◌, ◌<◌, ◌≡◌, ◌≢◌, ◌⊎◌, inl, inr, ◌==◌, Bool-cases, refl, ap, subst, List, [], ◌∷◌, ◌++◌,
  arith, le→ltb, ==_iff, length, take, drop, append_assoc, length-append, take-append_length,
  drop-append_length, length-take, length-drop,
}
use ethereum_rust.Base.Bytes.{to_be_bytes, from_be_bytes-to_be_bytes, length-to_be_bytes}
use ethereum_rust.Base.Result.{ok, err}
use ethereum_rust.Consensus.Withdrawals.{invalid_pubkey, request, encode, decode, execute}

take-exactly : (n : ℕ) (xs ys : List ℕ) → length xs ≡ n → take n (xs ++ ys) ≡ xs
take-exactly n xs ys h = subst (λ z. take z (xs ++ ys) ≡ xs) h (take-append_length xs ys)

drop-exactly : (n : ℕ) (xs ys : List ℕ) → length xs ≡ n → drop n (xs ++ ys) ≡ ys
drop-exactly n xs ys h = subst (λ z. drop z (xs ++ ys) ≡ ys) h (drop-append_length xs ys)

take-all : (xs : List ℕ) → take (length xs) xs ≡ xs
take-all [] = refl
take-all (x ∷ xs) = ap (◌∷◌ x) (take-all xs)

-- An address of 20 bytes, a key of 48 bytes and an amount below 2^256 are read back from their encoding, which has
-- 100 bytes.
pub decode-encode :
    (address key : List ℕ) (amount : ℕ)
    → length address ≡ 20
    → length key ≡ 48
    → amount < 256 ^ 32
    → (length (encode (request address key amount)) ≡ 100)
      × (decode (encode (request address key amount)) ≡ ok (request address key amount))
unfolding encode decode
decode-encode address key amount h k l =
    let t = to_be_bytes 32 amount in
    let len : length t ≡ 32 = length-to_be_bytes 32 amount in
    let both : length (address ++ key) ≡ 68 = omega (arith, length-append address key, h, k) in
    let all : length (address ++ key ++ t) ≡ 100 =
      omega (arith, length-append (address ++ key) t, both, len) in
    (
      all,
      rw
          (
            le→ltb (length (address ++ key ++ t)) 100 (omega (arith, all)),
            drop-exactly 68 (address ++ key) t both,
            append_assoc address key t,
            take-exactly 20 address (key ++ t) h,
            drop-exactly 20 address (key ++ t) h,
            take-exactly 48 key t k,
            subst (λ z. take z t ≡ t) len (take-all t),
            from_be_bytes-to_be_bytes 32 amount l,
          )
          refl,
    )

-- The precompile turns 68 bytes, an address and a key, and an amount below 2^256 into the encoding of that request,
-- and refuses any other length.
pub decode-execute :
    (input : List ℕ) (value : ℕ)
    → value < 256 ^ 32
    → ((length input ≡ 68)
        × ((out : List ℕ) × ((execute input value ≡ ok out)
              × (decode out ≡ ok (request (take 20 input) (take 48 (drop 20 input)) value)))))
      ⊎ ((length input ≢ 68) × (execute input value ≡ err invalid_pubkey))
unfolding execute
decode-execute input value l = elim (Bool-cases (length input == 68)) [
  | inl q ↦
      let h : length input ≡ 68 = (==_iff (length input) 68).0 q in
      inl (
        h,
        (
          encode (request (take 20 input) (take 48 (drop 20 input)) value),
          (
            rw q refl,
            (decode-encode (take 20 input) (take 48 (drop 20 input)) value
                (omega (arith, length-take 20 input, h))
                (omega (arith, length-take 48 (drop 20 input), length-drop 20 input, h)) l).1,
          ),
        ),
      )
  | inr q ↦ inr (λ h. absurd (cc (q, (==_iff (length input) 68).1 h)), rw q refl)
]
