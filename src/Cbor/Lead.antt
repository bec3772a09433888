-- ===== src/Cbor/Lead.antt =====
-- The head of an encoding, read back.
use passkey.Base.{
  ℕ, suc, ◌+◌, ◌*◌, ◌/◌, ◌%◌, ◌^◌, ◌<◌, ◌≡◌, ◌∙◌, List, ◌∷◌, ◌++◌, some, arith, ltb, length,
  take-append, drop-append, length-append, Bool-cases, inl, inr, ltb→lt, leb-true, ==_ne,
}
use passkey.Cbor.{Cbor, Read, read_bytes, read_uint, read_value, read_major, decode_cbor, ◌>>=◌}
use passkey.Cbor.Encode.{to_be, head}

pub read_bytes-append : (bs rest : List ℕ) → read_bytes (length bs) (bs ++ rest) ≡ some (bs, rest)
unfolding read_bytes
read_bytes-append bs rest = rw (
  leb-true (length bs) (length (bs ++ rest)) (omega (arith, length-append bs rest)),
  take-append bs rest,
  drop-append bs rest,
)

read_uint-1 : (n : ℕ) (rest : List ℕ) → n < 2 ^ 8 → read_uint 1 (to_be 1 n ++ rest) ≡ some (n, rest)
unfolding read_uint to_be
read_uint-1 n rest h = rw (leb-true 1 (suc (length rest)) (omega arith)) (ground arith)

read_uint-2 :
    (n : ℕ) (rest : List ℕ) → n < 2 ^ 16 → read_uint 2 (to_be 2 n ++ rest) ≡ some (n, rest)
unfolding read_uint to_be
read_uint-2 n rest h = rw (leb-true 2 (suc (suc (length rest))) (omega arith)) (ground arith)

read_uint-4 :
    (n : ℕ) (rest : List ℕ) → n < 2 ^ 32 → read_uint 4 (to_be 4 n ++ rest) ≡ some (n, rest)
unfolding read_uint to_be
read_uint-4 n rest h =
    rw (leb-true 4 (suc (suc (suc (suc (length rest))))) (omega arith)) (ground arith)

read_uint-8 :
    (n : ℕ) (rest : List ℕ) → n < 2 ^ 64 → read_uint 8 (to_be 8 n ++ rest) ≡ some (n, rest)
unfolding read_uint to_be
read_uint-8 n rest h =
    rw (leb-true 8 (suc (suc (suc (suc (suc (suc (suc (suc (length rest))))))))) (omega arith))
      (ground arith)

-- What follows a first byte with the major type `major` and the info `k`.
after_lead : ℕ → ℕ → ℕ → List ℕ → Read Cbor
after_lead levels major k input = do
  (value, rest) ← read_value k input
  read_major (decode_cbor levels) major value rest

decode-lead :
    (levels major k : ℕ) (input : List ℕ)
    → major < 7
    → k < 32
    → decode_cbor (suc levels) ((major * 32 + k) ∷ input) ≡ after_lead levels major k input
unfolding decode_cbor after_lead
decode-lead levels major k input hm hk =
    let quotient : (major * 32 + k) / 32 ≡ major = omega arith in
    let remainder : (major * 32 + k) % 32 ≡ k = omega arith in
    rw (quotient, remainder, ==_ne major 7 (omega arith))

decode-lead_read :
    (levels major k n : ℕ) (input rest : List ℕ)
    → major < 7
    → k < 32
    → read_value k input ≡ some (n, rest)
    → decode_cbor (suc levels) ((major * 32 + k) ∷ input)
      ≡ read_major (decode_cbor levels) major n rest
unfolding after_lead
decode-lead_read levels major k n input rest hm hk e = decode-lead levels major k input hm hk ∙ rw e

-- The head of an encoding gives the major type and the number.
pub decode-head :
    (levels major n : ℕ) (rest : List ℕ)
    → major < 7
    → n < 2 ^ 64
    → decode_cbor (suc levels) (head major n ++ rest) ≡ read_major (decode_cbor levels) major n rest
unfolding head read_value
decode-head levels major n rest hm hn = elim (Bool-cases (ltb n 24)) [
  | inl a ↦
      rw a (decode-lead_read levels major n n rest rest hm (omega (arith, ltb→lt n 24 a)) (rw a))
  | inr a ↦ rw a (elim (Bool-cases (ltb n (2 ^ 8))) [
    | inl b ↦ rw b (
        decode-lead_read levels major 24 n (to_be 1 n ++ rest) rest hm (omega arith)
          (read_uint-1 n rest (ltb→lt n (2 ^ 8) b)))
    | inr b ↦ rw b (elim (Bool-cases (ltb n (2 ^ 16))) [
      | inl c ↦ rw c (
          decode-lead_read levels major 25 n (to_be 2 n ++ rest) rest hm (omega arith)
            (read_uint-2 n rest (ltb→lt n (2 ^ 16) c)))
      | inr c ↦ rw c (elim (Bool-cases (ltb n (2 ^ 32))) [
        | inl d ↦ rw d (
            decode-lead_read levels major 26 n (to_be 4 n ++ rest) rest hm (omega arith)
              (read_uint-4 n rest (ltb→lt n (2 ^ 32) d)))
        | inr d ↦ rw d (
            decode-lead_read levels major 27 n (to_be 8 n ++ rest) rest hm (omega arith)
              (read_uint-8 n rest hn))
      ])
    ])
  ])
]
