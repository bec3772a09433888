-- ===== src/Auth/Base64.antt =====
-- Base64 as RFC 4648 defines it, and the reader of src/pam_auth.rs.
use passkey.Base.{
  ℕ, zero, suc, ◌+◌, ◌*◌, ◌/◌, ◌%◌, ◌^◌, ◌<◌, ◌≡◌, ◌≢◌, refl, ap, ◌∙◌, List, [], ◌∷◌, ◌++◌, none,
  some, All, arith, replicate, ==_ne,
}
use passkey.Base.Text.{Text, trim_end_matches, keep_unless}
use passkey.Auth.{sextet, base64_loop, base64}
use passkey.Auth.Sextets.{digit, encode, digit-ne, push, loop-nil, two, three, four, zero_bits}

abbrev pub IsByte : ℕ → Type 0
IsByte n = n < 256

loop-encode : (bs : List ℕ) (bits : ℕ) → All IsByte bs → base64_loop bits 0 (encode bs) ≡ some bs
unfolding encode
loop-encode [] bits h = loop-nil bits 0
loop-encode (a ∷ []) bits h =
    let same_value : a % 4 * 16 ≡ a % 4 * 16 + 0 = omega arith in
    ap (λ n. base64_loop bits 0 (digit (a / 4) ∷ digit n ∷ [])) same_value
    ∙ two bits a 0 [] h.0 (omega arith)
    ∙ ap (push a) (loop-nil _ 4)
loop-encode (a ∷ b ∷ []) bits h =
    two bits a (b / 16) (digit (b % 16 * 4) ∷ []) h.0 (omega (arith, h.1.0))
    ∙ ap (push a) (
        ap
          (λ n.
            base64_loop ((bits * 64 % 2 ^ 32 + a / 4) * 64 % 2 ^ 32 + (a % 4 * 16 + b / 16)) 4
              (digit n ∷ []))
          (zero_bits b)
        ∙ three (bits * 64 % 2 ^ 32 + a / 4) (a % 4) b 0 [] h.1.0 (omega arith)
        ∙ ap (push b) (loop-nil _ 2))
loop-encode (a ∷ b ∷ c ∷ rest) bits h =
    two bits a (b / 16) (digit (b % 16 * 4 + c / 64) ∷ digit (c % 64) ∷ encode rest) h.0
      (omega (arith, h.1.0))
    ∙ ap (push a) (
        three (bits * 64 % 2 ^ 32 + a / 4) (a % 4) b (c / 64) (digit (c % 64) ∷ encode rest) h.1.0
          (omega (arith, h.1.1.0))
        ∙ ap (push b) (
            four ((bits * 64 % 2 ^ 32 + a / 4) * 64 % 2 ^ 32 + (a % 4 * 16 + b / 16)) (b % 16) c
              (encode rest) h.1.1.0
            ∙ ap (push c) (
                loop-encode rest
                  ((((bits * 64 % 2 ^ 32 + a / 4) * 64 % 2 ^ 32 + (a % 4 * 16 + b / 16))
                          * 64
                          % 2 ^ 32
                        + (b % 16 * 4 + c / 64))
                      * 64
                      % 2 ^ 32
                    + c % 64)
                  h.1.1.1)))

-- No character of an encoding is one that the reader does not know.
pub encode-ne :
    (k : ℕ) (bs : List ℕ) → sextet k ≡ none → All IsByte bs → All (λ c. c ≢ k) (encode bs)
unfolding encode
encode-ne k [] n h = tt
encode-ne k (a ∷ []) n h =
    (digit-ne (a / 4) k (omega (arith, h.0)) n, (digit-ne (a % 4 * 16) k (omega arith) n, tt))
encode-ne k (a ∷ b ∷ []) n h = (
  digit-ne (a / 4) k (omega (arith, h.0)) n,
  (
    digit-ne (a % 4 * 16 + b / 16) k (omega (arith, h.1.0)) n,
    (digit-ne (b % 16 * 4) k (omega arith) n, tt),
  ),
)
encode-ne k (a ∷ b ∷ c ∷ rest) n h = (
  digit-ne (a / 4) k (omega (arith, h.0)) n,
  (
    digit-ne (a % 4 * 16 + b / 16) k (omega (arith, h.1.0)) n,
    (
      digit-ne (b % 16 * 4 + c / 64) k (omega (arith, h.1.1.0)) n,
      (digit-ne (c % 64) k (omega arith) n, encode-ne k rest n h.1.1.1),
    ),
  ),
)

trim-append :
    (sep n : ℕ) (s : Text) → All (λ c. c ≢ sep) s → trim_end_matches sep (s ++ replicate n sep) ≡ s
unfolding trim_end_matches
trim-append sep zero [] h = refl
trim-append sep (suc n) [] h = rw (trim-append sep n [] tt) (ground arith)
trim-append sep n (c ∷ s) h = rw (trim-append sep n s h.1) (keep s)
  where
    keep : (s : Text) → keep_unless sep c s ≡ c ∷ s
    keep [] = rw (==_ne c sep h.0) refl
    keep (d ∷ s) = refl

sextet_others : (sextet 61 ≡ none) × (sextet 44 ≡ none) × (sextet 58 ≡ none) × (sextet 10 ≡ none)
unfolding sextet
sextet_others = (refl, refl, refl, refl)

-- The bytes come back from their Base64 encoding, with the padding or without it.
pub base64-encode :
    (bs : List ℕ) (n : ℕ) → All IsByte bs → base64 (encode bs ++ replicate n 61) ≡ some bs
unfolding base64
base64-encode bs n h =
    rw (trim-append 61 n (encode bs) (encode-ne 61 bs (sextet_others.0) h)) (loop-encode bs 0 h)
