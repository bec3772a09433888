-- ===== src/Auth/Sextets.antt =====
-- The characters of Base64, and the groups of the reader of src/pam_auth.rs.
use passkey.Base.{
  ℕ, ◌+◌, ◌-◌, ◌*◌, ◌/◌, ◌%◌, ◌^◌, ◌<◌, ◌≡◌, ◌≢◌, refl, ap, ◌∙◌, true, false, List, [], ◌∷◌, Option,
  none, some, if◌then◌else◌, ltb, leb, ◌==◌, arith,
}
use passkey.Base.Text.{Text}
use passkey.Auth.{sextet, base64_loop}

-- The character of a value below 64.
unfoldable pub digit : ℕ → ℕ
digit v =
    if ltb v 26
    then v + 65
    else if ltb v 52
    then v - 26 + 97
    else if ltb v 62
    then v - 52 + 48
    else if v == 62
    then 43
    else 47

-- The characters of an encoding, without the padding.
unfoldable pub encode : List ℕ → Text
unfolding digit
encode [] = []
encode (a ∷ []) = digit (a / 4) ∷ digit (a % 4 * 16) ∷ []
encode (a ∷ b ∷ []) = digit (a / 4) ∷ digit (a % 4 * 16 + b / 16) ∷ digit (b % 16 * 4) ∷ []
encode (a ∷ b ∷ c ∷ rest) =
    digit (a / 4)
    ∷ digit (a % 4 * 16 + b / 16)
    ∷ digit (b % 16 * 4 + c / 64)
    ∷ digit (c % 64)
    ∷ encode rest

sextet-digit : (v : ℕ) → v < 64 → sextet (digit v) ≡ some v
unfolding sextet digit
sextet-digit v h = ground arith

pub digit-ne : (v k : ℕ) → v < 64 → sextet k ≡ none → digit v ≢ k
digit-ne v k h n e = cc (ap sextet e, sextet-digit v h, n)

-- A byte before the bytes that follow.
abbrev pub push : ℕ → Option (List ℕ) → Option (List ℕ)
push byte none = none
push byte (some out) = some (byte ∷ out)

loop-wait :
    (bits count v : ℕ) (cs : List ℕ)
    → v < 64
    → leb 8 (count + 6) ≡ false
    → base64_loop bits count (digit v ∷ cs) ≡ base64_loop (bits * 64 % 2 ^ 32 + v) (count + 6) cs
unfolding base64_loop
loop-wait bits count v cs h k = rw (sextet-digit v h, base64_loop) (rw k)

loop-push :
    (bits count v : ℕ) (cs : List ℕ)
    → v < 64
    → leb 8 (count + 6) ≡ true
    → base64_loop bits count (digit v ∷ cs)
      ≡ push
          ((bits * 64 % 2 ^ 32 + v) / 2 ^ (count + 6 - 8) % 256)
          (base64_loop (bits * 64 % 2 ^ 32 + v) (count + 6 - 8) cs)
unfolding base64_loop
loop-push bits count v cs h k = rw (sextet-digit v h, base64_loop) (rw k refl)

-- The bytes that leave the loop: the bits that it has kept from before do not matter.
first_byte :
    (bits a b : ℕ)
    → a < 256
    → b < 16
    → ((bits * 64 % 2 ^ 32 + a / 4) * 64 % 2 ^ 32 + (a % 4 * 16 + b)) / 2 ^ 4 % 256 ≡ a
first_byte bits a b h k = omega arith

second_byte :
    (bits a b c : ℕ)
    → b < 256
    → c < 4
    → ((bits * 64 % 2 ^ 32 + (a * 16 + b / 16)) * 64 % 2 ^ 32 + (b % 16 * 4 + c)) / 2 ^ 2 % 256 ≡ b
second_byte bits a b c h k = omega arith

third_byte :
    (bits b c : ℕ)
    → c < 256
    → ((bits * 64 % 2 ^ 32 + (b * 4 + c / 64)) * 64 % 2 ^ 32 + c % 64) / 2 ^ 0 % 256 ≡ c
third_byte bits b c h = omega arith

pub loop-nil : (bits count : ℕ) → base64_loop bits count [] ≡ some []
unfolding base64_loop
loop-nil bits count = refl

-- Two, three and four characters from the start of a group on.
pub two :
    (bits a b : ℕ) (cs : List ℕ)
    → a < 256
    → b < 16
    → base64_loop bits 0 (digit (a / 4) ∷ digit (a % 4 * 16 + b) ∷ cs)
      ≡ push a (base64_loop ((bits * 64 % 2 ^ 32 + a / 4) * 64 % 2 ^ 32 + (a % 4 * 16 + b)) 4 cs)
two bits a b cs h k =
    loop-wait bits 0 (a / 4) (digit (a % 4 * 16 + b) ∷ cs) (omega arith) refl
    ∙ loop-push (bits * 64 % 2 ^ 32 + a / 4) 6 (a % 4 * 16 + b) cs (omega arith) refl
    ∙ ap
        (λ n.
          push n (base64_loop ((bits * 64 % 2 ^ 32 + a / 4) * 64 % 2 ^ 32 + (a % 4 * 16 + b)) 4 cs))
        (first_byte bits a b h k)

pub three :
    (bits a b c : ℕ) (cs : List ℕ)
    → b < 256
    → c < 4
    → base64_loop (bits * 64 % 2 ^ 32 + (a * 16 + b / 16)) 4 (digit (b % 16 * 4 + c) ∷ cs)
      ≡ push b (
          base64_loop
            ((bits * 64 % 2 ^ 32 + (a * 16 + b / 16)) * 64 % 2 ^ 32 + (b % 16 * 4 + c))
            2
            cs)
three bits a b c cs h k =
    loop-push (bits * 64 % 2 ^ 32 + (a * 16 + b / 16)) 4 (b % 16 * 4 + c) cs (omega arith) refl
    ∙ ap
        (λ n. push n (
          base64_loop ((bits * 64 % 2 ^ 32 + (a * 16 + b / 16)) * 64 % 2 ^ 32 + (b % 16 * 4 + c)) 2
            cs))
        (second_byte bits a b c h k)

pub four :
    (bits b c : ℕ) (cs : List ℕ)
    → c < 256
    → base64_loop (bits * 64 % 2 ^ 32 + (b * 4 + c / 64)) 2 (digit (c % 64) ∷ cs)
      ≡ push c (base64_loop ((bits * 64 % 2 ^ 32 + (b * 4 + c / 64)) * 64 % 2 ^ 32 + c % 64) 0 cs)
four bits b c cs h =
    loop-push (bits * 64 % 2 ^ 32 + (b * 4 + c / 64)) 2 (c % 64) cs (omega arith) refl
    ∙ ap
        (λ n.
          push n
            (base64_loop ((bits * 64 % 2 ^ 32 + (b * 4 + c / 64)) * 64 % 2 ^ 32 + c % 64) 0 cs))
        (third_byte bits b c h)

pub zero_bits : (b : ℕ) → b % 16 * 4 ≡ b % 16 * 4 + 0
zero_bits b = omega arith
