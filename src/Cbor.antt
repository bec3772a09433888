-- ===== src/Cbor.antt =====
-- src/daemon.rs, the CBOR reader and the test for a request that needs no presence. The position
-- in the input is what follows it: `input[*offset..]`.
pub mod Utf8
pub mod Encode
pub mod Lead
pub mod RoundTrip
pub mod Silent
use passkey.Base.{
  ℕ, zero, suc, ◌+◌, ◌*◌, ◌/◌, ◌%◌, ◌^◌, Bool, true, false, not, ◌&&◌, ◌||◌, List, [], ◌∷◌, ◌++◌,
  Option, none, some, if◌then◌else◌, ltb, leb, ◌==◌, same, length, take, drop,
}
use passkey.Base.Text.{codes}
use Utf8.{is_utf8}

abbrev pub get_assertion : ℕ
get_assertion = 0x02

-- An `i64`; `negsuc n` is -1 - n.
pub data ℤ : Type 0 where
  pos : ℕ → ℤ
  negsuc : ℕ → ℤ

-- `Cbor`; a text is its UTF-8 bytes.
mutual
  pub data Cbor : Type 0 where
    integer : ℤ → Cbor
    bytes : List ℕ → Cbor
    text : List ℕ → Cbor
    array : Items → Cbor
    map : Entries → Cbor
    bool : Bool → Cbor
    null : Cbor

  pub data Items : Type 0 where
    nil : Items
    item : Cbor → Items → Items

  pub data Entries : Type 0 where
    end : Entries
    entry : Cbor → Cbor → Entries → Entries

-- `Result<_, ()>` with the rest of the input.
abbrev pub Read {ℓ} : Type ℓ → Type ℓ
Read A = Option (A × List ℕ)

infixl 5 ◌>>=◌
abbrev pub ◌>>=◌ {ℓ κ} : {A : Type ℓ} {B : Type κ} → Option A → (A → Option B) → Option B
none >>= f = none
some a >>= f = f a

-- The `fold` of `read_uint`, in 64 bits; the low byte of `value << 8` is 0, so `|` is a sum.
unfoldable from_be : ℕ → List ℕ → ℕ
from_be value [] = value
from_be value (b ∷ bs) = from_be (value * 256 % 2 ^ 64 + b) bs

unfoldable pub read_bytes : ℕ → List ℕ → Read (List ℕ)
read_bytes count input =
    if leb count (length input) then some (take count input, drop count input) else none

unfoldable pub read_uint : ℕ → List ℕ → Read ℕ
unfolding read_bytes from_be
read_uint count input = do (bs, rest) ← read_bytes count input; some (from_be 0 bs, rest)

-- The value behind the first byte.
unfoldable pub read_value : ℕ → List ℕ → Read ℕ
unfolding read_uint
read_value info input =
    if ltb info 24
    then some (info, input)
    else if info == 24
    then read_uint 1 input
    else if info == 25
    then read_uint 2 input
    else if info == 26
    then read_uint 4 input
    else if info == 27
    then read_uint 8 input
    else none

-- `i64::try_from`.
abbrev fits_i64 : ℕ → Bool
fits_i64 value = ltb value (2 ^ 63)

-- The loops over the elements. The error of an element ends the loop.
unfoldable pub read_items : (List ℕ → Read Cbor) → ℕ → List ℕ → Read Items
read_items read zero input = some (nil, input)
read_items read (suc n) input = elim (read input) [
  | none ↦ none
  | some (v, rest) ↦ elim (read_items read n rest) [
    | none ↦ none
    | some (vs, rest') ↦ some (item v vs, rest')
  ]
]

unfoldable pub read_entries : (List ℕ → Read Cbor) → ℕ → List ℕ → Read Entries
read_entries read zero input = some (end, input)
read_entries read (suc n) input = elim (read input) [
  | none ↦ none
  | some (k, rest) ↦ elim (read rest) [
    | none ↦ none
    | some (v, rest') ↦ elim (read_entries read n rest') [
      | none ↦ none
      | some (es, rest'') ↦ some (entry k v es, rest'')
    ]
  ]
]

-- The simple values of major type 7.
unfoldable pub read_simple : ℕ → List ℕ → Read Cbor
read_simple info input =
    if info == 20
    then some (bool false, input)
    else if info == 21
    then some (bool true, input)
    else if info == 22
    then some (null, input)
    else none

-- The `match` on the major type, `read` being the reader one level deeper.
unfoldable pub read_major : (List ℕ → Read Cbor) → ℕ → ℕ → List ℕ → Read Cbor
unfolding read_items read_entries read_bytes is_utf8
read_major read major value input =
    if major == 0
    then (if fits_i64 value then some (integer (pos value), input) else none)
    else if major == 1
    then (if fits_i64 value then some (integer (negsuc value), input) else none)
    else if major == 2
    then (do (bs, rest) ← read_bytes value input; some (bytes bs, rest))
    else if major == 3
    then (do (bs, rest) ← read_bytes value input; if is_utf8 bs then some (text bs, rest) else none)
    else if major == 4
    then (do (vs, rest) ← read_items read value input; some (array vs, rest))
    else if major == 5
    then (do (es, rest) ← read_entries read value input; some (map es, rest))
    else if major == 6
    then read input
    else none

-- `decode_cbor`: `levels` is 9 - depth, so that 0 stands for `depth > 8`.
unfoldable pub decode_cbor : ℕ → List ℕ → Read Cbor
unfolding read_simple read_value read_major
decode_cbor zero input = none
decode_cbor (suc levels) [] = none
decode_cbor (suc levels) (first ∷ input) =
    let deeper = decode_cbor levels in
    if first / 32 == 7 then read_simple (first % 32) input else (do
      (value, rest) ← read_value (first % 32) input
      read_major deeper (first / 32) value rest)

-- `key == Cbor::Integer(5)`, `key == Cbor::Text("up".into())` and `value == Cbor::Bool(false)`.
abbrev pub is_five : Cbor → Bool
is_five (integer (pos n)) = n == 5
is_five _ = false

abbrev pub is_up : Cbor → Bool
is_up (text t) = same t (codes "up")
is_up _ = false

abbrev pub is_false : Cbor → Bool
is_false (bool b) = not b
is_false _ = false

-- `any` over the entries of a map.
abbrev pub any_entry : (Cbor → Cbor → Bool) → Entries → Bool
any_entry p end = false
any_entry p (entry k v es) = p k v || any_entry p es

abbrev pub denies_presence : Cbor → Bool
denies_presence (map options) = any_entry (λ k v. is_up k && is_false v) options
denies_presence _ = false

abbrev is_silent : Option (Cbor × List ℕ) → Bool
is_silent (some (map root, rest)) = any_entry (λ k v. is_five k && denies_presence v) root
is_silent _ = false

-- `silent`.
unfoldable pub silent : List ℕ → Bool
unfolding decode_cbor
silent [] = false
silent (command ∷ body) = if command == get_assertion then is_silent (decode_cbor 9 body) else false
