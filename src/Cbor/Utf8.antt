-- ===== src/Cbor/Utf8.antt =====
-- `String::from_utf8`: which byte strings are UTF-8. Overlong forms, surrogates and code points
-- above 0x10ffff are none.
use passkey.Base.{
  ℕ, zero, suc, Bool, true, false, ◌&&◌, List, [], ◌∷◌, if◌then◌else◌, ltb, leb, ◌==◌,
}

-- What the next byte has to be: the continuation bytes still to come, and the range of the next.
pub record Expects : Type 0 where
  pub more : ℕ
  pub low : ℕ
  pub high : ℕ

abbrev pub between : Expects
between = record { more = 0; low = 0; high = 0 }

abbrev expects : ℕ → ℕ → ℕ → Expects
expects more low high = record { more = more; low = low; high = high }

-- The first byte of a character. The result's first part tells whether it is one.
unfoldable lead : ℕ → Bool × Expects
lead b =
    if ltb b 0x80
    then (true, between)
    else if leb 0xc2 b && leb b 0xdf
    then (true, expects 1 0x80 0xbf)
    else if b == 0xe0
    then (true, expects 2 0xa0 0xbf)
    else if b == 0xed
    then (true, expects 2 0x80 0x9f)
    else if leb 0xe1 b && leb b 0xef
    then (true, expects 2 0x80 0xbf)
    else if b == 0xf0
    then (true, expects 3 0x90 0xbf)
    else if leb 0xf1 b && leb b 0xf3
    then (true, expects 3 0x80 0xbf)
    else if b == 0xf4
    then (true, expects 3 0x80 0x8f)
    else (false, between)

unfoldable step_utf8 : Expects → ℕ → Bool × Expects
unfolding lead
step_utf8 e b = elim e.more [
  | zero ↦ lead b
  | suc n ↦ (leb e.low b && leb b e.high, expects n 0x80 0xbf)
]

unfoldable utf8_from : Expects → List ℕ → Bool
unfolding step_utf8
utf8_from e [] = e.more == 0
utf8_from e (b ∷ bs) = (step_utf8 e b).0 && utf8_from (step_utf8 e b).1 bs

unfoldable pub is_utf8 : List ℕ → Bool
unfolding utf8_from
is_utf8 bs = utf8_from between bs
