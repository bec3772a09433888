-- ===== src/Cbor/Encode.antt =====
-- The encoding that CTAP2 prescribes, for the values that the reader knows: each number in the
-- shortest form.
use passkey.Base.{
  ℕ, zero, suc, ◌+◌, ◌*◌, ◌/◌, ◌%◌, ◌^◌, ◌<◌, ◌≡◌, true, false, List, [], ◌∷◌, ◌++◌, if◌then◌else◌,
  ltb, length,
}
use Prim.Native.Nat.{max}
use passkey.Cbor.{
  Cbor, Items, Entries, integer, bytes, text, array, map, bool, null, nil, item, end, entry, pos,
  negsuc,
}
use passkey.Cbor.Utf8.{is_utf8}

-- The `count` bytes of a number, highest first.
unfoldable pub to_be : ℕ → ℕ → List ℕ
to_be zero n = []
to_be (suc count) n = (n / 256 ^ count % 256) ∷ to_be count n

-- The first byte and the value behind it.
unfoldable pub head : ℕ → ℕ → List ℕ
unfolding to_be
head major n =
    if ltb n 24
    then (major * 32 + n) ∷ []
    else if ltb n (2 ^ 8)
    then (major * 32 + 24) ∷ to_be 1 n
    else if ltb n (2 ^ 16)
    then (major * 32 + 25) ∷ to_be 2 n
    else if ltb n (2 ^ 32)
    then (major * 32 + 26) ∷ to_be 4 n
    else (major * 32 + 27) ∷ to_be 8 n

abbrev pub length_items : Items → ℕ
length_items nil = 0
length_items (item v vs) = suc (length_items vs)

abbrev pub length_entries : Entries → ℕ
length_entries end = 0
length_entries (entry k v es) = suc (length_entries es)

unfoldable mutual
  unfolding head

  pub encode : Cbor → List ℕ
  encode (integer (pos n)) = head 0 n
  encode (integer (negsuc n)) = head 1 n
  encode (bytes bs) = head 2 (length bs) ++ bs
  encode (text bs) = head 3 (length bs) ++ bs
  encode (array vs) = head 4 (length_items vs) ++ encode_items vs
  encode (map es) = head 5 (length_entries es) ++ encode_entries es
  encode (bool false) = 0xf4 ∷ []
  encode (bool true) = 0xf5 ∷ []
  encode null = 0xf6 ∷ []

  pub encode_items : Items → List ℕ
  encode_items nil = []
  encode_items (item v vs) = encode v ++ encode_items vs

  pub encode_entries : Entries → List ℕ
  encode_entries end = []
  encode_entries (entry k v es) = encode k ++ (encode v ++ encode_entries es)

-- How deep a value is nested.
unfoldable mutual
  pub depth : Cbor → ℕ
  depth (integer n) = 0
  depth (bytes bs) = 0
  depth (text bs) = 0
  depth (array vs) = suc (depth_items vs)
  depth (map es) = suc (depth_entries es)
  depth (bool b) = 0
  depth null = 0

  pub depth_items : Items → ℕ
  depth_items nil = 0
  depth_items (item v vs) = max (depth v) (depth_items vs)

  pub depth_entries : Entries → ℕ
  depth_entries end = 0
  depth_entries (entry k v es) = max (max (depth k) (depth v)) (depth_entries es)

-- A value that the program can hold: numbers are of 64 bits, lengths fit, texts are UTF-8.
unfoldable mutual
  pub IsValue : Cbor → Type 0
  IsValue (integer (pos n)) = n < 2 ^ 63
  IsValue (integer (negsuc n)) = n < 2 ^ 63
  IsValue (bytes bs) = length bs < 2 ^ 64
  IsValue (text bs) = (length bs < 2 ^ 64) × (is_utf8 bs ≡ true)
  IsValue (array vs) = (length_items vs < 2 ^ 64) × AreValues vs
  IsValue (map es) = (length_entries es < 2 ^ 64) × AreEntries es
  IsValue (bool b) = Unit {0}
  IsValue null = Unit {0}

  pub AreValues : Items → Type 0
  AreValues nil = Unit {0}
  AreValues (item v vs) = IsValue v × AreValues vs

  pub AreEntries : Entries → Type 0
  AreEntries end = Unit {0}
  AreEntries (entry k v es) = IsValue k × IsValue v × AreEntries es
