-- ===== src/Cbor/RoundTrip.antt =====
-- The reader reads back what the encoder writes.
use passkey.Base.{
  ℕ, zero, suc, ◌^◌, ◌<◌, ◌≡◌, refl, ◌∙◌, true, false, List, ◌∷◌, ◌++◌, some, arith, length,
  append_assoc, ltb-true,
}
use passkey.Cbor.{
  Cbor, Items, Entries, integer, bytes, text, array, map, bool, null, nil, item, end, entry, pos,
  negsuc, Read, read_items, read_entries, read_simple, read_major, decode_cbor,
}
use passkey.Cbor.Utf8.{is_utf8}
use passkey.Cbor.Encode.{
  head, encode, encode_items, encode_entries, length_items, length_entries, depth, depth_items,
  depth_entries, IsValue, AreValues, AreEntries,
}
use passkey.Cbor.Lead.{read_bytes-append, decode-head}

-- A text or byte string, behind its head.
read_text :
    (levels : ℕ) (bs rest : List ℕ)
    → is_utf8 bs ≡ true
    → read_major (decode_cbor levels) 3 (length bs) (bs ++ rest) ≡ some (text bs, rest)
unfolding read_major
read_text levels bs rest u = rw (read_bytes-append bs rest, u)

read_byte_string :
    (levels : ℕ) (bs rest : List ℕ)
    → read_major (decode_cbor levels) 2 (length bs) (bs ++ rest) ≡ some (bytes bs, rest)
unfolding read_major
read_byte_string levels bs rest = rw (read_bytes-append bs rest)

read_integers :
    (levels n : ℕ) (rest : List ℕ)
    → n < 2 ^ 63
    → (read_major (decode_cbor levels) 0 n rest ≡ some (integer (pos n), rest))
      × (read_major (decode_cbor levels) 1 n rest ≡ some (integer (negsuc n), rest))
unfolding read_major
read_integers levels n rest h = rw (ltb-true n (2 ^ 63) h) (refl, refl)

read_array :
    (levels n : ℕ) (vs : Items) (input rest : List ℕ)
    → read_items (decode_cbor levels) n input ≡ some (vs, rest)
    → read_major (decode_cbor levels) 4 n input ≡ some (array vs, rest)
unfolding read_major
read_array levels n vs input rest e = rw e

read_map :
    (levels n : ℕ) (es : Entries) (input rest : List ℕ)
    → read_entries (decode_cbor levels) n input ≡ some (es, rest)
    → read_major (decode_cbor levels) 5 n input ≡ some (map es, rest)
unfolding read_major
read_map levels n es input rest e = rw e

read_items-item :
    (read : List ℕ → Read Cbor) (n : ℕ) (v : Cbor) (vs : Items) (input mid rest : List ℕ)
    → read input ≡ some (v, mid)
    → read_items read n mid ≡ some (vs, rest)
    → read_items read (suc n) input ≡ some (item v vs, rest)
unfolding read_items
read_items-item read n v vs input mid rest e f = rw (e, read_items) (rw f)

read_items-nil :
    (read : List ℕ → Read Cbor) (rest : List ℕ) → read_items read 0 rest ≡ some (nil, rest)
unfolding read_items
read_items-nil read rest = refl

read_entries-end :
    (read : List ℕ → Read Cbor) (rest : List ℕ) → read_entries read 0 rest ≡ some (end, rest)
unfolding read_entries
read_entries-end read rest = refl

read_entries-entry :
    (read : List ℕ → Read Cbor) (n : ℕ) (k v : Cbor) (es : Entries) (input a b rest : List ℕ)
    → read input ≡ some (k, a)
    → read a ≡ some (v, b)
    → read_entries read n b ≡ some (es, rest)
    → read_entries read (suc n) input ≡ some (entry k v es, rest)
unfolding read_entries
read_entries-entry read n k v es input a b rest e f g = rw (e, read_entries) (rw f (rw g))

-- The three simple values.
decode-simple :
    (levels : ℕ) (rest : List ℕ)
    → (decode_cbor (suc levels) (0xf4 ∷ rest) ≡ some (bool false, rest))
      × (decode_cbor (suc levels) (0xf5 ∷ rest) ≡ some (bool true, rest))
      × (decode_cbor (suc levels) (0xf6 ∷ rest) ≡ some (null, rest))
unfolding decode_cbor read_simple
decode-simple levels rest = (refl, refl, refl)

mutual
  unfolding encode encode_items encode_entries depth depth_items depth_entries IsValue AreValues
      AreEntries

  decode-value :
      (v : Cbor) (levels : ℕ) (rest : List ℕ)
      → depth v < levels
      → IsValue v
      → decode_cbor levels (encode v ++ rest) ≡ some (v, rest)
  decode-value v zero rest d h = absurd (omega arith)
  decode-value (integer (pos n)) (suc levels) rest d h =
      decode-head levels 0 n rest (omega arith) (omega arith) ∙ (read_integers levels n rest h).0
  decode-value (integer (negsuc n)) (suc levels) rest d h =
      decode-head levels 1 n rest (omega arith) (omega arith) ∙ (read_integers levels n rest h).1
  decode-value (bytes bs) (suc levels) rest d h = rw (append_assoc (head 2 (length bs)) bs rest) (
      decode-head levels 2 (length bs) (bs ++ rest) (omega arith) h
      ∙ read_byte_string levels bs rest)
  decode-value (text bs) (suc levels) rest d (h, u) =
      rw (append_assoc (head 3 (length bs)) bs rest)
        (decode-head levels 3 (length bs) (bs ++ rest) (omega arith) h ∙ read_text levels bs rest u)
  decode-value (array vs) (suc levels) rest d (h, ok) =
      rw (append_assoc (head 4 (length_items vs)) (encode_items vs) rest) (
        decode-head levels 4 (length_items vs) (encode_items vs ++ rest) (omega arith) h
        ∙ read_array levels (length_items vs) vs (encode_items vs ++ rest) rest
            (decode-items vs levels rest (omega arith) ok))
  decode-value (map es) (suc levels) rest d (h, ok) =
      rw (append_assoc (head 5 (length_entries es)) (encode_entries es) rest) (
        decode-head levels 5 (length_entries es) (encode_entries es ++ rest) (omega arith) h
        ∙ read_map levels (length_entries es) es (encode_entries es ++ rest) rest
            (decode-entries es levels rest (omega arith) ok))
  decode-value (bool false) (suc levels) rest d h = (decode-simple levels rest).0
  decode-value (bool true) (suc levels) rest d h = (decode-simple levels rest).1
  decode-value null (suc levels) rest d h = (decode-simple levels rest).2

  decode-items :
      (vs : Items) (levels : ℕ) (rest : List ℕ)
      → depth_items vs < levels
      → AreValues vs
      → read_items (decode_cbor levels) (length_items vs) (encode_items vs ++ rest)
        ≡ some (vs, rest)
  decode-items nil levels rest d ok = read_items-nil (decode_cbor levels) rest
  decode-items (item v vs) levels rest d (hv, ok) =
      rw (append_assoc (encode v) (encode_items vs) rest) (
        read_items-item (decode_cbor levels) (length_items vs) v vs
          (encode v ++ (encode_items vs ++ rest)) (encode_items vs ++ rest) rest
          (decode-value v levels (encode_items vs ++ rest) (omega arith) hv)
          (decode-items vs levels rest (omega arith) ok))

  decode-entries :
      (es : Entries) (levels : ℕ) (rest : List ℕ)
      → depth_entries es < levels
      → AreEntries es
      → read_entries (decode_cbor levels) (length_entries es) (encode_entries es ++ rest)
        ≡ some (es, rest)
  decode-entries end levels rest d ok = read_entries-end (decode_cbor levels) rest
  decode-entries (entry k v es) levels rest d (hk, hv, ok) =
      rw
        (
          append_assoc (encode k) (encode v ++ encode_entries es) rest,
          append_assoc (encode v) (encode_entries es) rest,
        )
        (read_entries-entry (decode_cbor levels) (length_entries es) k v es
          (encode k ++ (encode v ++ (encode_entries es ++ rest)))
          (encode v ++ (encode_entries es ++ rest)) (encode_entries es ++ rest) rest
          (decode-value k levels (encode v ++ (encode_entries es ++ rest)) (omega arith) hk)
          (decode-value v levels (encode_entries es ++ rest) (omega arith) hv)
          (decode-entries es levels rest (omega arith) ok))

-- A value of a depth below the number of levels is read back from its encoding, whatever follows
-- it, and the reader stops where the encoding ends.
pub decode_cbor-encode :
    (v : Cbor) (levels : ℕ) (rest : List ℕ)
    → depth v < levels
    → IsValue v
    → decode_cbor levels (encode v ++ rest) ≡ some (v, rest)
decode_cbor-encode = decode-value
