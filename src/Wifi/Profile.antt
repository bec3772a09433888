-- ===== src/Wifi/Profile.antt =====
-- The profile file of a paired phone, written and read.
use passkey.Base.{
  ℕ, ◌/◌, ◌%◌, ◌<◌, ◌≡◌, ◌≢◌, refl, sym, ap, subst, ◌∙◌, true, false, not, ◌||◌, List, [], ◌∷◌,
  ◌++◌, append_assoc, Option, none, some, same, ◌==◌, ==_ne, length, All, arith, Bool-cases,
  Option-cases, inl, inr,
}
use mathlib.Core.Option.{some-injective}
use passkey.Base.Text.{Text, codes, split, lines, trim, join, is_whitespace}
use passkey.Base.Split.{
  Without, split-join, Without-join, Without-check, unlines, lines-unlines, trim-id,
}
use passkey.Auth.Base64.{IsByte}
use passkey.Wifi.{
  SocketAddr, Addresses, Peer, is_local, or_ip, checked, endpoint, hex, hex_digit, hex_value, unhex,
  peer_of, code_of, parse, encode, decode_lines, decode,
}
use passkey.Wifi.Hex.{unhex-hex, unhex_sound, Without-hex}

-- The address is in a local network and has a port, and pin and secret are of 32 bytes.
abbrev pub IsPeer : Peer → Type 0
IsPeer p =
    (is_local p.address.ip ≡ true)
    × (p.address.port_number ≢ 0)
    × All IsByte p.pin
    × (length p.pin ≡ 32)
    × All IsByte p.secret
    × (length p.secret ≡ 32)

-- How the library prints an address: in one line, and so that it reads it back.
abbrev pub IsPrinted : Addresses → SocketAddr → Type 0
IsPrinted w a =
    (w.parse_socket (w.print a) ≡ some a) × Without 10 (w.print a) × Without 13 (w.print a)

code : Peer → Text
code p = join (codes ":") (codes "pk1" ∷ hex p.pin ∷ hex p.secret ∷ [])

encode-unlines : (w : Addresses) (p : Peer) → encode w p ≡ unlines (w.print p.address ∷ code p ∷ [])
unfolding encode code join
encode-unlines w p =
    ap (λ r. w.print p.address ++ 10 ∷ 112 ∷ 107 ∷ 49 ∷ 58 ∷ r)
      (sym (append_assoc (hex p.pin) (58 ∷ hex p.secret) (10 ∷ [])))

hex-All :
    (P : ℕ → Type 0) (vs : List ℕ)
    → ((n : ℕ) → n < 16 → P (hex_digit n))
    → All IsByte vs
    → All P (hex vs)
unfolding hex
hex-All P [] k h = tt
hex-All P (v ∷ vs) k h =
    (k (v / 16) (omega (arith, h.0)), (k (v % 16) (omega arith), hex-All P vs k h.1))

digit_not_white : (n : ℕ) → n < 16 → is_whitespace (hex_digit n) ≡ false
unfolding is_whitespace
digit_not_white n h = ground arith

All-append : (P : ℕ → Type 0) (xs ys : List ℕ) → All P xs → All P ys → All P (xs ++ ys)
All-append P [] ys a b = b
All-append P (x ∷ xs) ys a b = (a.0, All-append P xs ys a.1 b)

code_not_white : (p : Peer) → IsPeer p → All (λ c. is_whitespace c ≡ false) (code p)
unfolding code join is_whitespace
code_not_white p h = (
  refl,
  (
    refl,
    (
      refl,
      (
        refl,
        All-append (λ c. is_whitespace c ≡ false) (hex p.pin) (58 ∷ hex p.secret)
            (hex-All (λ c. is_whitespace c ≡ false) p.pin digit_not_white h.2)
            (refl, hex-All (λ c. is_whitespace c ≡ false) p.secret digit_not_white h.4),
      ),
    ),
  ),
)

fields-Without :
    (sep : ℕ) (p : Peer)
    → hex_value sep ≡ none
    → Without sep (codes "pk1")
    → IsPeer p
    → All (Without sep) (codes "pk1" ∷ hex p.pin ∷ hex p.secret ∷ [])
fields-Without sep p n k h =
    (k, (Without-hex sep p.pin n h.2, (Without-hex sep p.secret n h.4, tt)))

code-Without :
    (sep : ℕ) (p : Peer)
    → hex_value sep ≡ none
    → Without sep (codes "pk1")
    → 58 ≢ sep
    → IsPeer p
    → Without sep (code p)
unfolding code
code-Without sep p n k c h =
    Without-join sep 58 (codes "pk1" ∷ hex p.pin ∷ hex p.secret ∷ []) c (fields-Without sep p n k h)

endpoint-print :
    (w : Addresses) (p : Peer)
    → IsPeer p
    → IsPrinted w p.address
    → endpoint w (w.print p.address) ≡ some p.address
unfolding endpoint
endpoint-print w p h k = rw (k.0, h.0, ==_ne p.address.port_number 0 h.1) refl

split-code : (p : Peer) → IsPeer p → split 58 (code p) ≡ codes "pk1" ∷ hex p.pin ∷ hex p.secret ∷ []
unfolding code hex_value
split-code p h =
    split-join 58 (codes "pk1") (hex p.pin ∷ hex p.secret ∷ [])
      (fields-Without 58 p refl (Without-check 58 (codes "pk1") refl) h)

parse-code :
    (w : Addresses) (p : Peer)
    → IsPeer p
    → IsPrinted w p.address
    → parse w (w.print p.address) (code p) ≡ some p
unfolding parse same hex_value
parse-code w p h k =
    let parts : split 58 (trim (code p)) ≡ codes "pk1" ∷ hex p.pin ∷ hex p.secret ∷ [] =
      ap (split 58) (trim-id (code p) (code_not_white p h)) ∙ split-code p h in
    ap (λ fs. code_of (endpoint w (w.print p.address)) fs) parts
    ∙ rw (endpoint-print w p h k, unhex-hex p.pin h.2 h.3, unhex-hex p.secret h.4 h.5) refl

-- A profile is read back as it was written, wherever the library reads back the address that it
-- prints.
pub decode-encode :
    (w : Addresses) (p : Peer) → IsPeer p → IsPrinted w p.address → decode w (encode w p) ≡ some p
unfolding decode hex_value
decode-encode w p h k =
    ap (λ t. decode_lines w (lines t)) (encode-unlines w p)
    ∙ ap (decode_lines w) (
        lines-unlines (w.print p.address ∷ code p ∷ [])
          (k.1, (code-Without 10 p refl (Without-check 10 (codes "pk1") refl) (λ e. cc e) h, tt))
          (k.2, (code-Without 13 p refl (Without-check 13 (codes "pk1") refl) (λ e. cc e) h, tt)))
    ∙ parse-code w p h k

checked_sound :
    (o : Option SocketAddr) (a : SocketAddr)
    → checked o ≡ some a
    → (is_local a.ip ≡ true) × (a.port_number ≢ 0)
checked_sound none a e = cc e
checked_sound (some b) a e = elim (Bool-cases (not (is_local b.ip) || b.port_number == 0)) [
  | inl bad ↦ cc (rw bad at e)
  | inr good ↦
      subst (λ x. (is_local x.ip ≡ true) × (x.port_number ≢ 0)) (some-injective b a (rw good at e))
        (ground arith)
]

peer_of_sound :
    (a : Option SocketAddr) (t u : Text) (p : Peer)
    → ((x : SocketAddr) → a ≡ some x → (is_local x.ip ≡ true) × (x.port_number ≢ 0))
    → peer_of a (unhex t) (unhex u) ≡ some p
    → IsPeer p
peer_of_sound none t u p k e = cc e
peer_of_sound (some a) t u p k e = elim (Option-cases (unhex t)) [
  | inl n ↦ cc (rw (n, peer_of) at e)
  | inr (vs, n) ↦ elim (Option-cases (unhex u)) [
    | inl m ↦ cc (rw (m, peer_of) at (rw (n, peer_of) at e))
    | inr (us, m) ↦
        let pin : All IsByte vs × (length vs ≡ 32) = unhex_sound t vs n in
        let secret : All IsByte us × (length us ≡ 32) = unhex_sound u us m in
        let found : record { address = a; pin = vs; secret = us } ≡ p =
          some-injective _ p (rw (m, peer_of) at (rw (n, peer_of) at e)) in
        subst IsPeer found ((k a refl).0, (k a refl).1, pin.0, pin.1, secret.0, secret.1)
  ]
]

code_of_sound :
    (a : Option SocketAddr) (fs : List Text) (p : Peer)
    → ((x : SocketAddr) → a ≡ some x → (is_local x.ip ≡ true) × (x.port_number ≢ 0))
    → code_of a fs ≡ some p
    → IsPeer p
code_of_sound a [] p k e = cc e
code_of_sound a (kind ∷ []) p k e = cc e
code_of_sound a (kind ∷ t ∷ []) p k e = cc e
code_of_sound a (kind ∷ t ∷ u ∷ []) p k e = elim (Bool-cases (same kind (codes "pk1"))) [
  | inl h ↦ peer_of_sound a t u p k (rw h at e)
  | inr h ↦ cc (rw h at e)
]
code_of_sound a (kind ∷ t ∷ u ∷ v ∷ fs) p k e = cc e

decode_lines_sound :
    (w : Addresses) (ls : List Text) (p : Peer) → decode_lines w ls ≡ some p → IsPeer p
unfolding parse endpoint
decode_lines_sound w [] p e = cc e
decode_lines_sound w (a ∷ []) p e = cc e
decode_lines_sound w (a ∷ c ∷ []) p e =
    code_of_sound (endpoint w a) (split 58 (trim c)) p
      (λ x. checked_sound (or_ip (w.parse_socket a) (w.parse_ip a)) x) e
decode_lines_sound w (a ∷ c ∷ d ∷ ls) p e = cc e

-- Whatever a profile holds, the peer that is read from it is in a local network, and its pin and
-- secret are of 32 bytes.
pub decode-IsPeer : (w : Addresses) (text : Text) (p : Peer) → decode w text ≡ some p → IsPeer p
unfolding decode
decode-IsPeer w text p e = decode_lines_sound w (lines text) p e
