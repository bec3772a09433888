-- ===== src/Wifi.antt =====
-- src/wifi.rs: the profile of a phone that is paired over Wi-Fi, and the start of a connection to
-- it. How an address is read and printed is the standard library's and enters as a parameter.
pub mod Hex
pub mod Profile
pub mod Connect
pub mod Directory
use passkey.Base.{
  ℕ, ◌+◌, ◌-◌, ◌*◌, ◌/◌, ◌%◌, Bool, true, false, not, ◌&&◌, ◌||◌, List, [], ◌∷◌, ◌++◌, Option, none,
  some, if◌then◌else◌, ltb, leb, ◌==◌, same, length, take, drop,
}
use passkey.Base.Text.{Text, codes, split, lines, trim}
use passkey.Base.Bytes.{from_be16}
use passkey.Cbor.Utf8.{is_utf8}

abbrev pub port : ℕ
port = 40719

abbrev pub magic : List ℕ
magic = codes "PASSKEY-WIFI-1\n"

pub data IpAddr : Type 0 where
  v4 : ℕ → ℕ → ℕ → ℕ → IpAddr
  v6 : ℕ → ℕ → ℕ → ℕ → ℕ → ℕ → ℕ → ℕ → IpAddr

-- The last two are of an IPv6 address; they are 0 for an IPv4 address.
pub record SocketAddr : Type 0 where
  pub ip : IpAddr
  pub port_number : ℕ
  pub flow_info : ℕ
  pub scope_id : ℕ

pub record Peer : Type 0 where
  pub address : SocketAddr
  pub pin : List ℕ
  pub secret : List ℕ

-- `str::parse` for the two types, and how a `SocketAddr` is printed.
pub record Addresses : Type 0 where
  pub parse_socket : Text → Option SocketAddr
  pub parse_ip : Text → Option IpAddr
  pub print : SocketAddr → Text

abbrev pub or_ip : Option SocketAddr → Option IpAddr → Option SocketAddr
or_ip (some a) ip = some a
or_ip none none = none
or_ip none (some ip) = some (record { ip = ip; port_number = port; flow_info = 0; scope_id = 0 })

-- `is_private`, `is_link_local` and `is_loopback` of an IPv4 address; `is_unique_local`,
-- `is_unicast_link_local` and `is_loopback` of an IPv6 address, given by its eight segments.
unfoldable pub is_local : IpAddr → Bool
is_local (v4 a b c d) =
    (a == 10 || a == 172 && leb 16 b && leb b 31 || a == 192 && b == 168)
    || a == 169 && b == 254
    || a == 127
is_local (v6 a b c d e f g h) =
    leb 0xfc00 a && leb a 0xfdff
    || leb 0xfe80 a && leb a 0xfebf
    || a == 0 && b == 0 && c == 0 && d == 0 && e == 0 && f == 0 && g == 0 && h == 1

abbrev pub checked : Option SocketAddr → Option SocketAddr
checked none = none
checked (some a) = if not (is_local a.ip) || a.port_number == 0 then none else some a

unfoldable pub endpoint : Addresses → Text → Option SocketAddr
unfolding is_local
endpoint w value = checked (or_ip (w.parse_socket value) (w.parse_ip value))

-- `{v:02x}`.
abbrev pub hex_digit : ℕ → ℕ
hex_digit n = if ltb n 10 then n + 48 else n - 10 + 97

unfoldable pub hex : List ℕ → Text
hex [] = []
hex (v ∷ vs) = hex_digit (v / 16) ∷ hex_digit (v % 16) ∷ hex vs

-- The value of an ASCII hexadecimal digit.
unfoldable pub hex_value : ℕ → Option ℕ
hex_value c =
    if leb 48 c && leb c 57
    then some (c - 48)
    else if leb 97 c && leb c 102
    then some (c - 97 + 10)
    else if leb 65 c && leb c 70
    then some (c - 65 + 10)
    else none

-- The loop of `unhex`, over an even number of digits.
unfoldable pub unhex_pairs : Text → Option (List ℕ)
unfolding hex_value
unhex_pairs (c ∷ d ∷ rest) = elim (hex_value c) [
  | none ↦ none
  | some hi ↦ elim (hex_value d) [
    | none ↦ none
    | some lo ↦ elim (unhex_pairs rest) [ none ↦ none | some vs ↦ some ((hi * 16 + lo) ∷ vs) ]
  ]
]
unhex_pairs _ = some []

-- `unhex`.
unfoldable pub unhex : Text → Option (List ℕ)
unfolding unhex_pairs
unhex value = if not (length value == 64) then none else unhex_pairs value

-- `Peer::parse`.
abbrev pub peer_of : Option SocketAddr → Option (List ℕ) → Option (List ℕ) → Option Peer
peer_of (some address) (some pin) (some secret) =
    some (record { address = address; pin = pin; secret = secret })
peer_of _ _ _ = none

abbrev pub code_of : Option SocketAddr → List Text → Option Peer
code_of address (kind ∷ pin ∷ secret ∷ []) =
    if not (same kind (codes "pk1")) then none else peer_of address (unhex pin) (unhex secret)
code_of address _ = none

unfoldable pub parse : Addresses → Text → Text → Option Peer
unfolding endpoint split trim unhex same
parse w address code = code_of (endpoint w address) (split 58 (trim code))

unfoldable pub encode : Addresses → Peer → Text
unfolding hex
encode w p =
    w.print p.address ++ 10 ∷ (codes "pk1:" ++ (hex p.pin ++ 58 ∷ (hex p.secret ++ 10 ∷ [])))

abbrev pub decode_lines : Addresses → List Text → Option Peer
decode_lines w (address ∷ code ∷ []) = parse w address code
decode_lines w _ = none

unfoldable pub decode : Addresses → Text → Option Peer
unfolding lines parse
decode w text = decode_lines w (lines text)

-- The chars of a label that are no control characters, over its UTF-8 bytes: the control
-- characters beyond ASCII are two bytes, 0xc2 and 0x80 to 0x9f.
abbrev without_controls : List ℕ → List ℕ
without_controls [] = []
without_controls (c ∷ []) = if ltb c 32 || c == 127 then [] else c ∷ []
without_controls (c ∷ d ∷ rest) =
    let later = without_controls (d ∷ rest) in
    let skipped = without_controls rest in
    if ltb c 32 || c == 127
    then later
    else if c == 0xc2 && leb 0x80 d && leb d 0x9f
    then skipped
    else c ∷ later

-- The phone's side of the connection behind its acknowledgement: a length and a name.
unfoldable label_of : List ℕ → Option Text
unfolding is_utf8
label_of (hi ∷ lo ∷ rest) =
    let size = from_be16 hi lo in
    if not (leb 1 size && leb size 256)
    then none
    else if ltb (length rest) size
    then none
    else if is_utf8 (take size rest)
    then some (without_controls (take size rest) ++ codes " (Wi-Fi)")
    else none
label_of _ = none

-- `connect`, over the digest of the certificate, if the TLS connection stands and has one, and
-- the bytes that the phone sends. The result is what the phone is sent, and the label.
unfoldable pub connect : Peer → Option (List ℕ) → List ℕ → List ℕ × Option Text
unfolding label_of same
connect p none incoming = ([], none)
connect p (some digest) incoming =
    if not (same digest p.pin)
    then ([], none)
    else if same (take 5 incoming) (0 ∷ 0 ∷ 0 ∷ 1 ∷ 0x22 ∷ [])
    then (magic ++ p.secret, label_of (drop 5 incoming))
    else (magic ++ p.secret, none)
