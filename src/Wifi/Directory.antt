-- ===== src/Wifi/Directory.antt =====
-- src/wifi.rs: the directory of profiles: `load_from`, `save` and `remove`. A directory that does
-- not exist is `none`.
pub mod Load
pub mod Saved
pub mod Restored
use passkey.Base.{
  ℕ, ◌+◌, ◌%◌, Bool, true, false, not, ◌&&◌, ◌||◌, List, [], ◌∷◌, ◌++◌, Option, none, some,
  if◌then◌else◌, ltb, ◌==◌, same, any, filter, length,
}
use passkey.Base.Text.{Text, codes}
use passkey.Base.Decimal.{decimal}
use passkey.Wifi.{IpAddr, v4, v6, SocketAddr, Addresses, Peer, endpoint, encode, decode, hex}

-- A file of the directory: what `symlink_metadata` says of it, and its text, if it can be read as
-- text.
pub record Entry : Type 0 where
  pub name : Text
  pub regular : Bool
  pub uid : ℕ
  pub mode : ℕ
  pub size : ℕ
  pub text : Option Text

-- `Path::extension`: what stands behind the last dot, if something stands before it.
abbrev extend_cut : ℕ → ℕ → Text → Option (Text × Text) → Option (Text × Text)
extend_cut sep c s (some (a, b)) = some (c ∷ a, b)
extend_cut sep c s none = if c == sep then some ([], s) else none

unfoldable pub rsplit_once : ℕ → Text → Option (Text × Text)
rsplit_once sep [] = none
rsplit_once sep (c ∷ s) = extend_cut sep c s (rsplit_once sep s)

abbrev extension_of : Option (Text × Text) → Option Text
extension_of none = none
extension_of (some ([], ext)) = none
extension_of (some (c ∷ stem, ext)) = some ext

abbrev is_conf_extension : Option Text → Bool
is_conf_extension none = false
is_conf_extension (some ext) = same ext (codes "conf")

unfoldable pub is_conf : Text → Bool
unfolding rsplit_once same
is_conf name = is_conf_extension (extension_of (rsplit_once 46 name))

-- `meta.mode() & 0o077` has the low six bits.
unfoldable pub is_private : Entry → Bool
is_private e = not (not e.regular || not (e.uid == 0) || not (e.mode % 64 == 0) || ltb 512 e.size)

abbrev pub cons_peer : Option Peer → Option (List Peer) → Option (List Peer)
cons_peer (some p) (some ps) = some (p ∷ ps)
cons_peer (some p) none = none
cons_peer none ps = none

abbrev pub decode_text : Addresses → Option Text → Option Peer
decode_text w none = none
decode_text w (some text) = decode w text

-- The loop of `load_from`. The result has no value where it is an error.
unfoldable pub load_entries : Addresses → List Entry → Option (List Peer)
unfolding is_conf is_private decode
load_entries w [] = some []
load_entries w (e ∷ es) =
    let rest = load_entries w es in
    if not (is_conf e.name)
    then rest
    else if not (is_private e)
    then none
    else cons_peer (decode_text w e.text) rest

unfoldable pub load_from : Addresses → Option (List Entry) → Option (List Peer)
unfolding load_entries
load_from w none = some []
load_from w (some es) = load_entries w es

-- `Peer::id`, and the name of the peer's file.
abbrev pub id : Peer → Text
id p = hex p.pin

abbrev pub file_of : Peer → Text
file_of p = id p ++ codes ".conf"

abbrev pub has_file : Text → List Entry → Bool
has_file name es = any (λ e. same e.name name) es

abbrev pub without_file : Text → List Entry → List Entry
without_file name es = filter (λ e. not (same e.name name)) es

-- `fs::rename` onto a name.
abbrev pub put_file : Entry → List Entry → List Entry
put_file new [] = new ∷ []
put_file new (e ∷ es) = if same e.name new.name then new ∷ es else e ∷ put_file new es

-- `create_dir_all`.
abbrev pub entries : Option (List Entry) → List Entry
entries none = []
entries (some es) = es

-- The file that `save` writes as root. The text of a profile is ASCII: its bytes are its
-- characters.
abbrev pub profile : Addresses → Peer → Entry
profile w p = record {
  name = file_of p;
  regular = true;
  uid = 0;
  mode = 0o100600;
  size = length (encode w p);
  text = some (encode w p);
}

abbrev pub temporary : ℕ → Peer → Text
temporary pid p = id p ++ (codes "." ++ (decimal pid ++ codes ".new"))

-- `save`: whether it succeeds, and the directory after it.
unfoldable pub save : Addresses → ℕ → Peer → Option (List Entry) → Bool × Option (List Entry)
unfolding encode hex same decimal
save w pid p d =
    if has_file (temporary pid p) (entries d)
    then (false, some (without_file (temporary pid p) (entries d)))
    else (true, some (put_file (profile w p) (entries d)))

-- `==` of two addresses.
abbrev segments : IpAddr → List ℕ
segments (v4 a b c d) = a ∷ b ∷ c ∷ d ∷ []
segments (v6 a b c d e f g h) = a ∷ b ∷ c ∷ d ∷ e ∷ f ∷ g ∷ h ∷ []

abbrev pub same_address : SocketAddr → SocketAddr → Bool
same_address a b =
    same (segments a.ip) (segments b.ip)
    && (a.port_number == b.port_number && (a.flow_info == b.flow_info && a.scope_id == b.scope_id))

-- The loop of `remove`: the directory after it, and whether it was without error and found one.
unfoldable pub remove_peers : SocketAddr → List Peer → Bool → List Entry → Bool × List Entry
unfolding same hex
remove_peers a [] found es = (found, es)
remove_peers a (p ∷ ps) found es =
    let skipped = remove_peers a ps found es in
    let removed = remove_peers a ps true (without_file (file_of p) es) in
    if not (same_address p.address a)
    then skipped
    else if not (has_file (file_of p) es)
    then (false, es)
    else removed

abbrev remove_loaded :
    Option SocketAddr → Option (List Peer) → Option (List Entry) → Bool × Option (List Entry)
remove_loaded (some a) (some ps) (some es) =
    let (ok, es') = remove_peers a ps false es in (ok, some es')
remove_loaded _ _ d = (false, d)

unfoldable pub remove : Addresses → Text → Option (List Entry) → Bool × Option (List Entry)
unfolding endpoint load_from remove_peers
remove w address d = remove_loaded (endpoint w address) (load_from w d) d
