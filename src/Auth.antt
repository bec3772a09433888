-- ===== src/Auth.antt =====
-- src/pam_auth.rs: the helper that asks the phones for a signature with a key of the user. The
-- calls of libfido2 and of the system enter through a record of what they give.
pub mod Sextets
pub mod Base64
pub mod Keys
pub mod File
pub mod Approval
use passkey.Base.{
  ℕ, ◌+◌, ◌-◌, ◌*◌, ◌/◌, ◌%◌, ◌^◌, Bool, true, false, not, ◌&&◌, ◌||◌, List, [], ◌∷◌, ◌++◌, Option,
  none, some, if◌then◌else◌, leb, ◌==◌, same, any, find, map,
}
use passkey.Base.Text.{Text, codes, split, lines, strip_prefix, trim_end_matches, contains}
use passkey.Hid.{is_empty}
use passkey.Token.{Devices, open_device, Builder, new_assertion}

pub record Credential : Type 0 where
  pub id : List ℕ
  pub key : List ℕ
  pub verification : Bool

-- The value of a character of `base64`, over the bytes of the text.
unfoldable pub sextet : ℕ → Option ℕ
sextet byte =
    if leb 65 byte && leb byte 90
    then some (byte - 65)
    else if leb 97 byte && leb byte 122
    then some (byte - 97 + 26)
    else if leb 48 byte && leb byte 57
    then some (byte - 48 + 52)
    else if byte == 43 || byte == 45
    then some 62
    else if byte == 47 || byte == 95
    then some 63
    else none

-- The loop of `base64`: `bits` is a `u32`, whose low six bits are 0 after the shift, so that `|`
-- is a sum.
unfoldable pub base64_loop : ℕ → ℕ → List ℕ → Option (List ℕ)
unfolding sextet
base64_loop bits count [] = some []
base64_loop bits count (byte ∷ bytes) = elim (sextet byte) [
  | none ↦ none
  | some value ↦
      let bits' = bits * 64 % 2 ^ 32 + value in
      let push = base64_loop bits' (count + 6 - 8) bytes in
      let wait = base64_loop bits' (count + 6) bytes in
      if leb 8 (count + 6)
      then elim push [ none ↦ none | some out ↦ some (bits' / 2 ^ (count + 6 - 8) % 256 ∷ out) ]
      else wait
]

unfoldable pub base64 : Text → Option (List ℕ)
unfolding base64_loop trim_end_matches
base64 text = base64_loop 0 0 (trim_end_matches 61 text)

-- One entry of a line: its first four fields.
abbrev fourth : List Text → Text
fourth [] = []
fourth (t ∷ ts) = t

unfoldable pub credential_of : List Text → Option Credential
unfolding base64 contains same
credential_of (handle ∷ public ∷ kind ∷ rest) = elim (base64 handle) [
  | none ↦ none
  | some id ↦ elim (base64 public) [
    | none ↦ none
    | some key ↦
        if not (same kind (codes "es256")) || is_empty id
        then none
        else some (record {
          id = id;
          key = key;
          verification = contains (fourth rest) (codes "+verification");
        })
  ]
]
credential_of _ = none

-- `filter_map` over the entries, and `flat_map` over the lines of the user.
unfoldable pub entries : List Text → List Credential
unfolding credential_of split
entries [] = []
entries (e ∷ es) = elim (credential_of (split 44 e)) [ none ↦ entries es | some c ↦ c ∷ entries es ]

-- `line.strip_prefix(user)?.strip_prefix(':')`.
unfoldable pub line_of : Text → Text → Option Text
unfolding strip_prefix
line_of user line = elim (strip_prefix user line) [
  | none ↦ none
  | some rest ↦ strip_prefix (58 ∷ []) rest
]

unfoldable pub line_keys : Text → List Text → List Credential
unfolding line_of entries split
line_keys user [] = []
line_keys user (line ∷ ls) = elim (line_of user line) [
  | none ↦ line_keys user ls
  | some rest ↦ entries (split 58 rest) ++ line_keys user ls
]

unfoldable pub credentials : Text → Text → List Credential
unfolding lines line_keys
credentials authfile user = line_keys user (lines authfile)

-- The options of `run`.
pub record Options : Type 0 where
  pub authfile : Option Text
  pub origin : Option Text
  pub verification : Bool

abbrev pub no_options : Options
no_options = record { authfile = none; origin = none; verification = false }

abbrev option_of : Options → Text → Option Text → Option Text → Options
option_of o text (some value) origin = record o { authfile = some value }
option_of o text none (some value) = record o { origin = some value }
option_of o text none none =
    if same text (codes "userverification=1") then record o { verification = true } else o

unfoldable pub options : Options → List Text → Options
unfolding strip_prefix same
options o [] = o
options o (t ∷ ts) =
    options (option_of o t (strip_prefix (codes "authfile=") t) (strip_prefix (codes "origin=") t))
      ts

-- What the system and libfido2 give: the content of a file, the devices, the calls that build the
-- probe and the request, the result of `fido_dev_get_assert` for a request with presence and perhaps
-- verification, the number of assertions and the id of the first (none if the pointer is null),
-- whether `fido_assert_verify` accepts a public key that `es256_pk_from_ptr` takes, and whether the
-- pipe can be written.
pub record Fido : Type 0 where
  pub read_file : Text → Option Text
  pub devices : Devices
  pub probe : Builder
  pub builder : Builder
  pub get : Bool → Bool
  pub count : ℕ
  pub id : Option (List ℕ)
  pub accepts : List ℕ → Bool
  pub pipe : Bool

-- A request that is sent to the device, with what it asks for.
pub record Sent : Type 0 where
  pub up : Bool
  pub uv : Bool

-- `Assertion::verify`.
abbrev named : Fido → List Credential → Option (List ℕ) → Bool
named w keys none = false
named w keys (some id) = elim (find (λ c. same c.id id) keys) [
  | none ↦ false
  | some c ↦ w.accepts c.key
]

unfoldable pub verify : Fido → List Credential → Bool
unfolding same
verify w keys = if not (w.count == 1) then false else named w keys w.id

-- `run` once the file is read: the requests that are sent, and whether "y" was written. What the
-- probe gives is not looked at.
abbrev probes : Fido → Text → List (List ℕ) → List Sent
probes w origin ids =
    if new_assertion w.probe origin ids then record { up = false; uv = false } ∷ [] else []

abbrev pub ids_of : List Credential → List (List ℕ)
ids_of keys = map (λ (c : Credential). c.id) keys

abbrev pub with_device : Fido → Text → Bool → List Credential → Option Text → List Sent × Bool
with_device w origin uv keys none = ([], false)
with_device w origin uv keys (some path) =
    if not (new_assertion w.builder origin (ids_of keys))
    then (probes w origin (ids_of keys), false)
    else (
      probes w origin (ids_of keys) ++ record { up = true; uv = uv } ∷ [],
      w.get uv && (verify w keys && w.pipe),
    )

unfoldable pub ask : Fido → Text → Bool → List Credential → List Sent × Bool
unfolding verify open_device new_assertion
ask w origin verification keys =
    let uv = verification || any (λ (c : Credential). c.verification) keys in
    if is_empty keys then ([], false) else with_device w origin uv keys (open_device w.devices)

-- An origin with a zero byte is no C string.
abbrev is_c_string : Text → Bool
is_c_string text = not (any (λ c. c == 0) text)

abbrev pub run_with : Fido → Text → Options → Option Text → Option Text → List Sent × Bool
run_with w user o none origin = ([], false)
run_with w user o (some authfile) none = ([], false)
run_with w user o (some authfile) (some origin) =
    if is_c_string origin
    then elim (w.read_file authfile) [
      | none ↦ ([], false)
      | some content ↦ ask w origin o.verification (credentials content user)
    ]
    else ([], false)

unfoldable pub run : Fido → List Text → List Sent × Bool
unfolding options credentials ask
run w [] = ([], false)
run w (user ∷ args) = let o = options no_options args in run_with w user o o.authfile o.origin
