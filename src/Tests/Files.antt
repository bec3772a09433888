-- ===== src/Tests/Files.antt =====
-- Files: keys, profiles of phones, and PAM services.
use passkey.Base.{
  ℕ, zero, suc, ◌≡◌, refl, true, List, [], ◌∷◌, ◌++◌, none, some, arith, All, replicate, same,
  if◌then◌else◌, take,
}
use passkey.Base.Text.{Text, codes, contains, trim_start, strip_prefix, is_whitespace}
use passkey.Base.Split.{Without-check}
use passkey.Token.{Builder}
use passkey.Auth.{Credential, Fido, credentials, run, options, no_options}
use passkey.Auth.Base64.{IsByte}
use passkey.Auth.Keys.{Printed}
use passkey.Auth.File.{Line, IsUser, print_file, keys_of, credentials-print_file}
use passkey.Auth.Approval.{run-IsApproved, IsApproved}
use passkey.Wifi.{SocketAddr, v4, is_local, Addresses, Peer, connect, magic}
use passkey.Wifi.Connect.{connect-link}
use passkey.Wifi.Profile.{IsPeer}
use passkey.Stack.{mark, is_auth, is_guard, add, pam_line, is_ours}

abbrev key : Credential
key = record { id = 1 ∷ []; key = 2 ∷ []; verification = true }

abbrev printed : Printed
printed = record { value = key; pad_id = 2; pad_key = 2 }

abbrev file : List Line
file =
    record { user = codes "you"; keys = [] }
    ∷ record { user = codes "me"; keys = printed ∷ [] }
    ∷ []

you_IsUser : IsUser (codes "you")
you_IsUser = (
  Without-check 58 (codes "you") refl,
  Without-check 10 (codes "you") refl,
  Without-check 13 (codes "you") refl,
)

me_IsUser : IsUser (codes "me")
me_IsUser = (
  Without-check 58 (codes "me") refl,
  Without-check 10 (codes "me") refl,
  Without-check 13 (codes "me") refl,
)

credentials-print_file_example :
    credentials (print_file file) (codes "me") ≡ keys_of (codes "me") file
credentials-print_file_example =
    credentials-print_file (codes "me") file (Without-check 58 (codes "me") refl) (
      (you_IsUser, tt),
      ((me_IsUser, (((omega arith, tt), (omega arith, tt), (λ e. cc e)), tt)), tt),
    )

-- A helper that is given one key and a signature over it.
abbrev calls : Builder
calls = record {
  random = true;
  makes_assertion = true;
  sets_rp = λ origin. true;
  sets_hash = true;
  allows = λ id. true;
}

abbrev fido : Fido
fido = record {
  read_file = λ path. some (codes "me:AQ==,Ag==,es256,+presence");
  devices = record {
    makes_list = true;
    manifest =
        some (record { vendor = 0x1209; product = 0x7ab1; path = codes "/dev/hidraw0" } ∷ []);
    makes_device = true;
    opens = λ path. true;
  };
  probe = calls;
  builder = calls;
  get = λ verification. true;
  count = 1;
  id = some (1 ∷ []);
  accepts = λ public. true;
  pipe = true;
}

abbrev args : List Text
args = codes "authfile=keys" ∷ codes "origin=pam://host" ∷ []

run-IsApproved_example :
    IsApproved fido (codes "me") (options no_options args) (run fido (codes "me" ∷ args)).0
unfolding run
run-IsApproved_example = run-IsApproved fido (codes "me") args refl

abbrev address : SocketAddr
address = record { ip = v4 192 168 1 10; port_number = 40719; flow_info = 0; scope_id = 0 }

abbrev shown : Text
shown = codes "192.168.1.10:40719"

abbrev addresses : Addresses
addresses = record {
  parse_socket = λ text. if same text shown then some address else none;
  parse_ip = λ text. none;
  print = λ a. shown;
}

abbrev pin : List ℕ
pin = replicate 32 17

abbrev peer : Peer
peer = record { address = address; pin = pin; secret = pin }

abbrev greeting : List ℕ
greeting = 0 ∷ 0 ∷ 0 ∷ 1 ∷ 0x22 ∷ 0 ∷ 1 ∷ 65 ∷ []

connect-link_example :
    (some pin ≡ some peer.pin)
    × ((connect peer (some pin) greeting).0 ≡ magic ++ peer.secret)
    × (take 5 greeting ≡ 0 ∷ 0 ∷ 0 ∷ 1 ∷ 0x22 ∷ [])
unfolding connect
connect-link_example = connect-link peer (some pin) greeting (codes "A (Wi-Fi)") refl

All-replicate : (P : ℕ → Type 0) (n k : ℕ) → P k → All P (replicate n k)
All-replicate P zero k h = tt
All-replicate P (suc n) k h = (h, All-replicate P n k h)

peer-IsPeer : IsPeer peer
unfolding is_local
peer-IsPeer = (
  refl,
  omega arith,
  All-replicate IsByte 32 17 (omega arith),
  refl,
  All-replicate IsByte 32 17 (omega arith),
  refl,
)

-- A service with a guard in front of its password module.
abbrev service : List Text
service =
    codes "#%PAM-1.0" ∷ codes "auth required pam_nologin.so" ∷ codes "auth include system-auth" ∷ []

abbrev wanted : Text
wanted = pam_line (codes "host") true (codes "sudo")

abbrev with_line : List Text
with_line =
    codes "#%PAM-1.0"
    ∷ codes "auth required pam_nologin.so"
    ∷ mark
    ∷ wanted
    ∷ codes "auth include system-auth"
    ∷ []

added : add wanted service ≡ some with_line
unfolding add same is_ours is_auth is_guard contains pam_line trim_start strip_prefix is_whitespace
added = refl
