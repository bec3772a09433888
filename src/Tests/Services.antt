-- ===== src/Tests/Services.antt =====
-- PAM services, and the directory of paired phones.
use passkey.Base.{
  Bool, ℕ, zero, suc, ◌≡◌, refl, true, false, [], ◌∷◌, none, some, All, same, if◌then◌else◌,
  replicate, filter, arith,
}
use passkey.Base.Text.{Text, codes, lines, split, contains}
use passkey.Base.Decimal.{decimal}
use passkey.Base.Split.{Without-check}
use passkey.Base.Lines.{IsLine-check}
use passkey.Stack.{is_ours}
use passkey.Stack.Service.{Service, add_all, remove_all}
use passkey.Stack.Service.Restored.{IsPlain, IsPlainFile, IsUntouched}
use passkey.Stack.Service.Every.{all_services-restored}
use passkey.Auth.Base64.{IsByte}
use passkey.Wifi.{SocketAddr, v4, is_local, Addresses, Peer, endpoint, encode, decode, hex}
use passkey.Wifi.Profile.{IsPeer}
use passkey.Wifi.Directory.{Entry, is_conf, profile, load_from, save, remove}
use passkey.Wifi.Directory.Load.{IsPrivate, load_from-IsPrivate}
use passkey.Wifi.Directory.Restored.{save-restored}

abbrev text : Text
text = codes "auth required pam_nologin.so\nauth include system-auth\n"

plain : IsPlain text
unfolding lines split is_ours same contains
plain = record {
  whole = refl;
  no_return = Without-check 13 text refl;
  foreign = (refl, (refl, tt));
}

-- The file of sudo is the administrator's, and the others are the vendor's.
abbrev files : Text → Service
files service = record {
  etc = if same service (codes "sudo") then some text else none;
  vendor = some text;
  copied = false;
}

untouched : (service : Text) → IsUntouched (files service)
untouched service = record {
  etc_plain = by_name (same service (codes "sudo"));
  vendor_plain = plain;
  unmarked = refl;
}
  where
    by_name : (b : Bool) → IsPlainFile (if b then some text else none)
    by_name true = plain
    by_name false = tt

all_services-restored_example :
    let added = add_all (codes "host") true files in
    (remove_all added ≡ files) × (add_all (codes "host") true added ≡ added)
all_services-restored_example =
    all_services-restored (codes "host") true files (IsLine-check (codes "host") refl refl)
      untouched

abbrev address : SocketAddr
address = record { ip = v4 192 168 1 10; port_number = 40719; flow_info = 0; scope_id = 0 }

abbrev shown : Text
shown = codes "192.168.1.10:40719"

abbrev pub addresses : Addresses
addresses = record {
  parse_socket = λ text. if same text shown then some address else none;
  parse_ip = λ text. none;
  print = λ a. shown;
}

abbrev pub peer : Peer
peer = record { address = address; pin = replicate 32 17; secret = replicate 32 34 }

All-replicate : (P : ℕ → Type 0) (n k : ℕ) → P k → All P (replicate n k)
All-replicate P zero k h = tt
All-replicate P (suc n) k h = (h, All-replicate P n k h)

peer-IsPeer : IsPeer peer
unfolding is_local
peer-IsPeer = (
  refl,
  omega arith,
  All-replicate IsByte 32 17 (omega arith),
  refl,
  All-replicate IsByte 32 34 (omega arith),
  refl,
)

-- A file that is no profile.
abbrev readme : Entry
readme = record {
  name = codes "README";
  regular = true;
  uid = 1000;
  mode = 0o100644;
  size = 2;
  text = some (codes "hi");
}

load_from-IsPrivate_example :
    All IsPrivate (filter (λ e. is_conf e.name) (readme ∷ profile addresses peer ∷ []))
    × All IsPeer (peer ∷ [])
unfolding load_from decode encode hex endpoint same
load_from-IsPrivate_example =
    load_from-IsPrivate addresses (readme ∷ profile addresses peer ∷ []) (peer ∷ []) refl

save-restored_example :
    let saving = save addresses 7 peer (some (readme ∷ [])) in
    (saving.0 ≡ true)
    × (load_from addresses saving.1 ≡ some (peer ∷ []))
    × (remove addresses shown saving.1 ≡ (true, some (readme ∷ [])))
unfolding endpoint same hex decimal load_from
save-restored_example =
    save-restored addresses 7 peer peer-IsPeer
      (refl, Without-check 10 shown refl, Without-check 13 shown refl) (omega arith) shown
      (readme ∷ []) [] refl refl refl refl tt
