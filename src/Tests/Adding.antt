-- ===== src/Tests/Adding.antt =====
-- A user adds a phone.
use passkey.Base.{◌≡◌, refl, sym, ap, true, false, [], ◌∷◌, ◌++◌, none, some, any, same}
use mathlib.Core.Option.{some-injective}
use passkey.Base.Text.{Text, codes, trim, split}
use passkey.Base.Split.{Without-check}
use passkey.Base.Lines.{IsLine-check}
use passkey.Registry.{names_for, root_store}
use passkey.Registry.Stored.{IsCredential, IsName, registration, stored}
use passkey.Base.{In}
use passkey.Adding.{store, World, add}
use passkey.Adding.Cleared.{use_after, add-cleared}
use passkey.Adding.Registered.{add-registered}
use passkey.Tests.Computers.{computer}

-- pamu2fcfg prints a key behind a colon.
abbrev key : Text
key = codes "AQ==,Ag==,es256,+presence"

key-IsCredential : IsCredential key
unfolding split
key-IsCredential = record {
  line = IsLine-check key refl refl;
  no_colon = Without-check 58 key refl;
  no_tab = Without-check 9 key refl;
  handle = refl;
}

-- Two phones are connected; the user takes the second one and its name.
abbrev world : World
world = record {
  user = some (codes "me");
  computer = computer;
  tokens = some (codes "/dev/hidraw0: vendor=0x1209, product=0x7ab1\n");
  devices = some (codes "usb:1\tPixel\nusb:2\tTablet\n");
  terminal = true;
  answers = codes "3\n" ∷ codes "2\n" ∷ [];
  files = record { keys = none; names = none };
  typed = some (codes "\n");
  pid = 5;
  hostname = some (codes "host");
  pamu2fcfg = λ user origin. some (codes ":" ++ (key ++ codes "\n"));
  succeeds = λ call. true;
}

prints :
    (user origin output : Text) → world.pamu2fcfg user origin ≡ some output → trim output ≡ 58 ∷ key
unfolding trim
prints user origin output e =
    ap trim (sym (some-injective (codes ":" ++ (key ++ codes "\n")) output e))

succeeded : (add world none).1 ≡ true
unfolding add
succeeded = refl

add-cleared_example : use_after (λ call. true) (add world none).0 none ≡ none
add-cleared_example = add-cleared world none refl

add-registered_example :
    (user name : Text) × (some (codes "me") ≡ some user)
    × IsName name
    × (any (λ old. same old name) (names_for user world.files) ≡ false)
    × In (store user (registration key name)) (add world none).0
    × (world.succeeds (store user (registration key name)) ≡ true)
    × (root_store user (registration key name) world.files
        ≡ some (stored user key name world.files))
add-registered_example = add-registered world none key key-IsCredential prints succeeded
