-- ===== src/Token.antt =====
-- src/pam_auth.rs, the calls of libfido2 in their order: `Device::open`, which looks for the virtual
-- key, and `Assertion::new`, which builds a request.
pub mod Virtual
use passkey.Base.{
  ℕ, Bool, true, false, not, ◌&&◌, ◌||◌, List, [], ◌∷◌, Option, none, some, if◌then◌else◌, ◌==◌,
  any, find,
}
use passkey.Base.Text.{Text}

pub record Info : Type 0 where
  pub vendor : ℕ
  pub product : ℕ
  pub path : Text

-- Whether the list and the device can be made, the devices that the manifest has (none if it fails),
-- and whether a path opens.
pub record Devices : Type 0 where
  pub makes_list : Bool
  pub manifest : Option (List Info)
  pub makes_device : Bool
  pub opens : Text → Bool

abbrev pub is_virtual : Info → Bool
is_virtual info = info.vendor == 0x1209 && info.product == 0x7ab1

abbrev pub path_of : Option Info → Option Text
path_of none = none
path_of (some info) = some info.path

abbrev pub path_in : Option (List Info) → Option Text
path_in none = none
path_in (some infos) = path_of (find is_virtual infos)

abbrev pub opened : Devices → Option Text → Option Text
opened d none = none
opened d (some path) = if not d.makes_device then none else if d.opens path then some path else none

-- `Device::open`: the path that is open.
unfoldable pub open_device : Devices → Option Text
open_device d = if not d.makes_list then none else opened d (path_in d.manifest)

-- What the calls for one request give.
pub record Builder : Type 0 where
  pub random : Bool
  pub makes_assertion : Bool
  pub sets_rp : Text → Bool
  pub sets_hash : Bool
  pub allows : List ℕ → Bool

abbrev allows_all : Builder → List (List ℕ) → Bool
allows_all b [] = true
allows_all b (id ∷ ids) = if not (b.allows id) then false else allows_all b ids

-- `Assertion::new`, for the ids of the keys: whether there is a request.
unfoldable pub new_assertion : Builder → Text → List (List ℕ) → Bool
new_assertion b origin ids =
    if not b.random
    then false
    else if not b.makes_assertion
    then false
    else if not (b.sets_rp origin) || not b.sets_hash
    then false
    else allows_all b ids
