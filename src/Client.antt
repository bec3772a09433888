-- ===== src/Client.antt =====
-- src/cli.rs, `add`: the devices that the daemon lists, the choice of one of them, the name that
-- is offered for it, and the file by which the daemon is told the choice.
pub mod Listed
pub mod Used
pub mod Naming
use passkey.Base.{
  ℕ, zero, suc, ◌+◌, ◌-◌, ◌≤◌, Bool, true, false, not, List, [], ◌∷◌, ◌++◌, Option, none, some,
  if◌then◌else◌, leb, length, same, any, map,
}
use passkey.Base.Text.{Text, codes, lines, split_once, trim, parse_usize}
use passkey.Base.Decimal.{decimal}
use passkey.Hid.{is_empty}
use passkey.Registry.{read_optional, get_elem?}

-- `connected_devices`, over the content of the file `devices`.
abbrev pub or_twice : Text → Option (Text × Text) → Text × Text
or_twice line none = (line, line)
or_twice line (some fields) = fields

abbrev pub keep_named : Text × Text → List (Text × Text) → List (Text × Text)
keep_named (id, label) rest = if not (is_empty id) then (id, label) ∷ rest else rest

unfoldable pub devices_of : List Text → List (Text × Text)
unfolding split_once
devices_of [] = []
devices_of (line ∷ ls) = keep_named (or_twice line (split_once 9 line)) (devices_of ls)

unfoldable pub connected_devices : Option Text → List (Text × Text)
unfolding devices_of lines
connected_devices content = devices_of (lines (read_optional content))

-- `select_connection`. An answer is a line of the terminal, whose end is the end of the list.
pub data Selection : Type 0 where
  selected : Option (Text × Text) → Selection
  refused : Selection

abbrev pub answered : Option (Text × Text) → Selection → Selection
answered none rest = rest
answered (some device) rest = selected (some device)

abbrev device_at : List (Text × Text) → Option ℕ → Option (Text × Text)
device_at devices none = none
device_at devices (some index) = get_elem? devices (index - 1)

unfoldable pub ask : List (Text × Text) → List Text → Selection
unfolding trim parse_usize
ask devices [] = refused
ask devices (answer ∷ answers) =
    answered (device_at devices (parse_usize (trim answer))) (ask devices answers)

abbrev pub head? {ℓ} : {A : Type ℓ} → List A → Option A
head? [] = none
head? (x ∷ xs) = some x

unfoldable pub select_connection : List (Text × Text) → Bool → List Text → Selection
unfolding ask
select_connection devices terminal answers =
    if leb (length devices) 1
    then selected (head? devices)
    else if not terminal
    then refused
    else ask devices answers

-- `root_use`: the content of the file `use` after it, `none` if there is no file. The result has no
-- value where it is an error.
unfoldable pub root_use : Option Text → Option Text → Option (Option Text)
root_use none pid = some none
root_use (some device) none = none
root_use (some device) (some pid) = some (some (device ++ (codes " " ++ (pid ++ codes "\n"))))

-- The label of the device that was chosen.
unfoldable pub base_of : Option (Text × Text) → Text
unfolding trim
base_of none = codes "Android device"
base_of (some (id, label)) = if is_empty (trim label) then codes "Android device" else trim label

-- The name that is offered: this base, with the first number from 2 on that makes it new. The fuel
-- is for the rounds of the loop.
abbrev pub numbered : Text → ℕ → Text
numbered base suffix = base ++ (codes " " ++ decimal suffix)

unfoldable pub default_loop : ℕ → List Text → Text → Text → ℕ → Option Text
unfolding same decimal
default_loop zero existing base default suffix = none
default_loop (suc fuel) existing base default suffix =
    let again = default_loop fuel existing base (numbered base suffix) (suffix + 1) in
    if any (λ name. same name default) existing then again else some default

unfoldable pub default_name : List Text → Text → Option Text
unfolding default_loop
default_name existing base = default_loop (suc (length existing)) existing base base 2
