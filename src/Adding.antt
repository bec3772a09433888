-- ===== src/Adding.antt =====
-- src/cli.rs, `add` as a whole: the commands that it has root run, in their order, with each return
-- on the way. What the computer, the user and pamu2fcfg give is one record.
pub mod Cleared
pub mod Names
pub mod Registered
use passkey.Base.{
  ℕ, Bool, true, false, not, ◌&&◌, ◌||◌, List, [], ◌∷◌, ◌++◌, Option, none, some, if◌then◌else◌,
  same, any, map, find,
}
use passkey.Base.Text.{Text, codes, lines, split, strip_prefix, contains, trim, first}
use passkey.Base.Decimal.{decimal}
use passkey.Hid.{is_empty, is_some}
use passkey.Registry.{Store, is_break, or_default, names_for}
use passkey.Client.{
  connected_devices, Selection, selected, refused, select_connection, base_of, default_name,
}
use passkey.Environment.{Computer, Verdict, ready, check_environment}

-- The commands for `privileged`, with the text for the input of `root-store`.
pub data Call : Type 0 where
  configure : Text → Call
  use_device : Text → Text → Call
  clear : Call
  store : Text → Text → Call

-- `tokens` is what fido2-token lists once the wait is over. There is no `user` or `hostname` where
-- the system does not tell it, no `typed` line where it cannot be read, and no output of pamu2fcfg
-- where that fails.
pub record World : Type 0 where
  pub user : Option Text
  pub computer : Computer
  pub tokens : Option Text
  pub devices : Option Text
  pub terminal : Bool
  pub answers : List Text
  pub files : Store
  pub typed : Option Text
  pub pid : ℕ
  pub hostname : Option Text
  pub pamu2fcfg : Text → Text → Option Text
  pub succeeds : Call → Bool

-- `virtual_device`, over the output of fido2-token.
abbrev path_of : Option Text → Option Text
path_of none = none
path_of (some line) = some (first (split 58 line))

abbrev listed_device : Option Text → Option Text
listed_device none = none
listed_device (some output) =
    path_of (find (λ line. contains line (codes "vendor=0x1209, product=0x7ab1")) (lines output))

unfoldable pub virtual_device : Option Text → Option Text
unfolding lines contains split
virtual_device output = listed_device output

-- The calls of a part of `add`, and whether it succeeds.
abbrev pub Outcome : Type 0
Outcome = List Call × Bool

abbrev pub input_of : Text → Text → Text
input_of credential name = credential ++ (codes "\n" ++ (name ++ codes "\n"))

abbrev pub is_credential : Text → Bool
is_credential credential =
    is_some (strip_prefix (codes ":") credential) && contains credential (codes ",")

abbrev pub store_credential : World → Text → Text → Option Text → Outcome
store_credential w user name none = ([], false)
store_credential w user name (some output) =
    let call = store user (input_of (trim output) name) in
    if not (is_credential (trim output)) then ([], false) else (call ∷ [], w.succeeds call)

abbrev pub with_hostname : World → Text → Text → Option Text → Outcome
with_hostname w user name none = ([], false)
with_hostname w user name (some host) =
    store_credential w user name (w.pamu2fcfg user (codes "pam://" ++ host))

-- `replace(['\t', '\n', '\r'], " ")`.
abbrev pub clean : Text → Text
clean name = map (λ c. if is_break c then 32 else c) name

abbrev pub trimmed : Option Text → Option Text
trimmed none = none
trimmed (some line) = some (trim line)

unfoldable pub entered : World → Option Text → Option Text
unfolding trim
entered w given =
    let name : Text = trim (or_default given) in
    if is_empty name && w.terminal then trimmed w.typed else some name

abbrev pub or_name : Text → Text → Text
or_name default name = if is_empty name then default else name

abbrev pub with_name : World → Text → List Text → Option Text → Option Text → Outcome
with_name w user existing (some default) (some name) =
    let cleaned : Text = clean (or_name default name) in
    if any (λ old. same old cleaned) existing
    then ([], false)
    else with_hostname w user cleaned w.hostname
with_name w user existing _ _ = ([], false)

-- From the names that exist to the end.
unfoldable pub register : World → Text → Option Text → Text → Outcome
unfolding names_for default_name entered same strip_prefix contains trim
register w user given base =
    let existing : List Text = names_for user w.files in
    with_name w user existing (default_name existing base) (entered w given)

-- The drop of `ClearUse` comes last, however `register` returns.
abbrev pub used : World → Call → Outcome → Outcome
used w call (calls, ok) =
    if w.succeeds call then (call ∷ (calls ++ clear ∷ []), ok) else (call ∷ [], false)

unfoldable pub with_selection : World → Text → Option Text → Selection → Outcome
unfolding register base_of decimal
with_selection w user given refused = ([], false)
with_selection w user given (selected none) = register w user given (base_of none)
with_selection w user given (selected (some (id, label))) =
    used w (use_device id (decimal w.pid)) (register w user given (base_of (some (id, label))))

abbrev pub is_ready : Verdict → Bool
is_ready ready = true
is_ready _ = false

abbrev after_call : Call → Outcome → Outcome
after_call call (calls, ok) = (call ∷ calls, ok)

abbrev pub for_user : World → Option Text → Option Text → Outcome
for_user w given none = ([], false)
for_user w given (some user) =
    if not (is_ready (check_environment w.computer))
    then ([], false)
    else if not (w.succeeds (configure user))
    then (configure user ∷ [], false)
    else if not (is_some (virtual_device w.tokens))
    then (configure user ∷ [], false)
    else after_call (configure user) (
        with_selection w user given
          (select_connection (connected_devices w.devices) w.terminal w.answers))

unfoldable pub add : World → Option Text → Outcome
unfolding check_environment virtual_device with_selection select_connection connected_devices
add w given = for_user w given w.user
