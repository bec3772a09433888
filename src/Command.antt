-- ===== src/Command.antt =====
-- src/cli.rs, `run`: which command the arguments name, and who may give it.
pub mod Rights
use passkey.Base.{
  ℕ, Bool, true, false, not, ◌&&◌, ◌||◌, List, [], ◌∷◌, ◌++◌, Option, none, some, if◌then◌else◌,
  ◌==◌, same, length,
}
use passkey.Base.Text.{Text, codes}
use passkey.Client.{head?}
use passkey.Hid.{is_some}
use passkey.Wifi.{SocketAddr, Addresses, endpoint}

-- What a command does, once it is known and may be given. Those that root gives write to the
-- system's files.
pub data Action : Type 0 where
  add : Option Text → Action
  wifi_add : Text → Action
  wifi_list : Action
  wifi_remove : Text → Action
  list : Action
  remove : Text → Action
  status : Action
  uninstall : Action
  root_wifi_add : Action
  root_wifi_list : Action
  root_wifi_remove : Text → Action
  root_configure : Text → Action
  root_use : Option Text → Option Text → Action
  root_store : Text → Action
  root_remove : Text → Text → Action
  root_uninstall : Action
  help : Action
  wrong : Action

-- `require_root`.
abbrev pub as_root : ℕ → Action → Action
as_root euid action = if euid == 0 then action else wrong

-- `args.first().ok_or(…)`.
abbrev pub first_or_wrong : (Text → Action) → List Text → Action
first_or_wrong f [] = wrong
first_or_wrong f (a ∷ as') = f a

abbrev pub two_or_wrong : (Text → Text → Action) → List Text → Action
two_or_wrong f (a ∷ b ∷ rest) = f a b
two_or_wrong f _ = wrong

abbrev second? : List Text → Option Text
second? (a ∷ b ∷ rest) = some b
second? _ = none

-- `wifi_command`. The address is checked before anything is asked or done.
abbrev pub if_endpoint : Option SocketAddr → Action → Action
if_endpoint none action = wrong
if_endpoint (some a) action = action

unfoldable pub wifi_command : Addresses → List Text → Action
unfolding endpoint same
wifi_command w (verb ∷ []) = if same verb (codes "list") then wifi_list else wrong
wifi_command w (verb ∷ address ∷ []) =
    if same verb (codes "add")
    then if_endpoint (endpoint w address) (wifi_add address)
    else if same verb (codes "remove")
    then if_endpoint (endpoint w address) (wifi_remove address)
    else wrong
wifi_command w _ = wrong

unfoldable pub run : Addresses → ℕ → Text → List Text → Action
unfolding wifi_command same
run w euid command args =
    if same command (codes "add")
    then add (head? args)
    else if same command (codes "wifi")
    then wifi_command w args
    else if same command (codes "root-wifi-add")
    then as_root euid root_wifi_add
    else if same command (codes "root-wifi-list")
    then as_root euid root_wifi_list
    else if same command (codes "root-wifi-remove")
    then as_root euid (first_or_wrong root_wifi_remove args)
    else if same command (codes "list")
    then list
    else if same command (codes "remove")
    then first_or_wrong remove args
    else if same command (codes "status")
    then status
    else if same command (codes "uninstall")
    then uninstall
    else if same command (codes "root-configure")
    then as_root euid (first_or_wrong root_configure args)
    else if same command (codes "root-use")
    then as_root euid (root_use (head? args) (second? args))
    else if same command (codes "root-store")
    then as_root euid (first_or_wrong root_store args)
    else if same command (codes "root-remove")
    then as_root euid (two_or_wrong root_remove args)
    else if same command (codes "root-uninstall")
    then as_root euid root_uninstall
    else if same command (codes "help")
        || same command (codes "--help")
        || same command (codes "-h")
    then help
    else wrong
