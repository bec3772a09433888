-- ===== src/Loops.antt =====
-- src/daemon.rs: what the threads that look for phones and watch over the connections do in one
-- round: `update_loop`, `keepalive_loop`, `wifi_loop`, `adb_loop` and the Bluetooth profile. What a
-- connection attempt, a ping or a clock gives is an argument.
pub mod Closed
pub mod Kept
pub mod Wanted
pub mod Bluetooth
pub mod Waiting
use passkey.Base.{
  ℕ, suc, ◌+◌, Bool, true, false, not, ◌&&◌, ◌||◌, List, [], ◌∷◌, ◌++◌, Option, none, some,
  if◌then◌else◌, ltb, ◌==◌, same, any, map,
}
use passkey.Base.Text.{Text, codes, strip_prefix, replace}
use passkey.Hid.{is_some, live_links}
use passkey.Link.{Link, new}
use passkey.Daemon.{Daemon}
use passkey.Links.{close}
use passkey.Uhid.{add}
use passkey.Wifi.{Addresses, Peer}
use passkey.Wifi.Directory.{Entry, load_from, id}
use passkey.Adb.{behind_dev, bt_address}

-- One round of `update_loop`: whether the daemon exits, to be started anew.
unfoldable exits : Bool → Daemon → Bool
exits replaced s = replaced && not (is_some s.busy)

-- The links of a list that meet a test are closed.
unfoldable pub close_where : (Link → Bool) → List Link → Daemon → Daemon
close_where p [] s = s
close_where p (link ∷ ls) s = close_where p ls (if p link then close s link.serial else s)

-- One round of `keepalive_loop`; `pongs` tells which links answer a ping in time.
unfoldable pub keepalive : (ℕ → Bool) → Daemon → Daemon
unfolding close_where live_links
keepalive pongs s = close_where (λ link. not (pongs link.serial)) (live_links s) s

-- `format!("wifi:{}@{}", peer.id(), peer.address)`.
abbrev pub wifi_name : Addresses → Peer → Text
wifi_name w p = codes "wifi:" ++ (id p ++ (codes "@" ++ w.print p.address))

abbrev pub wifi_device : Peer → Text
wifi_device p = codes "wifi:" ++ id p

abbrev pub is_unwanted : List Text → Link → Bool
is_unwanted wanted link =
    is_some (strip_prefix (codes "wifi:") link.name)
    && not (any (λ name. same name link.name) wanted)

-- What the attempt to connect to a peer gives: the label, and the serial that stands for the new
-- link's identity.
abbrev pub add_found : Addresses → Bool → Peer → Daemon → Option (Text × ℕ) → Daemon
add_found w opens p s none = s
add_found w opens p s (some (label, serial)) =
    add opens s (new serial (wifi_name w p) 1 label (wifi_device p))

unfoldable pub add_peers :
    Addresses → Bool → (Peer → Option (Text × ℕ)) → List Peer → Daemon → Daemon
unfolding live_links same add new
add_peers w opens connects [] s = s
add_peers w opens connects (p ∷ ps) s = add_peers w opens connects ps (
    if any (λ link. same link.name (wifi_name w p)) (live_links s)
    then s
    else add_found w opens p s (connects p))

-- One round of `wifi_loop`, over the directory of profiles. Where they cannot be loaded nothing
-- is done.
abbrev pub with_peers :
    Addresses → Bool → (Peer → Option (Text × ℕ)) → Daemon → Option (List Peer) → Daemon
with_peers w opens connects s none = s
with_peers w opens connects s (some peers) =
    add_peers w opens connects peers
      (close_where (is_unwanted (map (wifi_name w) peers)) (live_links s) s)

unfoldable pub wifi_round :
    Addresses → Bool → (Peer → Option (Text × ℕ)) → Option (List Entry) → Daemon → Daemon
unfolding close_where live_links strip_prefix same add_peers load_from
wifi_round w opens connects directory s = with_peers w opens connects s (load_from w directory)

-- How an attempt to connect to a device of adb ends: with a link that is added, with the answer to
-- the ping but a socket that does not take its options, or otherwise.
pub data Attempt : Type 0 where
  made : Text → Text → ℕ → Attempt
  unset : Attempt
  failed : Attempt

-- A device of adb in one round of `adb_loop`, with the seconds at which the retry table is read
-- and written.
pub record Try : Type 0 where
  pub serial_number : Text
  pub now : ℕ
  pub later : ℕ
  pub attempt : Attempt

-- The retry table.
abbrev pub Retry : Type 0
Retry = List (Text × ℕ)

unfoldable pub until : Text → Retry → Option ℕ
unfolding same
until k [] = none
until k ((j, t) ∷ m) = if same j k then some t else until k m

unfoldable pub forget : Text → Retry → Retry
unfolding same
forget k [] = []
forget k ((j, t) ∷ m) = if same j k then forget k m else (j, t) ∷ forget k m

abbrev pub is_waiting : Option ℕ → ℕ → Bool
is_waiting none now = false
is_waiting (some t) now = ltb now t

abbrev pub usb_name : Text → Text
usb_name serial_number = codes "usb:" ++ serial_number

abbrev pub after_attempt : Bool → Try → Attempt → Daemon × Retry → Daemon × Retry
after_attempt opens t (made label device serial) (s, retry) = (
  add opens s (new serial (usb_name t.serial_number) 0 label device),
  forget t.serial_number retry,
)
after_attempt opens t unset (s, retry) = (s, retry)
after_attempt opens t failed (s, retry) =
    (s, (t.serial_number, t.later + 10) ∷ forget t.serial_number retry)

-- The loop over the serial numbers; `names` are those of the links at its start.
unfoldable pub usb_tries : Bool → List Text → List Try → Daemon × Retry → Daemon × Retry
unfolding same until forget add new
usb_tries opens names [] state = state
usb_tries opens names (t ∷ ts) state = usb_tries opens names ts (
    if any (λ name. same name (usb_name t.serial_number)) names
      || is_waiting (until t.serial_number state.1) t.now
    then state
    else after_attempt opens t t.attempt state)

unfoldable pub usb_round : Bool → List Try → Daemon × Retry → Daemon × Retry
unfolding live_links usb_tries
usb_round opens tries state =
    usb_tries opens (map (λ link. link.name) (live_links state.0)) tries state

-- The rounds of `adb_loop`.
unfoldable pub usb_rounds : Bool → List (List Try) → Daemon × Retry → Daemon × Retry
unfolding usb_round
usb_rounds opens [] state = state
usb_rounds opens (tries ∷ rounds) state = usb_rounds opens rounds (usb_round opens tries state)

-- `Profile::new_connection`, for a path and the label that BlueZ has for it. The new link has no
-- serial where the socket does not take its mode or the link cannot be made.
abbrev pub bt_name : Text → Text
bt_name address = codes "bt:" ++ address

abbrev label_or : Text → Option Text → Text
label_or address none = address
label_or address (some label) = label

abbrev pub add_bluetooth : Bool → Text → Option Text → Daemon → Option ℕ → Daemon
add_bluetooth opens address label s none = s
add_bluetooth opens address label s (some serial) =
    add opens s (new serial (bt_name address) 2 (label_or address label) address)

unfoldable pub new_connection : Bool → Option ℕ → Text → Option Text → Daemon → Daemon
unfolding bt_address add new
new_connection opens socket path label s = add_bluetooth opens (bt_address path) label s socket

-- `Profile::request_disconnection`.
abbrev pub close_named : Daemon → Option Text → Daemon
close_named s none = s
close_named s (some rest) =
    close_where (λ link. same link.name (bt_name (replace 95 58 rest))) (live_links s) s

unfoldable pub request_disconnection : Text → Daemon → Daemon
unfolding behind_dev close_where live_links same
request_disconnection path s = close_named s (behind_dev path)
