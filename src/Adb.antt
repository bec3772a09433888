-- ===== src/Adb.antt =====
-- src/daemon.rs, USB: the trust in the adb server, the requests to it, and how the device of a
-- serial number is known. What a socket gives enters as the bytes that arrive.
pub mod Trust
pub mod Listing
pub mod Identity
use passkey.Base.{
  ℕ, zero, suc, ◌+◌, ◌-◌, ◌*◌, ◌/◌, ◌%◌, ◌^◌, Bool, true, false, not, ◌&&◌, ◌||◌, List, [], ◌∷◌,
  ◌++◌, Option, none, some, if◌then◌else◌, ltb, leb, ◌==◌, length, take, drop, same, any,
}
use passkey.Base.Text.{
  Text, codes, lines, split, split_whitespace, parse_u32, strip_suffix, strip_prefix, trim, replace,
}
use passkey.Hid.{is_some}
use passkey.Wifi.{hex_digit, hex_value}
use passkey.Registry.{get_elem?}

pub record TcpRow : Type 0 where
  pub local_end : Text
  pub remote_end : Text
  pub state : Text
  pub uid : ℕ

-- One line of /proc/net/tcp.
abbrev row_of : Option Text → Option Text → Option Text → Option ℕ → Option TcpRow
row_of (some l) (some r) (some s) (some u) =
    some (record { local_end = l; remote_end = r; state = s; uid = u })
row_of _ _ _ _ = none

abbrev parsed_uid : Option Text → Option ℕ
parsed_uid none = none
parsed_uid (some t) = parse_u32 t

unfoldable tcp_row : Text → Option TcpRow
unfolding split_whitespace parse_u32
tcp_row line =
    let fields : List Text = split_whitespace line in
    row_of (get_elem? fields 1) (get_elem? fields 2) (get_elem? fields 3)
      (parsed_uid (get_elem? fields 7))

abbrev keep_row : Option TcpRow → List TcpRow → List TcpRow
keep_row none rows = rows
keep_row (some row) rows = row ∷ rows

abbrev tcp_rows : List Text → List TcpRow
tcp_rows [] = []
tcp_rows (line ∷ ls) = keep_row (tcp_row line) (tcp_rows ls)

-- `proc_tcp`, for the content of /proc/net/tcp.
unfoldable pub proc_tcp : Option Text → Option (List TcpRow)
unfolding lines tcp_row
proc_tcp none = none
proc_tcp (some text) = some (tcp_rows (drop 1 (lines text)))

-- `allowed_adb_uids`: root, the daemon's user, and the user of PASSKEY_ADB_USER if there is one.
unfoldable allowed_adb_uids : ℕ → Option ℕ → List ℕ
allowed_adb_uids euid none = 0 ∷ euid ∷ []
allowed_adb_uids euid (some uid) = 0 ∷ euid ∷ uid ∷ []

abbrev pub is_allowed : List ℕ → ℕ → Bool
is_allowed allowed uid = any (λ u. u == uid) allowed

abbrev pub any_row : (TcpRow → Bool) → Option (List TcpRow) → Bool
any_row p none = false
any_row p (some rows) = any p rows

abbrev server_row : List ℕ → TcpRow → Bool
server_row allowed row =
    (same row.local_end (codes "0100007F:13AD") || same row.local_end (codes "00000000:13AD"))
    && (same row.state (codes "0A") && is_allowed allowed row.uid)

unfoldable adb_server_trusted : List ℕ → Option Text → Bool
unfolding proc_tcp same
adb_server_trusted allowed content = any_row (server_row allowed) (proc_tcp content)

-- `{:0wX}` of a number with at most `w` digits.
abbrev upper_digit : ℕ → ℕ
upper_digit n = if ltb n 10 then n + 48 else n - 10 + 65

unfoldable upper_hex : ℕ → ℕ → Text
upper_hex zero n = []
upper_hex (suc w) n = upper_hex w (n / 16) ++ upper_digit (n % 16) ∷ []

-- The local end of the daemon's own socket, an IPv4 address and a port.
pub record LocalEnd : Type 0 where
  pub a : ℕ
  pub b : ℕ
  pub c : ℕ
  pub d : ℕ
  pub port : ℕ

unfoldable pub printed_end : LocalEnd → Text
unfolding upper_hex
printed_end e =
    upper_hex 8 (e.a + 256 * e.b + 65536 * e.c + 16777216 * e.d) ++ 58 ∷ upper_hex 4 e.port

abbrev pub peer_row : List ℕ → Text → TcpRow → Bool
peer_row allowed ours row =
    same row.local_end (codes "0100007F:13AD")
    && (same row.remote_end ours && is_allowed allowed row.uid)

-- `adb_peer_trusted`; there is no local end where it cannot be read or is no IPv4 address.
unfoldable pub adb_peer_trusted : List ℕ → Option Text → Option LocalEnd → Bool
unfolding proc_tcp same printed_end
adb_peer_trusted allowed content none = false
adb_peer_trusted allowed content (some e) =
    any_row (peer_row allowed (printed_end e)) (proc_tcp content)

-- `{:04x}` of the length of a service name, which is at most 65535.
unfoldable pub lower_hex : ℕ → ℕ → Text
lower_hex zero n = []
lower_hex (suc w) n = lower_hex w (n / 16) ++ hex_digit (n % 16) ∷ []

-- `adb_request`: what is sent, and what arrives behind the answer OKAY. `trusted` says that the
-- stream was given, or that the peer of the new one is trusted.
unfoldable pub adb_request : Bool → Text → List ℕ → List ℕ × Option (List ℕ)
unfolding lower_hex same
adb_request trusted service incoming = if not trusted then ([], none) else (
  lower_hex 4 (length service) ++ service,
  if same (take 4 incoming) (codes "OKAY") then some (drop 4 incoming) else none,
)

-- `usize::from_str_radix(_, 16)` on four characters.
abbrev pub hex_step : Option ℕ → Option ℕ → Option ℕ
hex_step (some n) (some d) = some (n * 16 + d)
hex_step _ _ = none

abbrev pub hex_number : Option ℕ → Text → Option ℕ
hex_number n [] = n
hex_number n (c ∷ cs) = hex_number (hex_step n (hex_value c)) cs

unfoldable pub from_hex : Text → Option ℕ
unfolding hex_value
from_hex [] = none
from_hex (c ∷ []) = if c == 43 then none else hex_number (some 0) (c ∷ [])
from_hex (c ∷ d ∷ cs) =
    if c == 43 then hex_number (some 0) (d ∷ cs) else hex_number (some 0) (c ∷ d ∷ cs)

abbrev pub or_zero : Option ℕ → ℕ
or_zero none = 0
or_zero (some n) = n

abbrev pub keep_serial : Option Text → List Text → List Text
keep_serial none rest = rest
keep_serial (some serial) rest = serial ∷ rest

abbrev pub serials_of : List Text → List Text
serials_of [] = []
serials_of (line ∷ ls) = keep_serial (strip_suffix (codes "\tdevice") line) (serials_of ls)

-- `adb_devices`, over the bytes behind OKAY, which are ASCII. No value stands for an error.
abbrev pub listed : ℕ → List ℕ → Option (List Text)
listed size incoming =
    if ltb (length incoming) size then none else some (serials_of (lines (take size incoming)))

unfoldable pub adb_devices : List ℕ → Option (List Text)
unfolding from_hex lines strip_suffix
adb_devices incoming =
    if ltb (length incoming) 4
    then none
    else listed (or_zero (from_hex (take 4 incoming))) (drop 4 incoming)

-- `adb_setting`, over its output.
unfoldable adb_setting : Text → Text
unfolding trim same
adb_setting output = if same (trim output) (codes "null") then [] else trim output

unfoldable pub is_bt_address : Text → Bool
unfolding split hex_value
is_bt_address value =
    let fields : List Text = split 58 value in
    length fields == 6
    && not (
        any (λ field. not (length field == 2 && not (any (λ c. not (is_some (hex_value c))) field)))
          fields)

abbrev or_empty : Option Text → Text
or_empty none = []
or_empty (some t) = t

-- `adb_device_id`, for the setting if it could be read. `to_uppercase` is the library's.
unfoldable pub adb_device_id : (Text → Text) → Text → Option Text → Text
unfolding is_bt_address
adb_device_id to_uppercase serial setting =
    let address : Text = to_uppercase (or_empty setting) in
    if is_bt_address address then address else codes "usb:" ++ serial

-- `Profile::new_connection`: the address in the path of a device, behind the last "dev_".
abbrev pub later_cut : Text → Option Text → Option Text
later_cut now (some rest) = some rest
later_cut now none = strip_prefix (codes "dev_") now

unfoldable pub behind_dev : Text → Option Text
unfolding strip_prefix
behind_dev [] = none
behind_dev (c ∷ s) = later_cut (c ∷ s) (behind_dev s)

abbrev pub address_or : Text → Option Text → Text
address_or path none = path
address_or path (some rest) = replace 95 58 rest

unfoldable pub bt_address : Text → Text
unfolding behind_dev
bt_address path = address_or path (behind_dev path)
