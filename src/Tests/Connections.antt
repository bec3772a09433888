-- ===== src/Tests/Connections.antt =====
-- How phones are found, listed and chosen.
use passkey.Base.{
  ◌⊎◌, if◌then◌else◌, not, ◌&&◌, ◌≡◌, refl, true, false, List, [], ◌∷◌, ◌++◌, none, some, All, any,
  map, same, ◌==◌, inr, arith, replicate,
}
use passkey.Base.Text.{is_whitespace, Text, codes, join}
use passkey.Base.Decimal.{decimal}
use passkey.Base.Split.{Without-check}
use passkey.Base.Lines.{IsLine-check}
use passkey.Daemon.{devices}
use passkey.Hid.{live_links}
use passkey.Links.{publish, by_device, close}
use passkey.Wifi.{Peer}
use passkey.Client.{connected_devices, root_use, default_name}
use passkey.Client.Listed.{IsShown, shown, connected_devices-publish}
use passkey.Client.Used.{chosen_device-root_use}
use passkey.Client.Naming.{default_name-new}
use passkey.Rounds.{chosen_device}
use passkey.Adb.{
  TcpRow, LocalEnd, proc_tcp, adb_peer_trusted, adb_request, adb_device_id, bt_address,
}
use passkey.Base.{In}
use passkey.Adb.Trust.{IsPeer, adb_request-IsPeer}
use passkey.Adb.Identity.{IsPair, adb_device_id-bt_address}
use passkey.Wifi.Directory.{profile, load_from}
use passkey.Fan.Rule.{has}
use passkey.Loops.Kept.{links-keepalive}
use passkey.Daemon.{Daemon}
use passkey.Adb.{behind_dev}
use passkey.Loops.Waiting.{others, usb_rounds-failed}
use passkey.Loops.{
  until, Try, failed, made, usb_round, usb_rounds, wifi_name, wifi_round, keepalive, bt_name,
  request_disconnection,
}
use passkey.Loops.Bluetooth.{links-request_disconnection}
use passkey.Loops.Wanted.{IsPaired, wifi_round-IsPaired}
use passkey.Tests.Services.{addresses, peer}
use passkey.Tests.Data.{idle, usb, wifi, bluetooth}

wifi-IsShown : IsShown wifi
wifi-IsShown = record {
  named = refl;
  device_line = IsLine-check (codes "a") refl refl;
  no_tab = Without-check 9 (codes "a") refl;
  label_line = IsLine-check (codes "Phone") refl refl;
}

usb-IsShown : IsShown usb
usb-IsShown = record {
  named = refl;
  device_line = IsLine-check (codes "a") refl refl;
  no_tab = Without-check 9 (codes "a") refl;
  label_line = IsLine-check (codes "Phone") refl refl;
}

bluetooth-IsShown : IsShown bluetooth
bluetooth-IsShown = record {
  named = refl;
  device_line = IsLine-check (codes "b") refl refl;
  no_tab = Without-check 9 (codes "b") refl;
  label_line = IsLine-check (codes "Phone") refl refl;
}

connected_devices-publish_example :
    (text : Text) × (publish idle ≡ record idle { done = devices text ∷ [] })
    × (connected_devices (some text) ≡ map shown (by_device idle))
connected_devices-publish_example =
    connected_devices-publish idle (wifi-IsShown, (usb-IsShown, (bluetooth-IsShown, tt)))

chosen_device-root_use_example :
    chosen_device (some (codes "usb:1 4096\n")) (λ pid. pid == 4096) ≡ some (codes "usb:1")
unfolding root_use decimal is_whitespace
chosen_device-root_use_example =
    chosen_device-root_use (λ pid. pid == 4096) (codes "usb:1") 4096 (some (codes "usb:1 4096\n"))
      (refl, (refl, (refl, (refl, (refl, tt))))) (λ e. cc e) (omega arith) refl

default_name-new_example :
    (name : Text) × (default_name (codes "Pixel" ∷ codes "Pixel 2" ∷ []) (codes "Pixel")
      ≡ some name)
    × (any (λ old. same old name) (codes "Pixel" ∷ codes "Pixel 2" ∷ []) ≡ false)
default_name-new_example = default_name-new (codes "Pixel" ∷ codes "Pixel 2" ∷ []) (codes "Pixel")

-- The kernel's table has one socket, of the adb server that user 1000 has started.
abbrev table : Text
table =
    codes "  sl  local_address rem_address   st tx_queue rx_queue tr tm->when retrnsmt   uid\n"
    ++ codes
        "   0: 0100007F:13AD 0100007F:9C40 01 00000000:00000000 00:00000000 00000000  1000 0 1\n"

abbrev ours : LocalEnd
ours = record { a = 127; b = 0; c = 0; d = 1; port = 40000 }

adb_request-IsPeer_example :
    (e : LocalEnd) × (rows : List TcpRow) × (row : TcpRow) × (some ours ≡ some e)
    × (proc_tcp (some table) ≡ some rows)
    × In row rows
    × IsPeer (0 ∷ 1000 ∷ []) e row
unfolding adb_request adb_peer_trusted
adb_request-IsPeer_example =
    adb_request-IsPeer (0 ∷ 1000 ∷ []) (some table) (some ours) (codes "host:devices")
      (codes "OKAY0000") (λ e. cc e)

adb_device_id-bt_address_example :
    adb_device_id (λ t. t) (codes "R58") (some (codes "AA:AA:AA:AA:AA:AA"))
    ≡ bt_address (codes "/org/bluez/hci0/dev_AA_AA_AA_AA_AA_AA")
unfolding join
adb_device_id-bt_address_example =
    adb_device_id-bt_address (λ t. t) (codes "R58") (codes "/org/bluez/hci0/")
      (codes "AA:AA:AA:AA:AA:AA") (codes "AA") (replicate 5 (codes "AA")) pairs refl refl
  where
    pair : IsPair (codes "AA")
    pair = (inr (omega arith, omega arith), inr (omega arith, omega arith))

    pairs : All IsPair (replicate 6 (codes "AA"))
    pairs = (pair, (pair, (pair, (pair, (pair, (pair, tt))))))

-- The phone over Wi-Fi has another profile than the one that is paired.
wifi_round-IsPaired_example :
    let directory = some (profile addresses peer ∷ []) in
    let after = wifi_round addresses true (λ p. some (codes "Pixel", 12)) directory idle in
    ((load_from addresses directory ≡ none) × (after ≡ idle))
    ⊎ ((peers : List Peer) × (load_from addresses directory ≡ some peers)
        × All (IsPaired (map (wifi_name addresses) peers)) (live_links after))
wifi_round-IsPaired_example =
    wifi_round-IsPaired addresses true (λ p. some (codes "Pixel", 12))
      (some (profile addresses peer ∷ [])) idle

links-keepalive_example :
    (keepalive (λ n. n == 1) idle).links
    ≡ map
        (λ l.
          if has l.serial (live_links idle) && not (l.serial == 1)
          then record l { alive = false }
          else l)
        idle.links
links-keepalive_example = links-keepalive (λ n. n == 1) idle

-- The phone over Bluetooth has the name of its path.
abbrev with_bluetooth : Daemon
with_bluetooth = record idle { links = wifi ∷ record bluetooth { name = codes "bt:AA:BB" } ∷ [] }

links-request_disconnection_example :
    (request_disconnection (codes "/hci0/dev_AA_BB") with_bluetooth).links
    ≡ map
        (λ l.
          if l.alive && same l.name (bt_name (bt_address (codes "/hci0/dev_AA_BB")))
          then record l { alive = false }
          else l)
        with_bluetooth.links
unfolding behind_dev
links-request_disconnection_example =
    links-request_disconnection (codes "/hci0/dev_AA_BB") (codes "AA_BB") with_bluetooth refl
      (((λ e. cc e), tt), (tt, tt))

-- The other phone stays.
request_disconnection_closed :
    map (λ l. l.alive) (request_disconnection (codes "/hci0/dev_AA_BB") with_bluetooth).links
    ≡ true ∷ false ∷ []
unfolding request_disconnection behind_dev close
request_disconnection_closed = refl

abbrev no_answer : Try
no_answer = record { serial_number = codes "R58"; now = 100; later = 103; attempt = failed }

-- Nine seconds after the failed attempt the phone would answer.
abbrev early : Try
early = record no_answer { now = 112; attempt = made (codes "Pixel") (codes "c") 9 }

usb_rounds-failed_example :
    usb_rounds true ((early ∷ []) ∷ []) (usb_round true (no_answer ∷ []) (idle, []))
    ≡ usb_rounds true
        (map (others (codes "R58")) ((early ∷ []) ∷ []))
        (usb_round true (no_answer ∷ []) (idle, []))
unfolding live_links same until
usb_rounds-failed_example =
    usb_rounds-failed true no_answer ((early ∷ []) ∷ []) idle [] refl refl refl
      (((λ e. omega arith), tt), tt)
