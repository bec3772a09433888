-- ===== src/Tests/Data.antt =====
-- Phones, requests and states for the examples.
use passkey.Base.{ℕ, true, false, List, [], ◌∷◌, Option, none, some, ◌==◌, if◌then◌else◌}
use passkey.Base.Text.{Text, codes}
use passkey.Link.{Link}
use passkey.Daemon.{Daemon, Request}
use passkey.Fan.{Poll}
use passkey.Rounds.{Turn}

abbrev pub link : ℕ → Text → ℕ → Link
link serial device priority = record {
  serial = serial;
  name = codes "usb";
  device = device;
  label = codes "Phone";
  priority = priority;
  alive = true;
}

-- One phone over USB and over Wi-Fi, and another one over Bluetooth.
abbrev pub usb : Link
usb = link 1 (codes "a") 0

abbrev pub wifi : Link
wifi = link 2 (codes "a") 1

abbrev pub bluetooth : Link
bluetooth = link 3 (codes "b") 2

abbrev pub request : Request
request = record { serial = 0; channel = 9; number = 4; pending = usb ∷ bluetooth ∷ [] }

abbrev pub idle : Daemon
idle = record {
  links = wifi ∷ usb ∷ bluetooth ∷ [];
  partial = [];
  busy = none;
  holders = codes "b" ∷ [];
  last = none;
  generation = 1;
  file = true;
  next_request = 5;
  next_channel = 10;
  next_generation = 2;
  next_serial = 1;
  done = [];
}

abbrev pub busy : Daemon
busy = record idle { busy = some request }

-- One round: the phone over USB approves, and the other one refuses.
abbrev hears : ℕ → Option (ℕ × List ℕ)
hears n = if n == 1 then some (4, 0 ∷ 7 ∷ []) else if n == 3 then some (4, 0x27 ∷ []) else none

abbrev pub answers : Poll
answers = record { expired = false; current = true; beat = false; recv = hears }

abbrev late : Poll
late = record { expired = true; current = true; beat = false; recv = λ n. none }

abbrev pub turn : Turn
turn = record { sends = λ n. true; polls = answers ∷ late ∷ [] }
