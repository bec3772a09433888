-- ===== src/Tests/Phones.antt =====
-- The phones: their connections, the fan-out of a request, and the order in which they are asked.
use passkey.Base.{
  ℕ, ◌≡◌, ◌≤◌, refl, Bool, true, false, not, List, [], ◌∷◌, some, arith, length, ◌==◌,
}
use passkey.Base.Text.{Text}
use passkey.Link.{Link}
use passkey.Daemon.{Daemon}
use passkey.Hid.{live_links, request_is_current}
use passkey.Links.{by_device, without}
use passkey.Links.Best.{by_device-best, of_device, best, Distinct, IsSorted}
use passkey.Uhid.{sync_uhid}
use passkey.Uhid.Device.{sync_uhid-Present, Present}
use passkey.Fan.{Fan, fan_out, sent}
use passkey.Fan.Account.{fan_out-IsAccounted, IsAccounted}
use passkey.Fan.Verdict.{fan_out_once}
use passkey.Base.{replicate}
use passkey.Daemon.{new}
use passkey.Hid.Valid.{IsValid}
use passkey.Uhid.{add, handle_event}
use passkey.Uhid.Events.{output_event}
use passkey.System.{here, next, connected, host_event}
use passkey.System.Over.{Reach-request_is_current}
use passkey.System.Invariant.{Reach-IsValid}
use passkey.Tests.Data.{request, idle, busy, usb, bluetooth, answers}

by_device-best_example :
    ((d : Text) → of_device d (by_device idle) ≡ best d (live_links idle))
    × Distinct (by_device idle)
    × IsSorted (by_device idle)
by_device-best_example = by_device-best idle

sync_uhid-Present_example :
    let t = sync_uhid true idle in
    Present true t × ((t.generation == 0) ≡ not t.file) × (live_links t ≡ live_links idle)
sync_uhid-Present_example =
    sync_uhid-Present true idle (record { numbered = refl; ahead = (omega arith, omega arith) })

-- The daemon with a single phone.
abbrev lonely : Daemon
lonely = record busy { links = usb ∷ [] }

-- The phone over USB approves and the fan-out ends; the other phone is told to drop the request.
abbrev ended : Fan
ended = record {
  pending = bluetooth ∷ [];
  wins = (usb, 0 ∷ 7 ∷ []) ∷ [];
  errors = [];
  finished = true;
  beats = 0;
}

abbrev sends : ℕ → Bool
sends n = true

abbrev targets : List Link
targets = usb ∷ bluetooth ∷ []

ended_lem : fan_out 4 sends (answers ∷ []) false targets ≡ some ended
unfolding fan_out without
ended_lem = refl

fan_out-IsAccounted_example : IsAccounted (answers ∷ []) 4 (sent sends targets) ended
fan_out-IsAccounted_example =
    fan_out-IsAccounted 4 sends (answers ∷ []) false targets ended (((λ e. cc e), tt), (tt, tt))
      ended_lem

fan_out_once_example : length ended.wins ≤ 1
fan_out_once_example =
    fan_out_once 4 sends (answers ∷ []) targets ended (((λ e. cc e), tt), (tt, tt)) ended_lem

-- The daemon starts, a phone connects, and the host sends a request on a channel.
abbrev event : List ℕ
event = output_event 64 (0 ∷ 0 ∷ 0 ∷ 5 ∷ 0x90 ∷ 0 ∷ 1 ∷ 4 ∷ replicate 4088 0) []

abbrev reached : Daemon
reached = handle_event (add true (new 77) usb) event

Reach-IsValid_example : IsValid reached
Reach-IsValid_example =
    Reach-IsValid 77 (omega arith)
      (next (next here (connected true usb refl)) (host_event event refl))

-- The first request has ended when the host sends the next.
Reach-request_is_current_example : request_is_current (handle_event idle event) request ≡ false
unfolding request_is_current
Reach-request_is_current_example =
    Reach-request_is_current idle (handle_event idle event) request
      (next here (host_event event refl)) (omega arith) refl
