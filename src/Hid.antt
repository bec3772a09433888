-- ===== src/Hid.antt =====
-- src/daemon.rs, the CTAPHID side: packets from the host are put together to messages, and
-- commands are answered. Each handler runs to its end in one step; the map of partial messages
-- is used by the one thread that reads the uhid file.
pub mod Pieces
pub mod RoundTrip
pub mod Busy
pub mod Exclusive
pub mod Packet
pub mod Cancel
pub mod Valid
pub mod Invariant
pub mod Over
use passkey.Base.{
  ℕ, zero, suc, ◌+◌, ◌-◌, ◌*◌, Bool, true, false, not, ◌&&◌, ◌||◌, List, [], ◌∷◌, ◌++◌, Option,
  none, some, ltb, leb, ◌==◌, if◌then◌else◌, length, take, drop, min, filter,
}
use passkey.Base.Bytes.{u8, u16, u32, be16, be32, from_be16, from_be32}
use passkey.Base.Dict.{lookup, insert, erase}
use passkey.Link.{Link}
use passkey.Daemon.{Daemon, Partial, Request, spawn, emit, send_report, withdraw}
use passkey.Report.{
  ping_cmd, init, wink, cbor, cancel_cmd, err_invalid_cmd, err_invalid_len, err_invalid_seq,
  err_channel_busy, err_invalid_channel, ctap2_err_other, broadcast, reply, error,
}

abbrev pub owns : ℕ → Option Request → Bool
owns channel none = false
owns channel (some r) = r.channel == channel

-- `channel.is_none_or(|channel| channel == request.channel)`, and `Some(request.channel) == channel`.
abbrev concerns : Option ℕ → Request → Bool
concerns none r = true
concerns (some c) r = c == r.channel

abbrev pub is_channel : Option ℕ → Option Request → Bool
is_channel (some c) r = owns c r
is_channel none r = false

abbrev pub notify : Daemon → Option ℕ → Option Request → Daemon
notify s channel none = s
notify s channel (some r) = if concerns channel r then withdraw s r r.pending else s

-- `cancel`.
unfoldable pub cancel : Daemon → Option ℕ → Bool → Daemon
cancel s channel abandon =
    notify (if abandon && is_channel channel s.busy then record s { busy = none } else s) channel
      s.busy

abbrev pub is_some {ℓ} : {A : Type ℓ} → Option A → Bool
is_some none = false
is_some (some a) = true

-- `finish_request`.
abbrev pub is_request : Request → Option Request → Bool
is_request r none = false
is_request r (some current) = current.serial == r.serial

unfoldable pub request_is_current : Daemon → Request → Bool
request_is_current s r = is_request r s.busy

unfoldable pub finish_request : Daemon → Request → Daemon
finish_request s r = if is_request r s.busy then record s { busy = none } else s

unfoldable pub live_links : Daemon → List Link
live_links s = filter (λ link. link.alive) s.links

-- The loop that takes the next channel number; of three numbers in a row one at least is neither
-- 0 nor the broadcast channel. The results are the number and the counter after it.
unfoldable pub assign_channel : ℕ → ℕ → ℕ × ℕ
assign_channel zero next = (next, u32 (next + 1))
assign_channel (suc fuel) next =
    let again = assign_channel fuel (u32 (next + 1)) in
    if not (next == 0) && not (next == broadcast) then (next, u32 (next + 1)) else again

-- The channel that `INIT` answers with, and the counter moved on if a new one was taken.
unfoldable pub assigned : Daemon → ℕ → ℕ
assigned s channel = if channel == broadcast then (assign_channel 2 s.next_channel).0 else channel

unfoldable pub claim : Daemon → ℕ → Daemon
claim s channel =
    if channel == broadcast
    then record s { next_channel = (assign_channel 2 s.next_channel).1 }
    else s

-- `dispatch`, the case `INIT`.
unfoldable pub dispatch_init : Daemon → ℕ → List ℕ → Daemon
dispatch_init s channel bytes =
    if not (length bytes == 8)
    then error s channel err_invalid_len
    else reply (claim s channel) channel init
        (bytes ++ (be32 (assigned s channel) ++ 2 ∷ 1 ∷ 0 ∷ 0 ∷ 0x0d ∷ []))

abbrev pub new_request : Daemon → ℕ → Request
new_request s channel = record {
  serial = s.next_serial;
  channel = channel;
  number = s.next_request;
  pending = [];
}

-- `dispatch`, the last case: a request for the phones, unless one is in progress.
unfoldable pub dispatch_request : Daemon → ℕ → List ℕ → Daemon
dispatch_request s channel bytes =
    let request = new_request s channel in
    let counted = record s {
      next_request = u32 (s.next_request + 1);
      next_serial = suc s.next_serial;
    } in
    if is_some s.busy
    then error counted channel err_channel_busy
    else emit (record counted { busy = some request }) (spawn request bytes)

abbrev pub is_empty {ℓ} : {A : Type ℓ} → List A → Bool
is_empty [] = true
is_empty (x ∷ xs) = false

-- `dispatch`.
unfoldable pub dispatch : Daemon → ℕ → ℕ → List ℕ → Daemon
unfolding live_links dispatch_init dispatch_request
dispatch s channel command bytes =
    if command == init
    then dispatch_init s channel bytes
    else if channel == 0 || channel == broadcast
    then error s channel err_invalid_channel
    else if command == ping_cmd
    then reply s channel ping_cmd bytes
    else if command == wink
    then reply s channel wink []
    else if not (command == cbor)
    then error s channel err_invalid_cmd
    else if is_empty bytes || is_empty (live_links s)
    then reply s channel cbor (ctap2_err_other ∷ [])
    else dispatch_request s channel bytes

abbrev pub set_partial : Daemon → ℕ → Partial → Daemon
set_partial s channel p = record s { partial = insert channel p s.partial }

abbrev pub drop_partial : Daemon → ℕ → Daemon
drop_partial s channel = record s { partial = erase channel s.partial }

-- The end of `packet`: a message that is whole is taken out and handled.
unfoldable pub complete : Daemon → ℕ → Daemon
unfolding lookup
complete s channel = elim (lookup channel s.partial) [
  | none ↦ s
  | some p ↦
      if leb p.total (length p.received)
      then dispatch (drop_partial s channel) channel p.command p.received
      else s
]

-- `packet`, a first packet behind its seven bytes.
unfoldable pub start : Daemon → ℕ → ℕ → ℕ → List ℕ → Daemon
unfolding complete insert erase
start s channel command total payload =
    let fresh = λ (t : Daemon).
      complete
        (set_partial t channel (record {
          command = command;
          total = total;
          received = take total payload;
          next_sequence = 0;
        }))
        channel in
    if ltb 7609 total
    then error s channel err_invalid_len
    else if command == cancel_cmd
    then cancel s (some channel) false
    else if command == init
    then fresh (cancel (drop_partial s channel) (some channel) true)
    else if is_some s.busy && not (owns channel s.busy)
    then error s channel err_channel_busy
    else fresh s

-- `packet`, a later packet behind its five bytes.
unfoldable pub resume : Daemon → ℕ → ℕ → List ℕ → Daemon
unfolding complete insert erase lookup
resume s channel sequence payload = elim (lookup channel s.partial) [
  | none ↦ s
  | some p ↦
      if not (sequence == p.next_sequence)
      then error (drop_partial s channel) channel err_invalid_seq
      else let count = min (p.total - length p.received) (length payload) in
        complete
          (set_partial s channel (record p {
            received = p.received ++ take count payload;
            next_sequence = u8 (p.next_sequence + 1);
          }))
          channel
]

abbrev pub begin : Daemon → ℕ → ℕ → List ℕ → Daemon
begin s channel command (hi ∷ lo ∷ payload) = start s channel command (from_be16 hi lo) payload
begin s channel command _ = s

-- `packet`; `byte & 0x80 != 0` of a byte is `128 <= byte`.
unfoldable pub packet : Daemon → List ℕ → Daemon
unfolding start resume
packet s (a ∷ b ∷ c ∷ d ∷ byte ∷ payload) =
    let channel = from_be32 a b c d in
    if leb 128 byte then begin s channel byte payload else resume s channel byte payload
packet s _ = s

-- The packets that the thread reads, one after the other.
unfoldable pub packets : Daemon → List (List ℕ) → Daemon
unfolding packet
packets s [] = s
packets s (p ∷ ps) = packets (packet s p) ps
