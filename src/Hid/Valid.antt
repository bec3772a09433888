-- ===== src/Hid/Valid.antt =====
-- What a valid state is, and what leaves it alone.
use passkey.Base.{
  ℕ, ◌≤◌, ◌<◌, ◌≡◌, refl, ◌≢◌, Bool, true, false, List, [], ◌∷◌, Option, none, some, arith,
  if◌then◌else◌, ◌&&◌, length, All,
}
use passkey.Base.Dict.{lookup, erase}
use passkey.Link.{Link}
use passkey.Wire.{cancel_message}
use passkey.Daemon.{emit, to_link, Daemon, Partial, Request, withdraw, send_report}
use passkey.Hid.{cancel, notify, is_channel}
use passkey.Report.{broadcast, reply, send_reports, error, reply_packets}

-- A message that waits for more packets.
abbrev pub IsOpen : ℕ × Partial → Type 0
IsOpen (channel, p) = (length p.received < p.total) × (p.total ≤ 7609) × (p.next_sequence ≤ 128)

-- A request has the channel of a packet that is neither 0 nor the broadcast channel.
abbrev pub IsOrdinary : Option Request → Type 0
IsOrdinary none = Unit {0}
IsOrdinary (some r) = (r.channel ≢ 0) × (r.channel ≢ broadcast) × (r.number < 4294967296)

pub record IsValid (s : Daemon) : Type 0 where
  pub open_messages : All IsOpen s.partial
  pub ordinary : IsOrdinary s.busy
  pub counters : (s.next_request < 4294967296) × (s.next_channel < 4294967296)

pub erase-All : (k : ℕ) (m : List (ℕ × Partial)) → All IsOpen m → All IsOpen (erase k m)
unfolding erase
erase-All k [] h = tt
erase-All k ((j, p) ∷ m) h = ground (arith, erase-All k m h.1)

pub lookup-IsOpen :
    (k : ℕ) (m : List (ℕ × Partial)) (p : Partial)
    → All IsOpen m
    → lookup k m ≡ some p
    → IsOpen (k, p)
unfolding lookup
lookup-IsOpen k [] p h e = cc
lookup-IsOpen k ((j, q) ∷ m) p h e = ground (arith, lookup-IsOpen k m p h.1)

-- The effects leave the rest of the state alone.
abbrev pub Keeps : Daemon → Daemon → Type 0
Keeps s t =
    (t.partial ≡ s.partial)
    × (t.busy ≡ s.busy)
    × (t.next_request ≡ s.next_request)
    × (t.next_channel ≡ s.next_channel)

send_report-Keeps : (s : Daemon) (p : List ℕ) → Keeps s (send_report s p)
unfolding send_report
send_report-Keeps s p = ground arith

send_reports-Keeps : (s : Daemon) (ps : List (List ℕ)) → Keeps s (send_reports s ps)
unfolding send_reports
send_reports-Keeps s [] = (refl, refl, refl, refl)
send_reports-Keeps s (p ∷ ps) =
    ground (arith, send_report-Keeps s p, send_reports-Keeps (send_report s p) ps)

pub reply-Keeps :
    (s : Daemon) (channel command : ℕ) (bytes : List ℕ) → Keeps s (reply s channel command bytes)
unfolding reply
reply-Keeps s channel command bytes = send_reports-Keeps s (reply_packets channel command bytes)

pub error-Keeps : (s : Daemon) (channel code : ℕ) → Keeps s (error s channel code)
unfolding error
error-Keeps s channel code = reply-Keeps s channel _ _

pub withdraw-Keeps : (s : Daemon) (r : Request) (ls : List Link) → Keeps s (withdraw s r ls)
unfolding withdraw
withdraw-Keeps s r [] = (refl, refl, refl, refl)
withdraw-Keeps s r (l ∷ ls) =
    ground (arith, withdraw-Keeps (emit s (to_link l (cancel_message r.number))) r ls)

pub Keeps-IsValid : {s t : Daemon} → Keeps s t → IsValid s → IsValid t
Keeps-IsValid {s} {t} k v = record {
  open_messages = rw k.0 v.open_messages;
  ordinary = rw k.1 v.ordinary;
  counters = ground arith;
}

notify-Keeps : (s : Daemon) (channel : Option ℕ) (r : Option Request) → Keeps s (notify s channel r)
notify-Keeps s channel none = (refl, refl, refl, refl)
notify-Keeps s channel (some r) = ground (arith, withdraw-Keeps s r r.pending)

unassign : (s : Daemon) (b : Bool) → IsValid s → IsValid (if b then record s { busy = none } else s)
unassign s true v = record { open_messages = v.open_messages; ordinary = tt; counters = v.counters }
unassign s false v = v

pub cancel-IsValid :
    (s : Daemon) (channel : Option ℕ) (abandon : Bool)
    → IsValid s
    → IsValid (cancel s channel abandon)
unfolding cancel
cancel-IsValid s channel abandon v =
    Keeps-IsValid (notify-Keeps _ channel s.busy)
      (unassign s (abandon && is_channel channel s.busy) v)
