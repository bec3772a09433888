-- ===== src/System/Invariant.antt =====
-- What holds in every state that the daemon can reach.
use passkey.Base.{
  ℕ, ◌<◌, refl, Bool, true, false, List, [], ◌∷◌, ◌++◌, Option, none, some, if◌then◌else◌, ◌==◌,
  length, arith, Bool-cases, inl, inr,
}
use passkey.Link.{Link}
use passkey.Daemon.{Daemon, Request, new, write_uhid}
use passkey.Hid.{finish_request, request_is_current}
use passkey.Report.{keepalive, cbor}
use passkey.Hid.Invariant.{packet-IsValid}
use passkey.Hid.Valid.{
  IsValid, IsOrdinary, Keeps, Keeps-IsValid, cancel-IsValid, reply-Keeps, withdraw-Keeps,
}
use passkey.Links.{publish, close, without}
use passkey.Uhid.{add, remove, reader_ended, handle_event, sync_uhid, create_uhid, destroy_uhid}
use passkey.Fan.{set_pending, with_pending, keep_alive, end_fan_out}
use passkey.Rounds.{Outcome, approved, refused, respond, remember, answer_of}
use passkey.System.{
  Step, Reach, host_event, reader_end, connected, closed, disconnected, sent_out, waited, gathered,
  remembered, responded, finished, here, next,
}

write_uhid-Keeps : (s : Daemon) (event : List ℕ) → Keeps s (write_uhid s event)
unfolding write_uhid
write_uhid-Keeps s event = ground arith

handle_event-IsValid : (s : Daemon) (event : List ℕ) → IsValid s → IsValid (handle_event s event)
unfolding handle_event
handle_event-IsValid s event v =
    grind (arith, Keeps-IsValid, write_uhid-Keeps, packet-IsValid, cancel-IsValid)

create_uhid-Keeps : (opens : Bool) (s : Daemon) → Keeps s (create_uhid opens s)
unfolding create_uhid
create_uhid-Keeps opens s = ground arith

destroy_uhid-Keeps : (s : Daemon) → Keeps s (destroy_uhid s)
unfolding destroy_uhid
destroy_uhid-Keeps s = ground arith

sync_uhid-IsValid : (opens : Bool) (s : Daemon) → IsValid s → IsValid (sync_uhid opens s)
unfolding sync_uhid
sync_uhid-IsValid opens s v =
    grind (arith, Keeps-IsValid, create_uhid-Keeps, destroy_uhid-Keeps, cancel-IsValid)

publish-Keeps : (s : Daemon) → Keeps s (publish s)
unfolding publish
publish-Keeps s = (refl, refl, refl, refl)

add-IsValid : (opens : Bool) (s : Daemon) (link : Link) → IsValid s → IsValid (add opens s link)
unfolding add
add-IsValid opens s link v =
    let t : Daemon = record s { links = s.links ++ link ∷ [] } in
    let w : IsValid t = Keeps-IsValid {s = s} (refl, refl, refl, refl) v in
    sync_uhid-IsValid opens (publish t) (Keeps-IsValid (publish-Keeps t) w)

remove-IsValid :
    (opens : Bool) (s : Daemon) (link : Link) → IsValid s → IsValid (remove opens s link)
unfolding remove
remove-IsValid opens s link v =
    let t : Daemon = record s { links = without link.serial s.links } in
    let w : IsValid t = Keeps-IsValid {s = s} (refl, refl, refl, refl) v in
    elim (Bool-cases (length s.links == length (without link.serial s.links))) [
      | inl h ↦ rw h w
      | inr h ↦ rw h (sync_uhid-IsValid opens (publish t) (Keeps-IsValid (publish-Keeps t) w))
    ]

reader_ended-IsValid :
    (opens : Bool) (s : Daemon) (generation : ℕ)
    → IsValid s
    → IsValid (reader_ended opens s generation)
unfolding reader_ended
reader_ended-IsValid opens s generation v = elim (Bool-cases (s.generation == generation)) [
  | inl h ↦ rw h (
      sync_uhid-IsValid opens (record s { file = false; generation = 0 })
        (Keeps-IsValid {s = s} (refl, refl, refl, refl) v))
  | inr h ↦ rw h v
]

set_pending-IsValid :
    (s : Daemon) (request : Request) (links : List Link)
    → IsValid s
    → IsValid (set_pending s request links)
unfolding set_pending
set_pending-IsValid s request links v = by_busy s.busy v.ordinary
  where
    by_busy : (b : Option Request) → IsOrdinary b → IsValid (with_pending s request links b)
    by_busy none a = v
    by_busy (some current) a = elim (Bool-cases (current.serial == request.serial)) [
      | inl h ↦
          rw h (record { open_messages = v.open_messages; ordinary = a; counters = v.counters })
      | inr h ↦ rw h v
    ]

remember-Keeps :
    (command : ℕ) (probe : Bool) (o : Outcome) (s : Daemon) → Keeps s (remember command probe o s)
remember-Keeps command probe (refused errors) s = (refl, refl, refl, refl)
remember-Keeps command probe (approved winner payload wins) s = ground arith

finish_request-IsValid :
    (s : Daemon) (request : Request) → IsValid s → IsValid (finish_request s request)
unfolding finish_request request_is_current
finish_request-IsValid s request v = cases (request_is_current s request)
  where
    cases : (b : Bool) → IsValid (if b then record s { busy = none } else s)
    cases true = record { open_messages = v.open_messages; ordinary = tt; counters = v.counters }
    cases false = v

respond-IsValid :
    (s : Daemon) (request : Request) (current : Bool) (o : Outcome)
    → IsValid s
    → IsValid (respond s request current o)
unfolding respond
respond-IsValid s request true o v =
    Keeps-IsValid (reply-Keeps s request.channel cbor (answer_of o)) v
respond-IsValid s request false o v = v

Step-IsValid : {s t : Daemon} → Step s t → IsValid s → IsValid t
unfolding keep_alive end_fan_out close
Step-IsValid {s} (host_event event e) v = rw e (handle_event-IsValid s event v)
Step-IsValid {s} (reader_end opens generation e) v =
    rw e (reader_ended-IsValid opens s generation v)
Step-IsValid {s} (connected opens link e) v = rw e (add-IsValid opens s link v)
Step-IsValid {s} (closed serial e) v = rw e (Keeps-IsValid {s = s} (refl, refl, refl, refl) v)
Step-IsValid {s} (disconnected opens link e) v = rw e (remove-IsValid opens s link v)
Step-IsValid {s} (sent_out request links e) v = rw e (set_pending-IsValid s request links v)
Step-IsValid {s} (waited request e) v =
    rw e (Keeps-IsValid (reply-Keeps s request.channel keepalive (2 ∷ [])) v)
Step-IsValid {s} (gathered request links e) v = rw e (
    Keeps-IsValid (withdraw-Keeps (set_pending s request []) request links)
      (set_pending-IsValid s request [] v))
Step-IsValid {s} (remembered command probe o e) v =
    rw e (Keeps-IsValid (remember-Keeps command probe o s) v)
Step-IsValid {s} (responded request current o e) v = rw e (respond-IsValid s request current o v)
Step-IsValid {s} (finished request e) v = rw e (finish_request-IsValid s request v)

new-IsValid : (pid : ℕ) → pid < 4294967296 → IsValid (new pid)
unfolding new
new-IsValid pid h = record { open_messages = tt; ordinary = tt; counters = ground arith }

-- In every state between two steps that the daemon can reach from its start, however its threads
-- take turns, no partial message is whole or longer than 7609 bytes or past its 128 sequence numbers, the channel
-- of the busy request is neither 0 nor the broadcast channel, and the counters are 32-bit numbers.
pub Reach-IsValid : (pid : ℕ) → pid < 4294967296 → {s : Daemon} → Reach (new pid) s → IsValid s
Reach-IsValid pid h here = new-IsValid pid h
Reach-IsValid pid h (next r step) = Step-IsValid step (Reach-IsValid pid h r)
