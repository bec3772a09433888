-- ===== src/System/Over.antt =====
-- A request that is over stays over, whatever the daemon's threads do.
use passkey.Base.{
  ℕ, ◌<◌, ◌≡◌, refl, Bool, false, ◌||◌, ◌&&◌, List, [], ◌∷◌, ◌++◌, Option, none, some,
  if◌then◌else◌, ◌==◌, length, arith, ==_iff, ne_of_==_false, leb, ltb, drop,
}
use passkey.Link.{Link}
use passkey.Daemon.{Daemon, Request, write_uhid}
use passkey.Hid.{cancel, request_is_current, is_request, finish_request, live_links, is_empty}
use passkey.Report.{keepalive, cbor}
use passkey.Hid.Over.{
  Absent, IsOver, Same, Same-IsOver, either, reply-Same, withdraw-Same, cancel-IsOver,
  packet-IsOver,
}
use passkey.Links.{publish, close, without}
use passkey.Uhid.{
  from_le32, refusal_event, output_report, uhid_output, uhid_close, uhid_get_report,
  uhid_set_report, uhid_get_report_reply, uhid_set_report_reply, add, remove, reader_ended,
  handle_event, sync_uhid, create_uhid, destroy_uhid,
}
use passkey.Fan.{set_pending, with_pending, keep_alive, end_fan_out}
use passkey.Rounds.{Outcome, approved, refused, respond, remember, answer_of}
use passkey.System.{
  Step, Reach, host_event, reader_end, connected, closed, disconnected, sent_out, waited, gathered,
  remembered, responded, finished, here, next,
}

write_uhid-Same : (s : Daemon) (event : List ℕ) → Same s (write_uhid s event)
unfolding write_uhid
write_uhid-Same s event = ground arith

handle_event-IsOver :
    (n : ℕ) (s : Daemon) (event : List ℕ) → IsOver n s → IsOver n (handle_event s event)
unfolding handle_event
handle_event-IsOver n s event v =
    let kind : ℕ = from_le32 event in
    let size : ℕ = length event in
    let reply_event : List ℕ =
      refusal_event
        (if kind == uhid_get_report then uhid_get_report_reply else uhid_set_report_reply)
        (from_le32 (drop 4 event)) in
    either n (ltb size 4) v (
      either n (kind == uhid_output && leb 4102 size) (packet-IsOver n s (output_report event) v) (
        either n (kind == uhid_close) (cancel-IsOver n s none false v) (
          either n ((kind == uhid_get_report || kind == uhid_set_report) && leb 8 size)
            (Same-IsOver (write_uhid-Same s reply_event) v) v)))

create_uhid-Same : (opens : Bool) (s : Daemon) → Same s (create_uhid opens s)
unfolding create_uhid
create_uhid-Same opens s = ground arith

destroy_uhid-Same : (s : Daemon) → Same s (destroy_uhid s)
unfolding destroy_uhid
destroy_uhid-Same s = ground arith

sync_uhid-IsOver : (n : ℕ) (opens : Bool) (s : Daemon) → IsOver n s → IsOver n (sync_uhid opens s)
unfolding sync_uhid
sync_uhid-IsOver n opens s v =
    either n (is_empty (live_links s))
      (Same-IsOver (destroy_uhid-Same (cancel s none false)) (cancel-IsOver n s none false v))
      (Same-IsOver (create_uhid-Same opens s) v)

over_with : (n : ℕ) (s t : Daemon) → Same s t → IsOver n s → IsOver n t
over_with n s t k v = Same-IsOver k v

add-IsOver :
    (n : ℕ) (opens : Bool) (s : Daemon) (link : Link) → IsOver n s → IsOver n (add opens s link)
unfolding add publish
add-IsOver n opens s link v =
    sync_uhid-IsOver n opens (publish (record s { links = s.links ++ link ∷ [] }))
      (over_with n s _ (refl, refl) v)

remove-IsOver :
    (n : ℕ) (opens : Bool) (s : Daemon) (link : Link) → IsOver n s → IsOver n (remove opens s link)
unfolding remove publish
remove-IsOver n opens s link v =
    let t : Daemon = record s { links = without link.serial s.links } in
    either n (length s.links == length (without link.serial s.links))
      (over_with n s t (refl, refl) v)
      (sync_uhid-IsOver n opens (publish t) (over_with n s (publish t) (refl, refl) v))

reader_ended-IsOver :
    (n : ℕ) (opens : Bool) (s : Daemon) (generation : ℕ)
    → IsOver n s
    → IsOver n (reader_ended opens s generation)
unfolding reader_ended
reader_ended-IsOver n opens s generation v =
    let t : Daemon = record s { file = false; generation = 0 } in
    either n (s.generation == generation)
      (sync_uhid-IsOver n opens t (over_with n s t (refl, refl) v)) v

set_pending-IsOver :
    (n : ℕ) (s : Daemon) (request : Request) (links : List Link)
    → IsOver n s
    → IsOver n (set_pending s request links)
unfolding set_pending
set_pending-IsOver n s request links v = by_busy s.busy v.absent
  where
    by_busy : (b : Option Request) → Absent n b → IsOver n (with_pending s request links b)
    by_busy none a = v
    by_busy (some current) a =
        either n (current.serial == request.serial) (record { created = v.created; absent = a }) v

remember-Same :
    (command : ℕ) (probe : Bool) (o : Outcome) (s : Daemon) → Same s (remember command probe o s)
remember-Same command probe (refused errors) s = (refl, refl)
remember-Same command probe (approved winner payload wins) s = ground arith

finish_request-IsOver :
    (n : ℕ) (s : Daemon) (request : Request) → IsOver n s → IsOver n (finish_request s request)
unfolding finish_request
finish_request-IsOver n s request v =
    either n (is_request request s.busy) (record { created = v.created; absent = tt }) v

Step-IsOver : (n : ℕ) {s t : Daemon} → Step s t → IsOver n s → IsOver n t
unfolding keep_alive end_fan_out close respond
Step-IsOver n {s} (host_event event e) v = rw e (handle_event-IsOver n s event v)
Step-IsOver n {s} (reader_end opens generation e) v =
    rw e (reader_ended-IsOver n opens s generation v)
Step-IsOver n {s} (connected opens link e) v = rw e (add-IsOver n opens s link v)
Step-IsOver n {s} (closed serial e) v = rw e (over_with n s (close s serial) (refl, refl) v)
Step-IsOver n {s} (disconnected opens link e) v = rw e (remove-IsOver n opens s link v)
Step-IsOver n {s} (sent_out request links e) v = rw e (set_pending-IsOver n s request links v)
Step-IsOver n {s} (waited request e) v =
    rw e (Same-IsOver (reply-Same s request.channel keepalive (2 ∷ [])) v)
Step-IsOver n {s} (gathered request links e) v = rw e (
    Same-IsOver (withdraw-Same (set_pending s request []) request links)
      (set_pending-IsOver n s request [] v))
Step-IsOver n {s} (remembered command probe o e) v =
    rw e (Same-IsOver (remember-Same command probe o s) v)
Step-IsOver n {s} (responded request current o e) v =
    rw e (either n current (Same-IsOver (reply-Same s request.channel cbor (answer_of o)) v) v)
Step-IsOver n {s} (finished request e) v = rw e (finish_request-IsOver n s request v)

Reach-IsOver : (n : ℕ) {s t : Daemon} → Reach s t → IsOver n s → IsOver n t
Reach-IsOver n here v = v
Reach-IsOver n (next r step) v = Step-IsOver n step (Reach-IsOver n r v)

is_request-Absent : (r : Request) (b : Option Request) → is_request r b ≡ false → Absent r.serial b
is_request-Absent r none h = tt
is_request-Absent r (some q) h =
    ground (arith, ne_of_==_false q.serial r.serial, ==_iff q.serial r.serial)

Absent-is_request : (r : Request) (b : Option Request) → Absent r.serial b → is_request r b ≡ false
Absent-is_request r none h = refl
Absent-is_request r (some q) h = ground (arith, ==_iff q.serial r.serial)

-- A request that was created before and is not the one in progress is never in progress again,
-- whatever steps the threads take: it has ended, or INIT has abandoned it, or it was turned down
-- because of another one. Every later test of its thread whether it is current fails.
pub Reach-request_is_current :
    (s t : Daemon) (request : Request)
    → Reach s t
    → request.serial < s.next_serial
    → request_is_current s request ≡ false
    → request_is_current t request ≡ false
unfolding request_is_current
Reach-request_is_current s t request r h e =
    Absent-is_request request t.busy
      (Reach-IsOver request.serial r
        (record { created = h; absent = is_request-Absent request s.busy e })).absent
