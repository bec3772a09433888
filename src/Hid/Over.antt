-- ===== src/Hid/Over.antt =====
-- A request that is over stays over: no packet makes it the request in progress again.
use passkey.Base.{
  take, min, ◌-◌, ◌++◌, not, ◌||◌, ◌==◌, ltb, ℕ, ◌+◌, ◌<◌, ◌≡◌, ◌≢◌, refl, Bool, true, false, ◌&&◌,
  List, [], ◌∷◌, Option, none, some, if◌then◌else◌, arith, leb, length, Bool-cases, Option-cases,
  inl, inr,
}
use passkey.Base.Dict.{lookup}
use passkey.Base.Bytes.{from_be32, from_be16, u8}
use passkey.Link.{Link}
use passkey.Wire.{cancel_message}
use passkey.Daemon.{Daemon, Partial, Request, emit, to_link, withdraw, send_report}
use passkey.Hid.{
  set_partial, is_empty, is_some, owns, live_links, drop_partial, cancel, notify, is_channel, claim,
  dispatch_init, dispatch_request, dispatch, complete, start, resume, begin, packet,
}
use passkey.Report.{
  err_channel_busy, init, broadcast, ping_cmd, wink, cbor, cancel_cmd, reply, send_reports, error,
  reply_packets,
}

-- The request with this serial has been created, and is not the busy one.
abbrev pub Absent : ℕ → Option Request → Type 0
Absent n none = Unit {0}
Absent n (some r) = r.serial ≢ n

pub record IsOver (n : ℕ) (s : Daemon) : Type 0 where
  pub created : n < s.next_serial
  pub absent : Absent n s.busy

abbrev pub Same : Daemon → Daemon → Type 0
Same s t = (t.busy ≡ s.busy) × (t.next_serial ≡ s.next_serial)

pub Same-IsOver : {n : ℕ} {s t : Daemon} → Same s t → IsOver n s → IsOver n t
Same-IsOver {n} {s} {t} k v = record {
  created = let c : n < s.next_serial = v.created in omega arith;
  absent = rw k.0 v.absent;
}

send_report-Same : (s : Daemon) (p : List ℕ) → Same s (send_report s p)
unfolding send_report
send_report-Same s p = ground arith

send_reports-Same : (s : Daemon) (ps : List (List ℕ)) → Same s (send_reports s ps)
unfolding send_reports
send_reports-Same s [] = (refl, refl)
send_reports-Same s (p ∷ ps) =
    ground (arith, send_report-Same s p, send_reports-Same (send_report s p) ps)

pub reply-Same :
    (s : Daemon) (channel command : ℕ) (bytes : List ℕ) → Same s (reply s channel command bytes)
unfolding reply
reply-Same s channel command bytes = send_reports-Same s (reply_packets channel command bytes)

error-Same : (s : Daemon) (channel code : ℕ) → Same s (error s channel code)
unfolding error
error-Same s channel code = reply-Same s channel _ _

pub withdraw-Same : (s : Daemon) (r : Request) (ls : List Link) → Same s (withdraw s r ls)
unfolding withdraw
withdraw-Same s r [] = (refl, refl)
withdraw-Same s r (l ∷ ls) =
    ground (arith, withdraw-Same (emit s (to_link l (cancel_message r.number))) r ls)

notify-Same : (s : Daemon) (channel : Option ℕ) (r : Option Request) → Same s (notify s channel r)
notify-Same s channel none = (refl, refl)
notify-Same s channel (some r) = ground (arith, withdraw-Same s r r.pending)

abandoned :
    (n : ℕ) (s : Daemon) (b : Bool)
    → IsOver n s
    → IsOver n (if b then record s { busy = none } else s)
abandoned n s true v = record { created = v.created; absent = tt }
abandoned n s false v = v

pub cancel-IsOver :
    (n : ℕ) (s : Daemon) (channel : Option ℕ) (abandon : Bool)
    → IsOver n s
    → IsOver n (cancel s channel abandon)
unfolding cancel
cancel-IsOver n s channel abandon v =
    Same-IsOver (notify-Same _ channel s.busy)
      (abandoned n s (abandon && is_channel channel s.busy) v)

claim-Same : (s : Daemon) (channel : ℕ) → Same s (claim s channel)
unfolding claim
claim-Same s channel = ground arith

dispatch_init-IsOver :
    (n : ℕ) (s : Daemon) (channel : ℕ) (bytes : List ℕ)
    → IsOver n s
    → IsOver n (dispatch_init s channel bytes)
unfolding dispatch_init
dispatch_init-IsOver n s channel bytes v =
    grind (arith, Same-IsOver, reply-Same, error-Same, claim-Same)

-- A new request has a serial that none before it had.
dispatch_request-IsOver :
    (n : ℕ) (s : Daemon) (channel : ℕ) (bytes : List ℕ)
    → IsOver n s
    → IsOver n (dispatch_request s channel bytes)
unfolding dispatch_request
dispatch_request-IsOver n s channel bytes v = grind (arith, Same-IsOver, error-Same)

pub either :
    (n : ℕ) (b : Bool) {x y : Daemon} → IsOver n x → IsOver n y → IsOver n (if b then x else y)
either n true h k = h
either n false h k = k

error-IsOver :
    (n : ℕ) (s : Daemon) (channel code : ℕ) → IsOver n s → IsOver n (error s channel code)
error-IsOver n s channel code v = Same-IsOver (error-Same s channel code) v

replied :
    (n : ℕ) (s : Daemon) (channel command : ℕ) (bytes : List ℕ)
    → IsOver n s
    → IsOver n (reply s channel command bytes)
replied n s channel command bytes v = Same-IsOver (reply-Same s channel command bytes) v

dispatch-IsOver :
    (n : ℕ) (s : Daemon) (channel command : ℕ) (bytes : List ℕ)
    → IsOver n s
    → IsOver n (dispatch s channel command bytes)
unfolding dispatch
dispatch-IsOver n s channel command bytes v =
    either n (command == init) (dispatch_init-IsOver n s channel bytes v) (
      either n (channel == 0 || channel == broadcast) (error-IsOver n s channel _ v) (
        either n (command == ping_cmd) (replied n s channel _ _ v) (
          either n (command == wink) (replied n s channel _ _ v) (
            either n (not (command == cbor)) (error-IsOver n s channel _ v) (
              either n (is_empty bytes || is_empty (live_links s)) (replied n s channel _ _ v)
                (dispatch_request-IsOver n s channel bytes v))))))

partial_set :
    (n : ℕ) (s : Daemon) (m : List (ℕ × Partial)) → IsOver n s → IsOver n (record s { partial = m })
partial_set n s m v = record { created = v.created; absent = v.absent }

complete-IsOver : (n : ℕ) (s : Daemon) (channel : ℕ) → IsOver n s → IsOver n (complete s channel)
unfolding complete
complete-IsOver n s channel v = elim (Option-cases (lookup channel s.partial)) [
  | inl e ↦ rw (e, complete) v
  | inr (p, e) ↦
      rw (e, complete)
        (either n (leb p.total (length p.received))
          (dispatch-IsOver n (drop_partial s channel) channel p.command p.received
            (partial_set n s _ v))
          v)
]

completed :
    (n : ℕ) (s : Daemon) (channel : ℕ) (p : Partial)
    → IsOver n s
    → IsOver n (complete (set_partial s channel p) channel)
completed n s channel p v =
    complete-IsOver n (set_partial s channel p) channel (partial_set n s _ v)

start-IsOver :
    (n : ℕ) (s : Daemon) (channel command total : ℕ) (payload : List ℕ)
    → IsOver n s
    → IsOver n (start s channel command total payload)
unfolding start
start-IsOver n s channel command total payload v =
    let t : Daemon = cancel (drop_partial s channel) (some channel) true in
    let p : Partial = record {
      command = command;
      total = total;
      received = take total payload;
      next_sequence = 0;
    } in
    either n (ltb 7609 total) (error-IsOver n s channel _ v) (
      either n (command == cancel_cmd) (cancel-IsOver n s (some channel) false v) (
        either n (command == init)
          (completed n t channel p
            (cancel-IsOver n (drop_partial s channel) (some channel) true (partial_set n s _ v)))
          (either n (is_some s.busy && not (owns channel s.busy))
            (error-IsOver n s channel err_channel_busy v) (completed n s channel p v))))

resume-IsOver :
    (n : ℕ) (s : Daemon) (channel sequence : ℕ) (payload : List ℕ)
    → IsOver n s
    → IsOver n (resume s channel sequence payload)
unfolding resume
resume-IsOver n s channel sequence payload v = elim (Option-cases (lookup channel s.partial)) [
  | inl e ↦ rw (e, resume) v
  | inr (p, e) ↦
      rw (e, resume)
        (either n (not (sequence == p.next_sequence))
          (error-IsOver n (drop_partial s channel) channel _ (partial_set n s _ v))
          (completed n s channel
            (record p {
              received =
                  p.received ++ take (min (p.total - length p.received) (length payload)) payload;
              next_sequence = u8 (p.next_sequence + 1);
            })
            v))
]

begin-IsOver :
    (n : ℕ) (s : Daemon) (channel command : ℕ) (payload : List ℕ)
    → IsOver n s
    → IsOver n (begin s channel command payload)
begin-IsOver n s channel command [] v = v
begin-IsOver n s channel command (hi ∷ []) v = v
begin-IsOver n s channel command (hi ∷ lo ∷ payload) v =
    start-IsOver n s channel command (from_be16 hi lo) payload v

pub packet-IsOver : (n : ℕ) (s : Daemon) (p : List ℕ) → IsOver n s → IsOver n (packet s p)
unfolding packet
packet-IsOver n s [] v = v
packet-IsOver n s (a ∷ []) v = v
packet-IsOver n s (a ∷ b ∷ []) v = v
packet-IsOver n s (a ∷ b ∷ c ∷ []) v = v
packet-IsOver n s (a ∷ b ∷ c ∷ d ∷ []) v = v
packet-IsOver n s (a ∷ b ∷ c ∷ d ∷ byte ∷ payload) v = elim (Bool-cases (leb 128 byte)) [
  | inl first ↦ rw first (begin-IsOver n s (from_be32 a b c d) byte payload v)
  | inr later ↦ rw later (resume-IsOver n s (from_be32 a b c d) byte payload v)
]
