-- ===== src/Hid/Invariant.antt =====
-- What every packet keeps: no partial message is whole or too long, so that the subtraction in
-- `packet` cannot underflow, and the busy request has a channel of its own.
use passkey.Base.{
  ℕ, ◌+◌, ◌≤◌, ◌<◌, ◌≡◌, ◌≢◌, List, [], ◌∷◌, some, arith, length, leb, Bool-cases, inl, inr, leb→le,
  not_leb→lt, Option-cases, ◌==◌, ==_iff,
}
use passkey.Base.Dict.{lookup, insert}
use passkey.Hid.Pieces.{complete_whole, complete_part}
use passkey.Base.Bytes.{u32, from_be16, from_be32}
use passkey.Daemon.{Daemon, Partial}
use passkey.Hid.{
  dispatch, dispatch_init, dispatch_request, complete, start, resume, packet, packets, set_partial,
  drop_partial, begin, assign_channel, claim,
}
use passkey.Report.{broadcast, err_invalid_seq}
use passkey.Hid.Valid.{
  IsOpen, IsValid, erase-All, lookup-IsOpen, reply-Keeps, error-Keeps, Keeps-IsValid,
  cancel-IsValid,
}

-- The channel that INIT assigns is never 0 nor the broadcast channel, whatever the counter is.
assign_channel-IsOrdinary :
    (next : ℕ)
    → next < 4294967296
    → let c = assign_channel 2 next in
      (c.0 ≢ 0) × (c.0 ≢ broadcast) × (c.1 < 4294967296) × (c.1 ≡ u32 (c.0 + 1))
unfolding assign_channel
assign_channel-IsOrdinary next h = ground arith

claim-IsValid : (s : Daemon) (channel : ℕ) → IsValid s → IsValid (claim s channel)
unfolding claim
claim-IsValid s channel v =
    let next = assign_channel-IsOrdinary s.next_channel v.counters.1 in ground arith

dispatch_init-IsValid :
    (s : Daemon) (channel : ℕ) (bytes : List ℕ)
    → IsValid s
    → IsValid (dispatch_init s channel bytes)
unfolding dispatch_init
dispatch_init-IsValid s channel bytes v =
    grind (arith, Keeps-IsValid, reply-Keeps, error-Keeps, claim-IsValid)

dispatch_request-IsValid :
    (s : Daemon) (channel : ℕ) (bytes : List ℕ)
    → channel ≢ 0
    → channel ≢ broadcast
    → IsValid s
    → IsValid (dispatch_request s channel bytes)
unfolding dispatch_request
dispatch_request-IsValid s channel bytes z b v = grind (arith, Keeps-IsValid, error-Keeps)

dispatch-IsValid :
    (s : Daemon) (channel command : ℕ) (bytes : List ℕ)
    → IsValid s
    → IsValid (dispatch s channel command bytes)
unfolding dispatch
dispatch-IsValid s channel command bytes v = grind (
  arith, Keeps-IsValid, reply-Keeps, error-Keeps, dispatch_init-IsValid, dispatch_request-IsValid,
)

drop_partial-IsValid : (s : Daemon) (channel : ℕ) → IsValid s → IsValid (drop_partial s channel)
drop_partial-IsValid s channel v = record {
  open_messages = erase-All channel s.partial v.open_messages;
  ordinary = v.ordinary;
  counters = v.counters;
}

set_partial-IsValid :
    (s : Daemon) (channel : ℕ) (p : Partial)
    → IsOpen (channel, p)
    → IsValid s
    → IsValid (set_partial s channel p)
unfolding insert
set_partial-IsValid s channel p o v = record {
  open_messages = (o, erase-All channel s.partial v.open_messages);
  ordinary = v.ordinary;
  counters = v.counters;
}

-- A partial message is set only to be looked at by `complete`, which takes out a whole one.
complete-IsValid :
    (s : Daemon) (channel : ℕ) (p : Partial)
    → p.total ≤ 7609
    → p.next_sequence ≤ 128
    → IsValid s
    → IsValid (complete (set_partial s channel p) channel)
complete-IsValid s channel p t n v = elim (Bool-cases (leb p.total (length p.received))) [
  | inl whole ↦ rw (complete_whole s channel p (leb→le _ _ whole)) (
      dispatch-IsValid (drop_partial s channel) channel p.command p.received
        (drop_partial-IsValid s channel v))
  | inr part ↦
      let o : IsOpen (channel, p) = (not_leb→lt _ _ part, t, n) in
      rw (complete_part s channel p (not_leb→lt _ _ part)) (set_partial-IsValid s channel p o v)
]

start-IsValid :
    (s : Daemon) (channel command total : ℕ) (payload : List ℕ)
    → IsValid s
    → IsValid (start s channel command total payload)
unfolding start
start-IsValid s channel command total payload v =
    grind
      (arith, complete-IsValid, cancel-IsValid, drop_partial-IsValid, Keeps-IsValid, error-Keeps)

-- The case of `resume` where the channel has a partial message.
resumed-IsValid :
    (s : Daemon) (channel sequence : ℕ) (payload : List ℕ) (p : Partial)
    → sequence < 128
    → lookup channel s.partial ≡ some p
    → IsValid s
    → IsValid (resume s channel sequence payload)
unfolding resume
resumed-IsValid s channel sequence payload p h e v =
    rw (e, resume)
      (elim (Bool-cases (sequence == p.next_sequence)) [
        | inl hit ↦
            let eq : sequence ≡ p.next_sequence = (==_iff sequence p.next_sequence).0 hit in
            rw hit (
              complete-IsValid s channel _ (lookup-IsOpen channel s.partial p v.open_messages e).1
                (omega arith) v)
        | inr miss ↦ rw miss (
            Keeps-IsValid (error-Keeps (drop_partial s channel) channel err_invalid_seq)
              (drop_partial-IsValid s channel v))
      ])

resume-IsValid :
    (s : Daemon) (channel sequence : ℕ) (payload : List ℕ)
    → sequence < 128
    → IsValid s
    → IsValid (resume s channel sequence payload)
unfolding resume
resume-IsValid s channel sequence payload h v = elim (Option-cases (lookup channel s.partial)) [
  | inl e ↦ rw (e, resume) v
  | inr (p, e) ↦ resumed-IsValid s channel sequence payload p h e v
]

begin-IsValid :
    (s : Daemon) (channel command : ℕ) (payload : List ℕ)
    → IsValid s
    → IsValid (begin s channel command payload)
begin-IsValid s channel command [] v = v
begin-IsValid s channel command (hi ∷ []) v = v
begin-IsValid s channel command (hi ∷ lo ∷ payload) v =
    start-IsValid s channel command (from_be16 hi lo) payload v

pub packet-IsValid : (s : Daemon) (p : List ℕ) → IsValid s → IsValid (packet s p)
unfolding packet
packet-IsValid s [] v = v
packet-IsValid s (a ∷ []) v = v
packet-IsValid s (a ∷ b ∷ []) v = v
packet-IsValid s (a ∷ b ∷ c ∷ []) v = v
packet-IsValid s (a ∷ b ∷ c ∷ d ∷ []) v = v
packet-IsValid s (a ∷ b ∷ c ∷ d ∷ byte ∷ payload) v = elim (Bool-cases (leb 128 byte)) [
  | inl first ↦ rw first (begin-IsValid s (from_be32 a b c d) byte payload v)
  | inr later ↦
      rw later (resume-IsValid s (from_be32 a b c d) byte payload (not_leb→lt 128 byte later) v)
]

-- After any packets that the host may send, well formed or not, no partial message is whole or
-- longer than 7609 bytes or past its 128 sequence numbers; the channel of the busy request is
-- neither 0 nor the broadcast channel; and the counters are still 32-bit numbers.
pub packets-IsValid : (s : Daemon) (ps : List (List ℕ)) → IsValid s → IsValid (packets s ps)
unfolding packets
packets-IsValid s [] v = v
packets-IsValid s (p ∷ ps) v = packets-IsValid (packet s p) ps (packet-IsValid s p v)
