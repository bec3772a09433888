-- ===== src/Hid/Busy.antt =====
-- The request in progress: what may start one, who may touch it, and how it is cancelled.
use passkey.Base.{
  ℕ, suc, ◌+◌, ◌≡◌, refl, ap, ◌∙◌, ◌≢◌, ◌⊎◌, inl, inr, false, not, List, [], ◌∷◌, ◌++◌, none, some,
  arith, ◌==◌, length, append-nil, Bool-cases, Option-cases,
}
use passkey.Base.Bytes.{u32}
use passkey.Daemon.{
  Daemon, Request, Effect, uhid, devices, to_link, spawn, send_report, input2_event,
}
use passkey.Hid.{
  dispatch, claim, dispatch_init, is_empty, live_links, dispatch_request, new_request,
}
use passkey.Report.{
  init, cbor, reply, send_reports, error, err_channel_busy, err_invalid_channel, err_invalid_cmd,
  ping_cmd, wink, ctap2_err_other, broadcast, reply_packets,
}

-- The effects that reach a phone or start a request; the answers to the host are left out.
abbrev pub talk : List Effect → List Effect
talk [] = []
talk (uhid event ∷ es) = talk es
talk (devices text ∷ es) = talk es
talk (to_link link body ∷ es) = to_link link body ∷ talk es
talk (spawn request bytes ∷ es) = spawn request bytes ∷ talk es

talk-append : (xs ys : List Effect) → talk (xs ++ ys) ≡ talk xs ++ talk ys
talk-append [] ys = refl
talk-append (uhid event ∷ xs) ys = talk-append xs ys
talk-append (devices text ∷ xs) ys = talk-append xs ys
talk-append (to_link link body ∷ xs) ys = ap (λ zs. to_link link body ∷ zs) (talk-append xs ys)
talk-append (spawn request bytes ∷ xs) ys = ap (λ zs. spawn request bytes ∷ zs) (talk-append xs ys)

-- Nothing reached a phone, and the request in progress is still the same.
pub record Quiet (s t : Daemon) : Type 0 where
  pub same_busy : t.busy ≡ s.busy
  pub same_talk : talk t.done ≡ talk s.done

pub Quiet-refl : (s : Daemon) → Quiet s s
Quiet-refl s = record { same_busy = refl; same_talk = refl }

pub Quiet-trans : {s t u : Daemon} → Quiet s t → Quiet t u → Quiet s u
Quiet-trans h k = record {
  same_busy = k.same_busy ∙ h.same_busy;
  same_talk = k.same_talk ∙ h.same_talk;
}

send_report-Quiet : (s : Daemon) (p : List ℕ) → Quiet s (send_report s p)
unfolding send_report
send_report-Quiet s p = record {
  same_busy = ground arith;
  same_talk =
      ground (arith, talk-append s.done (uhid (input2_event p) ∷ []), append-nil (talk s.done));
}

send_reports-Quiet : (s : Daemon) (ps : List (List ℕ)) → Quiet s (send_reports s ps)
unfolding send_reports
send_reports-Quiet s [] = Quiet-refl s
send_reports-Quiet s (p ∷ ps) =
    Quiet-trans (send_report-Quiet s p) (send_reports-Quiet (send_report s p) ps)

reply-Quiet :
    (s : Daemon) (channel command : ℕ) (bytes : List ℕ) → Quiet s (reply s channel command bytes)
unfolding reply
reply-Quiet s channel command bytes = send_reports-Quiet s (reply_packets channel command bytes)

pub error-Quiet : (s : Daemon) (channel code : ℕ) → Quiet s (error s channel code)
unfolding error
error-Quiet s channel code = reply-Quiet s channel _ _

claim-Quiet : (s : Daemon) (channel : ℕ) → Quiet s (claim s channel)
unfolding claim
claim-Quiet s channel = ground arith

dispatch_init-Quiet :
    (s : Daemon) (channel : ℕ) (bytes : List ℕ) → Quiet s (dispatch_init s channel bytes)
unfolding dispatch_init
dispatch_init-Quiet s channel bytes = elim (Bool-cases (not (length bytes == 8))) [
  | inl bad ↦ rw bad (error-Quiet s channel _)
  | inr good ↦
      rw good (Quiet-trans (claim-Quiet s channel) (reply-Quiet (claim s channel) channel init _))
]

-- What `dispatch` may do otherwise: start the request `new_request` where none was in progress.
abbrev Started : Daemon → ℕ → List ℕ → Daemon → Type 0
Started s channel bytes t =
    (s.busy ≡ none)
    × (is_empty bytes ≡ false)
    × (is_empty (live_links s) ≡ false)
    × (channel ≢ 0)
    × (channel ≢ broadcast)
    × (t.busy ≡ some (new_request s channel))
    × (talk t.done ≡ talk s.done ++ spawn (new_request s channel) bytes ∷ [])

busy-cases : (s : Daemon) → (s.busy ≡ none) ⊎ ((r : Request) × (s.busy ≡ some r))
busy-cases s = Option-cases s.busy

pub dispatch_request_blocked :
    (s : Daemon) (channel : ℕ) (bytes : List ℕ) (r : Request)
    → s.busy ≡ some r
    → Quiet s (dispatch_request s channel bytes)
unfolding dispatch_request
dispatch_request_blocked s channel bytes r e =
    let k =
      error-Quiet
        (record s { next_request = u32 (s.next_request + 1); next_serial = suc s.next_serial })
        channel err_channel_busy in
    ground arith

pub dispatch_request_started :
    (s : Daemon) (channel : ℕ) (bytes : List ℕ)
    → s.busy ≡ none
    → let t = dispatch_request s channel bytes in
      (t.busy ≡ some (new_request s channel))
      × (talk t.done ≡ talk s.done ++ spawn (new_request s channel) bytes ∷ [])
unfolding dispatch_request
dispatch_request_started s channel bytes e =
    ground (arith, talk-append s.done (spawn (new_request s channel) bytes ∷ []))

-- What decides whether a message becomes a request for the phones.
abbrev IsRequest : Daemon → ℕ → ℕ → List ℕ → Type 0
IsRequest s channel command bytes =
    (command ≡ cbor)
    × (is_empty bytes ≡ false)
    × (is_empty (live_links s) ≡ false)
    × (channel ≢ 0)
    × (channel ≢ broadcast)

pub dispatch_cases :
    (s : Daemon) (channel command : ℕ) (bytes : List ℕ)
    → Quiet s (dispatch s channel command bytes)
      ⊎ (IsRequest s channel command bytes
          × (dispatch s channel command bytes ≡ dispatch_request s channel bytes))
unfolding dispatch
dispatch_cases s channel command bytes = ground (
  arith,
  dispatch_init-Quiet s channel bytes,
  error-Quiet s channel err_invalid_channel,
  error-Quiet s channel err_invalid_cmd,
  reply-Quiet s channel ping_cmd bytes,
  reply-Quiet s channel wink [],
  reply-Quiet s channel cbor (ctap2_err_other ∷ []),
)

pub dispatch-init :
    (s : Daemon) (channel : ℕ) (bytes : List ℕ) → Quiet s (dispatch s channel init bytes)
unfolding dispatch
dispatch-init s channel bytes = dispatch_init-Quiet s channel bytes
