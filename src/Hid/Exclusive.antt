-- ===== src/Hid/Exclusive.antt =====
-- One request at a time: what packets do while a request is in progress, and when one starts.
use passkey.Base.{
  ℕ, ◌≤◌, ◌≡◌, refl, sym, ap, ◌∙◌, ◌≢◌, ◌⊎◌, inl, inr, true, false, not, List, [], ◌∷◌, ◌++◌, none,
  some, arith, leb, ◌==◌, length, take, Bool-cases, Option-cases, ltb-false,
}
use passkey.Base.Dict.{lookup}
use passkey.Daemon.{Daemon, Partial, Request, spawn}
use passkey.Hid.{
  cancel, dispatch, complete, start, resume, set_partial, drop_partial, new_request, is_empty,
}
use passkey.Report.{init, cancel_cmd, err_invalid_len, err_invalid_seq, err_channel_busy}
use passkey.Hid.Pieces.{complete-set_partial}
use passkey.Hid.Busy.{
  dispatch-init, talk, Quiet, Quiet-refl, Quiet-trans, error-Quiet, dispatch_cases,
  dispatch_request_blocked, dispatch_request_started,
}

set_partial-Quiet : (s : Daemon) (channel : ℕ) (p : Partial) → Quiet s (set_partial s channel p)
set_partial-Quiet s channel p = record { same_busy = refl; same_talk = refl }

pub drop_partial-Quiet : (s : Daemon) (channel : ℕ) → Quiet s (drop_partial s channel)
drop_partial-Quiet s channel = record { same_busy = refl; same_talk = refl }

-- What a handler does for one channel: answer only, or start a request of that channel.
abbrev pub Outcome : Daemon → ℕ → Daemon → Type 0
Outcome s channel t =
    Quiet s t
    ⊎ ((r : Request) × (bytes : List ℕ) × (s.busy ≡ none)
        × (t.busy ≡ some r)
        × (r.channel ≡ channel)
        × (bytes ≢ [])
        × (talk t.done ≡ talk s.done ++ spawn r bytes ∷ []))

not_empty : (bytes : List ℕ) → is_empty bytes ≡ false → bytes ≢ []
not_empty [] h e = cc
not_empty (x ∷ xs) h e = cc

dispatch-Outcome :
    (s : Daemon) (channel command : ℕ) (bytes : List ℕ)
    → Outcome s channel (dispatch s channel command bytes)
dispatch-Outcome s channel command bytes = elim (dispatch_cases s channel command bytes) [
  | inl q ↦ inl q
  | inr (h, e) ↦ elim (Option-cases s.busy) [
    | inl idle ↦
        let (b, k) = dispatch_request_started s channel bytes idle in
        inr (new_request s channel, bytes, idle, rw e b, refl, not_empty bytes h.1, rw e k)
    | inr (r, busy) ↦ inl (rw e (dispatch_request_blocked s channel bytes r busy))
  ]
]

-- Only the busy request and what was said to phones matter at the start.
Outcome-after :
    {s t u : Daemon} (channel : ℕ) → Quiet s t → Outcome t channel u → Outcome s channel u
Outcome-after channel q (inl k) = inl (Quiet-trans q k)
Outcome-after channel q (inr (r, bytes, idle, b, c, n, k)) =
    inr (
      r,
      bytes,
      sym q.same_busy ∙ idle,
      b,
      c,
      n,
      k ∙ ap (λ es. es ++ spawn r bytes ∷ []) q.same_talk,
    )

complete-Outcome : (s : Daemon) (channel : ℕ) → Outcome s channel (complete s channel)
unfolding complete
complete-Outcome s channel = elim (Option-cases (lookup channel s.partial)) [
  | inl e ↦ rw (e, complete) (inl (Quiet-refl s))
  | inr (p, e) ↦
      rw (e, complete)
        (elim (Bool-cases (leb p.total (length p.received))) [
          | inl whole ↦ rw whole (
              Outcome-after channel (drop_partial-Quiet s channel)
                (dispatch-Outcome (drop_partial s channel) channel p.command p.received))
          | inr part ↦ rw part (inl (Quiet-refl s))
        ])
]

-- An INIT abandons the request of its own channel first, and never starts one.
pub start-init :
    (s : Daemon) (channel total : ℕ) (payload : List ℕ)
    → total ≤ 7609
    → Quiet
        (cancel (drop_partial s channel) (some channel) true)
        (start s channel init total payload)
unfolding start
start-init s channel total payload fits = rw (ltb-false 7609 total fits) (
    let t = cancel (drop_partial s channel) (some channel) true in
    let p : Partial = record {
      command = init;
      total = total;
      received = take total payload;
      next_sequence = 0;
    } in
    rw (complete-set_partial t channel p)
      (elim (Bool-cases (leb total (length (take total payload)))) [
        | inl whole ↦ rw whole (
            Quiet-trans (drop_partial-Quiet t channel)
              (dispatch-init (drop_partial t channel) channel (take total payload)))
        | inr part ↦ rw part (set_partial-Quiet t channel p)
      ]))

pub start-Outcome :
    (s : Daemon) (channel command total : ℕ) (payload : List ℕ)
    → command ≢ init
    → command ≢ cancel_cmd
    → Outcome s channel (start s channel command total payload)
unfolding start
start-Outcome s channel command total payload not_init not_cancel =
    let p : Partial = record {
      command = command;
      total = total;
      received = take total payload;
      next_sequence = 0;
    } in
    ground (
      arith,
      error-Quiet s channel err_invalid_len,
      error-Quiet s channel err_channel_busy,
      Outcome-after {s = s} {t = set_partial s channel p} channel (set_partial-Quiet s channel p)
          (complete-Outcome (set_partial s channel p) channel),
    )

pub resume-Outcome :
    (s : Daemon) (channel sequence : ℕ) (payload : List ℕ)
    → Outcome s channel (resume s channel sequence payload)
unfolding resume
resume-Outcome s channel sequence payload = elim (Option-cases (lookup channel s.partial)) [
  | inl e ↦ rw (e, resume) (inl (Quiet-refl s))
  | inr (p, e) ↦
      rw (e, resume)
        (elim (Bool-cases (not (sequence == p.next_sequence))) [
          | inl wrong ↦ rw wrong (
              inl (
                Quiet-trans (drop_partial-Quiet s channel)
                  (error-Quiet (drop_partial s channel) channel err_invalid_seq)))
          | inr right ↦ rw right (
              Outcome-after channel (set_partial-Quiet s channel _)
                (complete-Outcome (set_partial s channel _) channel))
        ])
]
