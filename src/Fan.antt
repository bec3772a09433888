-- ===== src/Fan.antt =====
-- src/daemon.rs, `fan_out`: one request goes to several phones, and the answers are collected.
-- What the threads and the clock do meanwhile enters as one observation for each round of the
-- loop.
pub mod Rule
pub mod Account
pub mod Verdict
pub mod Finish
use passkey.Base.{
  ℕ, zero, suc, ◌+◌, Bool, true, false, not, ◌&&◌, ◌||◌, List, [], ◌∷◌, ◌++◌, map, Option, none,
  some, if◌then◌else◌, ◌==◌, filter,
}
use passkey.Link.{Link}
use passkey.Wire.{request_message}
use passkey.Daemon.{Daemon, Effect, to_link, Request, withdraw}
use passkey.Hid.{is_empty}
use passkey.Report.{ctap2_err_other, reply, keepalive}
use passkey.Hid.Packet.{told}
use passkey.Links.{without}

abbrev pub operation_denied : ℕ
operation_denied = 0x27

-- One round of the loop: whether the deadline has passed, whether the request is still the busy
-- one, whether 100 ms have gone by since the last keepalive, and what `try_recv` gives at each link.
pub record Poll : Type 0 where
  pub expired : Bool
  pub current : Bool
  pub beat : Bool
  pub recv : ℕ → Option (ℕ × List ℕ)

-- The variables of the loop; `beats` counts the keepalives that were sent.
pub record Fan : Type 0 where
  pub pending : List Link
  pub wins : List (Link × List ℕ)
  pub errors : List (List ℕ)
  pub finished : Bool
  pub beats : ℕ

abbrev pub settle : Fan → Link → Fan
settle f link = record f { pending = without link.serial f.pending }

abbrev add_error : Fan → List ℕ → Fan
add_error f error = record f { errors = f.errors ++ error ∷ [] }

-- The answer to this request, from a link that is no longer pending.
unfoldable pub judge : Bool → Fan → Link → List ℕ → Fan
judge wait_all f link [] = add_error f (ctap2_err_other ∷ [])
judge wait_all f link (status ∷ payload) =
    if status == 0
    then record f { wins = f.wins ++ (link, status ∷ payload) ∷ []; finished = not wait_all }
    else record (add_error f (status ∷ payload)) {
      finished = status == operation_denied && not wait_all;
    }

-- One message from a link: it closed, it answers another request, or it answers this one.
unfoldable pub answer : Bool → ℕ → Fan → Link → ℕ → List ℕ → Fan
unfolding judge without
answer wait_all number f link n payload =
    if n == 0 && is_empty payload
    then add_error (settle f link) (ctap2_err_other ∷ [])
    else if not (n == number)
    then f
    else judge wait_all (settle f link) link payload

-- The `for` loop over the links that were pending at its start. The second part of the result
-- tells whether anything was heard. `finished` is false until the answer that ends the loop.
unfoldable pub pass : Bool → ℕ → (ℕ → Option (ℕ × List ℕ)) → List Link → Fan → Bool → Fan × Bool
unfolding answer
pass wait_all number recv [] f heard = (f, heard)
pass wait_all number recv (link ∷ links) f heard = elim (recv link.serial) [
  | none ↦ pass wait_all number recv links f heard
  | some (n, payload) ↦
      let f' = answer wait_all number f link n payload in
      let rest = pass wait_all number recv links f' true in if f'.finished then (f', true) else rest
]

-- The keepalive after a round in which nothing was heard.
abbrev pub pulse : Bool → Fan × Bool → Fan
pulse beat (f, heard) = if not heard && beat then record f { beats = suc f.beats } else f

unfoldable pub round : Bool → ℕ → Poll → Fan → Fan
unfolding pass
round wait_all number p f = pulse p.beat (pass wait_all number p.recv f.pending f false)

abbrev pub settled : Fan → Bool
settled f = is_empty f.pending || f.finished

-- The `while` loop. `none` means that the observations ended before the loop did.
unfoldable pub loop : Bool → ℕ → List Poll → Fan → Option Fan
unfolding round
loop wait_all number [] f = if settled f then some f else none
loop wait_all number (p ∷ ps) f =
    let rest = loop wait_all number ps (round wait_all number p f) in
    if settled f then some f else if p.expired || not p.current then some f else rest

-- The links to which the request was sent; `sends` tells of which links `send` succeeds.
abbrev pub sent : (ℕ → Bool) → List Link → List Link
sent sends targets = filter (λ link. sends link.serial) targets

abbrev pub begun : List Link → Fan
begun links = record { pending = links; wins = []; errors = []; finished = false; beats = 0 }

-- `fan_out`: the loop's end.
unfoldable pub fan_out : ℕ → (ℕ → Bool) → List Poll → Bool → List Link → Option Fan
unfolding loop
fan_out number sends polls wait_all targets =
    loop wait_all number polls (begun (sent sends targets))

-- What the phones are told, from the first request to the withdrawal at the end.
unfoldable pub messages : Request → List ℕ → (ℕ → Bool) → List Link → Fan → List Effect
messages request bytes sends targets f =
    map (λ link. to_link link (request_message request.number bytes)) (sent sends targets)
    ++ told request f.pending

abbrev pub with_pending : Daemon → Request → List Link → Option Request → Daemon
with_pending s request links none = s
with_pending s request links (some current) =
    if current.serial == request.serial
    then record s { busy = some (record current { pending = links }) }
    else s

-- `*request.pending.lock().unwrap() = pending.clone()`; only that of the busy request is read.
unfoldable pub set_pending : Daemon → Request → List Link → Daemon
set_pending s request links = with_pending s request links s.busy

unfoldable pub keep_alive : Daemon → Request → Daemon
unfolding reply
keep_alive s request = reply s request.channel keepalive (2 ∷ [])

-- The last lines of `fan_out`.
unfoldable pub end_fan_out : Daemon → Request → List Link → Daemon
unfolding set_pending withdraw
end_fan_out s request links = withdraw (set_pending s request []) request links
