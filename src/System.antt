-- ===== src/System.antt =====
-- src/daemon.rs: the daemon's threads beside each other, as a relation between states. A step is
-- what one thread does between two of its waits.
pub mod Invariant
pub mod Over
use passkey.Base.{ℕ, Bool, List, ◌≡◌}
use passkey.Link.{Link}
use passkey.Daemon.{Daemon, Request}
use passkey.Links.{close}
use passkey.Uhid.{add, remove, reader_ended, handle_event}
use passkey.Fan.{set_pending, keep_alive, end_fan_out}
use passkey.Hid.{finish_request}
use passkey.Rounds.{Outcome, remember, respond}

-- The reader of the uhid file, the threads that find and lose phones, and for each request its
-- thread: it notes which phones have the request, keeps the host waiting, withdraws the request
-- at the end of a fan-out, remembers who approved, answers the host if the request was the busy one
-- when it looked, which may be earlier than this step, and is over.
pub data Step (s t : Daemon) : Type 0 where
  host_event : (event : List ℕ) → t ≡ handle_event s event → Step s t
  reader_end : (opens : Bool) (generation : ℕ) → t ≡ reader_ended opens s generation → Step s t
  connected : (opens : Bool) (link : Link) → t ≡ add opens s link → Step s t
  closed : (serial : ℕ) → t ≡ close s serial → Step s t
  disconnected : (opens : Bool) (link : Link) → t ≡ remove opens s link → Step s t
  sent_out : (request : Request) (links : List Link) → t ≡ set_pending s request links → Step s t
  waited : (request : Request) → t ≡ keep_alive s request → Step s t
  gathered : (request : Request) (links : List Link) → t ≡ end_fan_out s request links → Step s t
  remembered :
      (command : ℕ) (probe : Bool) (outcome : Outcome)
      → t ≡ remember command probe outcome s
      → Step s t
  responded :
      (request : Request) (current : Bool) (outcome : Outcome)
      → t ≡ respond s request current outcome
      → Step s t
  finished : (request : Request) → t ≡ finish_request s request → Step s t

pub data Reach (s : Daemon) : Daemon → Type 0 where
  here : Reach s s
  next : {t u : Daemon} → Reach s t → Step t u → Reach s u
