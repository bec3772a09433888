-- ===== src/Daemon.antt =====
-- src/daemon.rs: the state that the daemon's threads share, and what they do to the outside.
use passkey.Base.{
  ℕ, ◌+◌, Bool, false, List, [], ◌∷◌, ◌++◌, Option, none, if◌then◌else◌, length, take, drop,
  replicate, leb,
}
use passkey.Base.Text.{Text}
use passkey.Base.Bytes.{le16, le32}
use passkey.Link.{Link}
use passkey.Wire.{cancel_message}

-- `Partial`: a message of which some packets have come. `received` is the field `data`.
pub record Partial : Type 0 where
  pub command : ℕ
  pub total : ℕ
  pub received : List ℕ
  pub next_sequence : ℕ

-- `Request`; `serial` is the identity that `Arc::ptr_eq` compares, and `pending` the content of
-- the mutex, which only the cancellation of the busy request reads.
pub record Request : Type 0 where
  pub serial : ℕ
  pub channel : ℕ
  pub number : ℕ
  pub pending : List Link

-- A write to /dev/uhid, a `Link::send` of a body, the start of a `handle_cbor` thread, and the
-- new content of the state file `devices`.
pub data Effect : Type 0 where
  uhid : List ℕ → Effect
  to_link : Link → List ℕ → Effect
  spawn : Request → List ℕ → Effect
  devices : Text → Effect

-- `Daemon` with its `HidState` and `UhidState`: `file` tells whether the uhid file is open.
-- `next_serial` gives each request its identity. `done` lists the effects, oldest first.
pub record Daemon : Type 0 where
  pub links : List Link
  pub partial : List (ℕ × Partial)
  pub busy : Option Request
  pub holders : List Text
  pub last : Option Text
  pub generation : ℕ
  pub file : Bool
  pub next_request : ℕ
  pub next_channel : ℕ
  pub next_generation : ℕ
  pub next_serial : ℕ
  pub done : List Effect

-- `Daemon::new`, with the process id.
unfoldable pub new : ℕ → Daemon
new pid = record {
  links = [];
  partial = [];
  busy = none;
  holders = [];
  last = none;
  generation = 0;
  file = false;
  next_request = 1;
  next_channel = if leb 1 pid then pid else 1;
  next_generation = 1;
  next_serial = 0;
  done = [];
}

abbrev pub emit : Daemon → Effect → Daemon
emit s e = record s { done = s.done ++ e ∷ [] }

-- The events of the uhid protocol.
abbrev pub uhid_event_size : ℕ
uhid_event_size = 4376

abbrev pub uhid_input2 : ℕ
uhid_input2 = 12

-- `buffer[offset..offset + n].copy_from_slice(bytes)`, which `put_u16_le` and `put_u32_le` use.
unfoldable pub splice : List ℕ → ℕ → List ℕ → List ℕ
splice buffer offset bytes = take offset buffer ++ (bytes ++ drop (offset + length bytes) buffer)

unfoldable pub put_u16_le : List ℕ → ℕ → ℕ → List ℕ
unfolding splice
put_u16_le buffer offset value = splice buffer offset (le16 value)

unfoldable pub put_u32_le : List ℕ → ℕ → ℕ → List ℕ
unfolding splice
put_u32_le buffer offset value = splice buffer offset (le32 value)

-- `write_uhid`: a write where no file is open is dropped.
unfoldable pub write_uhid : Daemon → List ℕ → Daemon
write_uhid s event = if s.file then emit s (uhid event) else s

-- The event that `send_report` builds.
unfoldable pub input2_event : List ℕ → List ℕ
unfolding splice put_u16_le put_u32_le
input2_event report =
    splice (put_u16_le (put_u32_le (replicate uhid_event_size 0) 0 uhid_input2) 4 64) 6
      (take 64 report)

unfoldable pub send_report : Daemon → List ℕ → Daemon
unfolding write_uhid
send_report s report = write_uhid s (input2_event report)

-- `withdraw`: every link of the list is told to drop the request.
unfoldable pub withdraw : Daemon → Request → List Link → Daemon
withdraw s request [] = s
withdraw s request (link ∷ links) =
    withdraw (emit s (to_link link (cancel_message request.number))) request links
