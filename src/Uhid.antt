-- ===== src/Uhid.antt =====
-- src/daemon.rs, the virtual FIDO device: it stands while a phone is connected, its events are
-- read and answered, and connections come and go.
pub mod Device
pub mod Events
use passkey.Base.{
  ℕ, suc, ◌+◌, ◌*◌, ◌%◌, ◌^◌, Bool, true, false, not, ◌&&◌, ◌||◌, List, [], ◌∷◌, ◌++◌, Option, none,
  some, if◌then◌else◌, leb, ltb, ◌==◌, length, take, drop, replicate, min,
}
use passkey.Base.Text.{Text, codes}
use passkey.Link.{Link}
use passkey.Daemon.{Daemon, emit, uhid, uhid_event_size, splice, put_u16_le, put_u32_le, write_uhid}
use passkey.Hid.{live_links, is_empty, cancel, packet}
use passkey.Links.{publish, without}

abbrev uhid_destroy : ℕ
uhid_destroy = 1

abbrev pub uhid_close : ℕ
uhid_close = 5

abbrev pub uhid_output : ℕ
uhid_output = 6

abbrev pub uhid_get_report : ℕ
uhid_get_report = 9

abbrev pub uhid_get_report_reply : ℕ
uhid_get_report_reply = 10

abbrev uhid_create2 : ℕ
uhid_create2 = 11

abbrev pub uhid_set_report : ℕ
uhid_set_report = 13

abbrev pub uhid_set_report_reply : ℕ
uhid_set_report_reply = 14

abbrev report_desc : List ℕ
report_desc =
    0x06 ∷ 0xd0 ∷ 0xf1 ∷ 0x09 ∷ 0x01 ∷ 0xa1 ∷ 0x01 ∷ 0x09 ∷ 0x20 ∷ 0x15 ∷ 0x00 ∷ 0x26 ∷ 0xff ∷ 0x00
    ∷ 0x75 ∷ 0x08 ∷ 0x95 ∷ 0x40 ∷ 0x81 ∷ 0x02 ∷ 0x09 ∷ 0x21 ∷ 0x15 ∷ 0x00 ∷ 0x26 ∷ 0xff ∷ 0x00
    ∷ 0x75 ∷ 0x08 ∷ 0x95 ∷ 0x40 ∷ 0x91 ∷ 0x02 ∷ 0xc0 ∷ []

abbrev blank_event : List ℕ
blank_event = replicate uhid_event_size 0

-- The event that `create_uhid` writes.
unfoldable pub create_event : List ℕ
unfolding splice put_u16_le put_u32_le
create_event =
    let e : List ℕ = splice (put_u32_le blank_event 0 uhid_create2) 4 (codes "passkey") in
    let e : List ℕ = put_u16_le (put_u16_le e 260 (length report_desc)) 262 0x03 in
    let e : List ℕ = put_u32_le (put_u32_le (put_u32_le e 264 0x1209) 268 0x7ab1) 272 1 in
    splice e 280 report_desc

unfoldable pub destroy_event : List ℕ
unfolding put_u32_le
destroy_event = put_u32_le blank_event 0 uhid_destroy

-- The answer to a GET_REPORT or SET_REPORT event: error 5 for the event's id.
unfoldable pub refusal_event : ℕ → ℕ → List ℕ
unfolding put_u16_le put_u32_le
refusal_event reply id = put_u16_le (put_u32_le (put_u32_le blank_event 0 reply) 4 id) 8 5

-- `create_uhid`; `opens` tells whether /dev/uhid can be opened, written and duplicated. A
-- failure before that leaves the state as it was.
unfoldable pub create_uhid : Bool → Daemon → Daemon
create_uhid opens s =
    if s.file
    then s
    else if opens
    then record s {
      done = s.done ++ uhid create_event ∷ [];
      generation = s.next_generation;
      file = true;
      next_generation = (s.next_generation + 1) % 2 ^ 64;
    }
    else s

unfoldable pub destroy_uhid : Daemon → Daemon
destroy_uhid s =
    if s.file
    then record s { done = s.done ++ uhid destroy_event ∷ []; generation = 0; file = false }
    else s

unfoldable pub sync_uhid : Bool → Daemon → Daemon
unfolding live_links create_uhid destroy_uhid
sync_uhid opens s =
    if is_empty (live_links s) then destroy_uhid (cancel s none false) else create_uhid opens s

-- `add`, where the stream can be duplicated; where it cannot nothing happens.
unfoldable pub add : Bool → Daemon → Link → Daemon
unfolding sync_uhid
add opens s link = sync_uhid opens (publish (record s { links = s.links ++ link ∷ [] }))

-- `remove`: nothing is published where the link was not in the list.
unfoldable pub remove : Bool → Daemon → Link → Daemon
unfolding sync_uhid without
remove opens s link =
    let left = without link.serial s.links in
    let s' = record s { links = left } in
    if length s.links == length left then s' else sync_uhid opens (publish s')

-- The end of `read_uhid`, for the thread that read the file of one generation.
unfoldable pub reader_ended : Bool → Daemon → ℕ → Daemon
unfolding sync_uhid
reader_ended opens s generation =
    if s.generation == generation
    then sync_uhid opens (record s { file = false; generation = 0 })
    else s

-- Numbers of two and four bytes, lowest byte first, at the front of a list that has them.
abbrev pub from_le16 : List ℕ → ℕ
from_le16 (a ∷ b ∷ rest) = a + b * 256
from_le16 _ = 0

abbrev pub from_le32 : List ℕ → ℕ
from_le32 (a ∷ b ∷ c ∷ d ∷ rest) = a + b * 256 + c * 65536 + d * 16777216
from_le32 _ = 0

-- A report id in front of 64 bytes is dropped.
abbrev pub without_id : List ℕ → List ℕ
without_id report = take 64 (if length report == 65 then drop 1 report else report)

-- The report of an OUTPUT event: so many of its 4096 bytes of data as it says.
unfoldable pub output_report : List ℕ → List ℕ
output_report event = without_id (take (min (from_le16 (drop 4100 event)) 4096) (drop 4 event))

-- One event of `read_uhid_events`: `event` holds the bytes that were read.
unfoldable pub handle_event : Daemon → List ℕ → Daemon
unfolding output_report write_uhid
handle_event s event =
    let kind = from_le32 event in
    let size = length event in
    if ltb size 4
    then s
    else if kind == uhid_output && leb 4102 size
    then packet s (output_report event)
    else if kind == uhid_close
    then cancel s none false
    else if (kind == uhid_get_report || kind == uhid_set_report) && leb 8 size
    then write_uhid s (
        refusal_event
          (if kind == uhid_get_report then uhid_get_report_reply else uhid_set_report_reply)
          (from_le32 (drop 4 event)))
    else s

-- The events that one reader gets while its file is the open one.
unfoldable handle_events : ℕ → Daemon → List (List ℕ) → Daemon
unfolding handle_event
handle_events generation s [] = s
handle_events generation s (e ∷ es) =
    let next = handle_events generation (handle_event s e) es in
    if not (s.generation == generation) then s else next
