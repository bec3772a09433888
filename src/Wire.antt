-- ===== src/Wire.antt =====
-- src/daemon.rs, the frames between the daemon and a phone: `frame`, `decode_response`, the two
-- messages that the daemon sends, and the reading loop of a link.
pub mod Framing
use passkey.Base.{
  ℕ, zero, suc, ◌+◌, Bool, true, false, ◌&&◌, List, [], ◌∷◌, ◌++◌, Option, none, some, leb, ◌==◌,
  if◌then◌else◌, length, take, drop,
}
use passkey.Base.Bytes.{u32, be32, from_be32}

abbrev req : ℕ
req = 0x10

abbrev pub cancel : ℕ
cancel = 0x11

abbrev pub ping : ℕ
ping = 0x12

abbrev pub resp : ℕ
resp = 0x20

abbrev pub pong : ℕ
pong = 0x22

-- `frame`: the body behind its length, `body.len() as u32`.
unfoldable pub frame : List ℕ → List ℕ
frame body = be32 (u32 (length body)) ++ body

-- `decode_response`. A body that matches has its five bytes.
unfoldable decode_response : List ℕ → Option (ℕ × List ℕ)
decode_response (r ∷ a ∷ b ∷ c ∷ d ∷ payload) =
    if r == resp then some (from_be32 a b c d, payload) else none
decode_response _ = none

-- The message that `fan_out` sends.
unfoldable pub request_message : ℕ → List ℕ → List ℕ
request_message number body = req ∷ (be32 number ++ body)

-- The message that `withdraw` sends.
unfoldable pub cancel_message : ℕ → List ℕ
cancel_message number = cancel ∷ be32 number

-- What `read_link` does with one body.
pub data Heard : Type 0 where
  response : ℕ → List ℕ → Heard
  ponged : Heard
  ignored : Heard
  panicked : Heard

-- The `match` on the body: `panicked` is the index `body[0]` of an empty body, or the `unwrap` of
-- `decode_response`.
unfoldable pub hear : List ℕ → Heard
unfolding decode_response
hear [] = panicked
hear (kind ∷ rest) =
    if kind == resp && leb 5 (length (kind ∷ rest))
    then elim (decode_response (kind ∷ rest)) [
      | none ↦ panicked
      | some (number, payload) ↦ response number payload
    ]
    else if kind == pong
    then ponged
    else ignored

-- `read_exact` on what is still to come before the end of the stream.
unfoldable pub read_exact : ℕ → List ℕ → Option (List ℕ × List ℕ)
read_exact n input = if leb n (length input) then some (take n input, drop n input) else none

pub data Ended : Type 0 where
  eof : Ended
  bad_length : ℕ → Ended
  out_of_fuel : Ended

-- One frame from the front of the stream: its body and what follows.
pub data Frame : Type 0 where
  body : List ℕ → List ℕ → Frame
  ended : Ended → Frame

read_body : ℕ → List ℕ → Frame
unfolding read_exact
read_body size rest =
    if leb 1 size && leb size 8192
    then elim (read_exact size rest) [ none ↦ ended eof | some (b, more) ↦ body b more ]
    else ended (bad_length size)

unfoldable pub read_frame : List ℕ → Frame
unfolding read_body
read_frame (a ∷ b ∷ c ∷ d ∷ rest) = read_body (from_be32 a b c d) rest
read_frame _ = ended eof

-- `read_link` on the bytes that arrive before the stream ends. A round takes five bytes at least.
unfoldable pub read_loop : ℕ → List ℕ → List Heard × Ended
unfolding read_frame hear
read_loop zero input = ([], out_of_fuel)
read_loop (suc fuel) input = elim (read_frame input) [
  | ended e ↦ ([], e)
  | body b rest ↦ (hear b ∷ (read_loop fuel rest).0, (read_loop fuel rest).1)
]

unfoldable pub read_link : List ℕ → List Heard × Ended
unfolding read_loop
read_link input = read_loop (suc (length input)) input
