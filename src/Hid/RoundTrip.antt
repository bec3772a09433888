-- ===== src/Hid/RoundTrip.antt =====
-- The daemon puts a message together from the packets into which `reply` cuts one.
use passkey.Base.{
  ℕ, zero, suc, ◌+◌, ◌-◌, ◌/◌, ◌%◌, not, ◌&&◌, ltb-false, ==_ne, ◌≤◌, ◌<◌, ◌≡◌, ap, ◌∙◌, ◌≢◌, false,
  List, [], ◌∷◌, ◌++◌, map, arith, leb, length, take, drop, replicate, length-append, length-take,
  length-drop, take-append, take-append-drop, append_assoc, append-nil, take_all, Bool-cases, inl,
  inr, leb→le, not_leb→lt,
}
use passkey.Base.Bytes.{u8, u16, from_be16, be32, from_be32-be32}
use passkey.Daemon.{Daemon, Partial}
use passkey.Hid.{
  owns, set_partial, drop_partial, dispatch, complete, is_some, start, packet, packets,
}
use passkey.Report.{init, cancel_cmd, rest_packets, first_packet, reply_packets}
use passkey.Hid.Pieces.{
  pad, grown, Awaits, packet-chunk, complete_whole, complete_part, rest_packets-nil, packets-cons,
  packets-nil, drop_past,
}

packets-rest :
    (fuel : ℕ) (s : Daemon) (channel : ℕ) (p : Partial) (rest : List ℕ)
    → Awaits channel p rest
    → length rest ≤ fuel
    → packets (set_partial s channel p) (map pad (rest_packets fuel channel p.next_sequence rest))
      ≡ dispatch (drop_partial s channel) channel p.command (p.received ++ rest)
unfolding rest_packets
packets-rest zero s channel p rest h f = absurd (omega arith)
packets-rest (suc fuel) s channel p [] h f = absurd (omega arith)
packets-rest (suc fuel) s channel p (x ∷ xs) h f =
    let rest : List ℕ = x ∷ xs in
    let q : Partial = grown p (take 59 rest) in
    let more : List (List ℕ) =
      map pad (rest_packets fuel channel (u8 (p.next_sequence + 1)) (drop 59 rest)) in
    packets-cons (set_partial s channel p) _ more
    ∙ ap (λ t. packets t more) (packet-chunk s channel p rest h)
    ∙ elim (Bool-cases (leb (length rest) 59)) [
      | inl short ↦
          let fits : length rest ≤ 59 = leb→le (length rest) 59 short in
          rw (drop_past 59 rest fits, rest_packets-nil fuel, take_all 59 rest fits, packets-nil)
            (complete_whole s channel (grown p rest) (omega (arith, length-append p.received rest)))
      | inr long ↦
          let over : 59 < length rest = not_leb→lt (length rest) 59 long in
          let size : length (take 59 rest) ≡ 59 = omega (arith, length-take 59 rest) in
          let sum : length q.received ≡ length p.received + 59 =
            omega (arith, length-append p.received (take 59 rest)) in
          let left : length (drop 59 rest) ≡ length rest - 59 = length-drop 59 rest in
          ap (λ t. packets t more) (complete_part s channel q (omega arith))
          ∙ packets-rest fuel s channel q (drop 59 rest)
              (h.0, omega arith, omega arith, omega arith) (omega arith)
          ∙ ap (dispatch (drop_partial s channel) channel p.command) (
              append_assoc p.received (take 59 rest) (drop 59 rest)
              ∙ ap (λ b. p.received ++ b) (take-append-drop 59 rest))
    ]

-- A message of another command than INIT and CANCEL, on a channel that is free to use.
abbrev IsMessage : Daemon → ℕ → ℕ → List ℕ → Type 0
IsMessage s channel command bytes =
    (channel < 4294967296)
    × (128 ≤ command)
    × (command ≢ cancel_cmd)
    × (command ≢ init)
    × (length bytes ≤ 7609)
    × ((is_some s.busy && not (owns channel s.busy)) ≡ false)

abbrev opened : ℕ → ℕ → List ℕ → Partial
opened command total received = record {
  command = command;
  total = total;
  received = received;
  next_sequence = 0;
}

pub packet-begin :
    (s : Daemon) (channel command hi lo : ℕ) (payload : List ℕ)
    → channel < 4294967296
    → 128 ≤ command
    → packet s (be32 channel ++ command ∷ hi ∷ lo ∷ payload)
      ≡ start s channel command (from_be16 hi lo) payload
unfolding packet
packet-begin s channel command hi lo payload hc hm = ground (arith, from_be32-be32 channel hc)

start_fresh :
    (s : Daemon) (channel command : ℕ) (bytes payload : List ℕ)
    → IsMessage s channel command bytes
    → start s channel command (length bytes) payload
      ≡ complete
          (set_partial s channel (opened command (length bytes) (take (length bytes) payload)))
          channel
unfolding start
start_fresh s channel command bytes payload (hc, hm, not_cancel, not_init, fits, free) = rw (
  ltb-false 7609 (length bytes) fits,
  ==_ne command cancel_cmd not_cancel,
  ==_ne command init not_init,
  free,
)

-- After the first packet: what it carries, and zeros up to its 64 bytes.
begun :
    (s : Daemon) (channel command : ℕ) (bytes : List ℕ)
    → IsMessage s channel command bytes
    → packet s (pad (first_packet channel command bytes))
      ≡ complete (set_partial s channel (opened command (length bytes) (take 57 bytes))) channel
unfolding first_packet
begun s channel command bytes h =
    let zeros : List ℕ =
      replicate (64 - (suc (suc (suc (suc (suc (suc (suc (length (take 57 bytes)))))))))) 0 in
    let payload : List ℕ = take 57 bytes ++ zeros in
    let size : from_be16 (u16 (length bytes) / 256 % 256) (u16 (length bytes) % 256)
        ≡ length bytes =
      omega arith in
    packet-begin s channel command _ _ payload h.0 h.1
    ∙ ap (λ n. start s channel command n payload) size
    ∙ start_fresh s channel command bytes payload h
    ∙ ap (λ b. complete (set_partial s channel (opened command (length bytes) b)) channel)
        (elim (Bool-cases (leb (length bytes) 57)) [
          | inl short ↦
              let fits : length bytes ≤ 57 = leb→le (length bytes) 57 short in
              rw (take_all 57 bytes fits) (take-append bytes _)
          | inr long ↦
              let over : 57 < length bytes = not_leb→lt (length bytes) 57 long in
              let none_left : 64
                    - (suc (suc (suc (suc (suc (suc (suc (length (take 57 bytes)))))))))
                  ≡ 0 =
                omega (arith, length-take 57 bytes) in
              rw (none_left, append-nil)
                (take_all (length bytes) (take 57 bytes) (omega (arith, length-take 57 bytes)))
        ])

-- The packets that `reply` cuts a message into, padded to reports, make the daemon at the other
-- end handle just this message: nothing is answered before the last packet, and the partial
-- message is gone. For every command but INIT and CANCEL, up to 7609 bytes, on a channel that no
-- request of another channel blocks.
pub packets-reply_packets :
    (s : Daemon) (channel command : ℕ) (bytes : List ℕ)
    → IsMessage s channel command bytes
    → packets s (map pad (reply_packets channel command bytes))
      ≡ dispatch (drop_partial s channel) channel command bytes
unfolding reply_packets
packets-reply_packets s channel command bytes h =
    let p : Partial = opened command (length bytes) (take 57 bytes) in
    let more : List (List ℕ) = map pad (rest_packets (length bytes) channel 0 (drop 57 bytes)) in
    packets-cons s _ more
    ∙ ap (λ t. packets t more) (begun s channel command bytes h)
    ∙ elim (Bool-cases (leb (length bytes) 57)) [
      | inl short ↦
          let fits : length bytes ≤ 57 = leb→le (length bytes) 57 short in
          rw (drop_past 57 bytes fits, rest_packets-nil, take_all 57 bytes fits, packets-nil)
            (complete_whole s channel (opened command (length bytes) bytes) (omega arith))
      | inr long ↦
          let over : 57 < length bytes = not_leb→lt (length bytes) 57 long in
          let size : length (take 57 bytes) ≡ 57 = omega (arith, length-take 57 bytes) in
          let left : length (drop 57 bytes) ≡ length bytes - 57 = length-drop 57 bytes in
          let limit : length bytes ≤ 7609 = h.4 in
          ap (λ t. packets t more) (complete_part s channel p (omega arith))
          ∙ packets-rest (length bytes) s channel p (drop 57 bytes)
              (h.0, omega arith, omega arith, omega arith) (omega arith)
          ∙ ap (dispatch (drop_partial s channel) channel command) (take-append-drop 57 bytes)
    ]
