-- ===== src/Tests/Host.antt =====
-- Packets from the host.
use passkey.Base.{ℕ, ◌≡◌, refl, List, [], ◌∷◌, ◌++◌, map, arith, replicate, length-replicate}
use passkey.Base.Bytes.{be32}
use passkey.Hid.{packets, packet, dispatch, drop_partial}
use passkey.Report.{reply_packets, reply, ping_cmd, init}
use passkey.Hid.RoundTrip.{packets-reply_packets}
use passkey.Hid.Pieces.{pad}
use passkey.Hid.Busy.{Quiet}
use passkey.Hid.Packet.{packet-Quiet, packet-Starts, Starts}
use passkey.Hid.Cancel.{packet-init, abandoned, version_and_capabilities}
use passkey.Hid.Invariant.{packets-IsValid}
use passkey.Hid.Valid.{IsValid}
use passkey.Tests.Data.{idle, busy, request}

abbrev message : List ℕ
message = replicate 100 7

packets-reply_packets_example :
    packets idle (map pad (reply_packets 5 ping_cmd message))
    ≡ dispatch (drop_partial idle 5) 5 ping_cmd message
packets-reply_packets_example = packets-reply_packets idle 5 ping_cmd message (
  omega arith,
  omega arith,
  omega arith,
  omega arith,
  omega (arith, length-replicate {A = ℕ} 100 7),
  refl,
)

abbrev wild : List (List ℕ)
wild = (0 ∷ 0 ∷ 0 ∷ 5 ∷ ping_cmd ∷ 0 ∷ 200 ∷ 1 ∷ []) ∷ (0 ∷ 0 ∷ 0 ∷ 5 ∷ 9 ∷ 1 ∷ []) ∷ (7 ∷ []) ∷ []

packets-IsValid_example : IsValid (packets busy wild)
packets-IsValid_example = packets-IsValid busy wild (record {
  open_messages = tt;
  ordinary = ((λ e. cc e), (λ e. cc e), omega arith);
  counters = (omega arith, omega arith);
})

packet-Quiet_example : Quiet busy (packet busy (0 ∷ 0 ∷ 0 ∷ 5 ∷ 0x90 ∷ 0 ∷ 1 ∷ 4 ∷ []))
packet-Quiet_example = packet-Quiet busy 0 0 0 5 0x90 (0 ∷ 1 ∷ 4 ∷ []) request refl (λ e. cc e)

packet-Starts_example : Starts idle (packet idle (0 ∷ 0 ∷ 0 ∷ 5 ∷ 0x90 ∷ 0 ∷ 1 ∷ 4 ∷ []))
packet-Starts_example = packet-Starts idle (0 ∷ 0 ∷ 0 ∷ 5 ∷ 0x90 ∷ 0 ∷ 1 ∷ 4 ∷ [])

abbrev nonce : List ℕ
nonce = 1 ∷ 2 ∷ 3 ∷ 4 ∷ 5 ∷ 6 ∷ 7 ∷ 8 ∷ []

packet-init_example :
    packet busy (be32 9 ++ init ∷ 0 ∷ 8 ∷ (nonce ++ 0 ∷ []))
    ≡ reply (abandoned busy request) 9 init (nonce ++ (be32 9 ++ version_and_capabilities))
packet-init_example = packet-init busy request nonce (0 ∷ []) refl (omega arith) refl
