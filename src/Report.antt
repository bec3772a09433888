-- ===== src/Report.antt =====
-- src/daemon.rs, `reply` and `error`: the constants of CTAPHID, and how an answer is cut into
-- packets.
use passkey.Base.{ℕ, zero, suc, ◌+◌, List, [], ◌∷◌, ◌++◌, length, take, drop}
use passkey.Base.Bytes.{u8, u16, be16, be32}
use passkey.Daemon.{Daemon, send_report}

abbrev pub ping_cmd : ℕ
ping_cmd = 0x81

abbrev pub init : ℕ
init = 0x86

abbrev pub wink : ℕ
wink = 0x88

abbrev pub cbor : ℕ
cbor = 0x90

abbrev pub cancel_cmd : ℕ
cancel_cmd = 0x91

abbrev pub keepalive : ℕ
keepalive = 0xbb

abbrev error_cmd : ℕ
error_cmd = 0xbf

abbrev pub err_invalid_cmd : ℕ
err_invalid_cmd = 0x01

abbrev pub err_invalid_len : ℕ
err_invalid_len = 0x03

abbrev pub err_invalid_seq : ℕ
err_invalid_seq = 0x04

abbrev pub err_channel_busy : ℕ
err_channel_busy = 0x06

abbrev pub err_invalid_channel : ℕ
err_invalid_channel = 0x0b

abbrev pub ctap2_err_other : ℕ
ctap2_err_other = 0x7f

abbrev pub broadcast : ℕ
broadcast = 0xffff_ffff

-- The `while !rest.is_empty()` loop of `reply`: each packet takes a byte at least, so the length
-- of `rest` is enough fuel.
unfoldable pub rest_packets : ℕ → ℕ → ℕ → List ℕ → List (List ℕ)
rest_packets zero channel sequence rest = []
rest_packets (suc fuel) channel sequence [] = []
rest_packets (suc fuel) channel sequence (x ∷ xs) =
    (be32 channel ++ sequence ∷ take 59 (x ∷ xs))
    ∷ rest_packets fuel channel (u8 (sequence + 1)) (drop 59 (x ∷ xs))

unfoldable pub first_packet : ℕ → ℕ → List ℕ → List ℕ
first_packet channel command bytes =
    be32 channel ++ command ∷ (be16 (u16 (length bytes)) ++ take 57 bytes)

-- The packets that `reply` sends, in their order.
unfoldable pub reply_packets : ℕ → ℕ → List ℕ → List (List ℕ)
unfolding rest_packets first_packet
reply_packets channel command bytes =
    first_packet channel command bytes ∷ rest_packets (length bytes) channel 0 (drop 57 bytes)

unfoldable pub send_reports : Daemon → List (List ℕ) → Daemon
send_reports s [] = s
send_reports s (p ∷ ps) = send_reports (send_report s p) ps

unfoldable pub reply : Daemon → ℕ → ℕ → List ℕ → Daemon
unfolding send_reports
reply s channel command bytes = send_reports s (reply_packets channel command bytes)

-- `Daemon::error`.
unfoldable pub error : Daemon → ℕ → ℕ → Daemon
error s channel code = reply s channel error_cmd (code ∷ [])
