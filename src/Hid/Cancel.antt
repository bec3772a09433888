-- ===== src/Hid/Cancel.antt =====
-- The packets that end or withdraw the request in progress: CANCEL and INIT of its channel.
use passkey.Base.{
  ℕ, ◌≤◌, ◌<◌, ◌≡◌, sym, ap, ◌∙◌, ◌≢◌, Bool, true, false, List, [], ◌∷◌, ◌++◌, none, some, arith,
  ==_eq, ==_ne, if◌then◌else◌, length, take, take-append,
}
use passkey.Base.Bytes.{be32, from_be16}
use passkey.Base.Dict.{erase, erase-erase}
use passkey.Daemon.{Daemon, Partial, Request}
use passkey.Hid.{
  cancel, dispatch, dispatch_init, claim, assigned, complete, start, packet, set_partial,
  drop_partial,
}
use passkey.Report.{init, broadcast, cancel_cmd, reply}
use passkey.Hid.RoundTrip.{packet-begin}
use passkey.Hid.Pieces.{complete_whole}
use passkey.Hid.Packet.{told, withdraw-told, start-cancel}

cancel_owner :
    (s : Daemon) (abandon : Bool) (r : Request)
    → s.busy ≡ some r
    → cancel s (some r.channel) abandon
      ≡ record s { busy = if abandon then none else s.busy; done = s.done ++ told r r.pending }
unfolding cancel
cancel_owner s true r e = ground (arith, withdraw-told (record s { busy = none }) r r.pending)
cancel_owner s false r e = ground (arith, withdraw-told s r r.pending)

-- CANCEL on the channel of the request in progress tells exactly the phones that still have the
-- request to drop it, each once and in their order, and changes nothing else: the request stays
-- in progress until its thread ends.
packet-cancel :
    (s : Daemon) (r : Request) (hi lo : ℕ) (payload : List ℕ)
    → s.busy ≡ some r
    → r.channel < 4294967296
    → from_be16 hi lo ≤ 7609
    → packet s (be32 r.channel ++ cancel_cmd ∷ hi ∷ lo ∷ payload)
      ≡ record s { done = s.done ++ told r r.pending }
packet-cancel s r hi lo payload e hc fits =
    packet-begin s r.channel cancel_cmd hi lo payload hc (omega arith)
    ∙ start-cancel s r.channel (from_be16 hi lo) payload fits
    ∙ cancel_owner s false r e

abbrev pub version_and_capabilities : List ℕ
version_and_capabilities = 2 ∷ 1 ∷ 0 ∷ 0 ∷ 0x0d ∷ []

-- The state in which an INIT of its channel leaves the daemon, before the answer.
abbrev pub abandoned : Daemon → Request → Daemon
abandoned s r = record s {
  partial = erase r.channel s.partial;
  busy = none;
  done = s.done ++ told r r.pending;
}

dispatch-init_own :
    (s : Daemon) (channel : ℕ) (nonce : List ℕ)
    → channel ≢ broadcast
    → length nonce ≡ 8
    → dispatch s channel init nonce
      ≡ reply s channel init (nonce ++ (be32 channel ++ version_and_capabilities))
unfolding dispatch dispatch_init claim assigned
dispatch-init_own s channel nonce h n = rw (==_eq (length nonce) 8 n, ==_ne channel broadcast h)

start-init_own :
    (s : Daemon) (r : Request) (nonce tail : List ℕ)
    → s.busy ≡ some r
    → r.channel ≢ broadcast
    → length nonce ≡ 8
    → start s r.channel init 8 (nonce ++ tail)
      ≡ reply (abandoned s r) r.channel init (nonce ++ (be32 r.channel ++ version_and_capabilities))
unfolding start
start-init_own s r nonce tail e h n =
    let c : ℕ = r.channel in
    let whole : take 8 (nonce ++ tail) ≡ nonce =
      ap (λ k. take k (nonce ++ tail)) (sym n) ∙ take-append nonce tail in
    let p : Partial = record { command = init; total = 8; received = nonce; next_sequence = 0 } in
    ap
      (λ b.
        complete
          (set_partial (cancel (drop_partial s c) (some c) true) c (record p { received = b })) c)
      whole
    ∙ complete_whole (cancel (drop_partial s c) (some c) true) c p (omega arith)
    ∙ ap (λ t. dispatch (drop_partial t c) c init nonce) (cancel_owner (drop_partial s c) true r e)
    ∙ ap (λ m. dispatch (record (abandoned s r) { partial = m }) c init nonce)
        (erase-erase c s.partial)
    ∙ dispatch-init_own (abandoned s r) c nonce h n

-- INIT on the channel of the request in progress, with its nonce of eight bytes: the phones that
-- still have the request are told to drop it, it is no longer in progress, a partial message of
-- the channel is gone, and then the host gets its nonce back with the channel that it has.
pub packet-init :
    (s : Daemon) (r : Request) (nonce tail : List ℕ)
    → s.busy ≡ some r
    → r.channel < broadcast
    → length nonce ≡ 8
    → packet s (be32 r.channel ++ init ∷ 0 ∷ 8 ∷ (nonce ++ tail))
      ≡ reply (abandoned s r) r.channel init (nonce ++ (be32 r.channel ++ version_and_capabilities))
packet-init s r nonce tail e hc n =
    packet-begin s r.channel init 0 8 (nonce ++ tail) (omega arith) (omega arith)
    ∙ start-init_own s r nonce tail e (omega arith) n
