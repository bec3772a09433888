-- ===== src/Hid/Packet.antt =====
-- What one packet may do to the request in progress, and when it starts one.
use passkey.Base.{
  ℕ, ◌≤◌, ◌<◌, ◌≡◌, refl, sym, ap, ◌∙◌, ◌≢◌, ◌⊎◌, inl, inr, Bool, true, false, ◌&&◌, List, [], ◌∷◌,
  ◌++◌, map, Option, none, some, arith, leb, ltb, ◌==◌, ==_iff, if◌then◌else◌, append_assoc,
  append-nil, Bool-cases, ltb-true, ltb-false, ltb→lt, not_ltb→le, ne_of_==_false,
}
use passkey.Base.Bytes.{from_be32, from_be16}
use passkey.Link.{Link}
use passkey.Wire.{cancel_message}
use passkey.Daemon.{Daemon, Request, Effect, uhid, devices, to_link, spawn, emit, withdraw}
use passkey.Hid.{notify, is_channel, cancel, start, begin, packet, drop_partial}
use passkey.Report.{init, cancel_cmd, err_invalid_len, error}
use passkey.Hid.Busy.{talk, Quiet, Quiet-refl, Quiet-trans, error-Quiet}
use passkey.Hid.Exclusive.{Outcome, start-init, start-Outcome, resume-Outcome, drop_partial-Quiet}

cancel_foreign :
    (s : Daemon) (channel : ℕ) (abandon : Bool) (r : Request)
    → s.busy ≡ some r
    → channel ≢ r.channel
    → cancel s (some channel) abandon ≡ s
unfolding cancel
cancel_foreign s channel abandon r e h = ground arith

start_long :
    (s : Daemon) (channel command total : ℕ) (payload : List ℕ)
    → 7609 < total
    → start s channel command total payload ≡ error s channel err_invalid_len
unfolding start
start_long s channel command total payload h = rw (ltb-true 7609 total h)

pub start-cancel :
    (s : Daemon) (channel total : ℕ) (payload : List ℕ)
    → total ≤ 7609
    → start s channel cancel_cmd total payload ≡ cancel s (some channel) false
unfolding start
start-cancel s channel total payload h = rw (ltb-false 7609 total h)

-- The four ways in which a first packet is handled.
data FirstPacket (command total : ℕ) : Type 0 where
  long : 7609 < total → FirstPacket command total
  cancelling : total ≤ 7609 → command ≡ cancel_cmd → FirstPacket command total
  initial : total ≤ 7609 → command ≡ init → FirstPacket command total
  other : command ≢ init → command ≢ cancel_cmd → FirstPacket command total

first_cases : (command total : ℕ) → FirstPacket command total
first_cases command total = elim (Bool-cases (ltb 7609 total)) [
  | inl h ↦ long (ltb→lt 7609 total h)
  | inr fits ↦ elim (Bool-cases (command == cancel_cmd)) [
    | inl c ↦ cancelling (not_ltb→le 7609 total fits) ((==_iff command cancel_cmd).0 c)
    | inr nc ↦ elim (Bool-cases (command == init)) [
      | inl i ↦ initial (not_ltb→le 7609 total fits) ((==_iff command init).0 i)
      | inr ni ↦ other (ne_of_==_false _ _ ni) (ne_of_==_false _ _ nc)
    ]
  ]
]

-- An outcome while a request is in progress is an answer only.
Outcome-Quiet :
    {s t : Daemon} (channel : ℕ) (r : Request) → s.busy ≡ some r → Outcome s channel t → Quiet s t
Outcome-Quiet channel r e (inl q) = q
Outcome-Quiet channel r e (inr (r', bytes, idle, _, _, _, _)) = cc

start_foreign :
    (s : Daemon) (channel command total : ℕ) (payload : List ℕ) (r : Request)
    → s.busy ≡ some r
    → channel ≢ r.channel
    → Quiet s (start s channel command total payload)
start_foreign s channel command total payload r e h = elim (first_cases command total) [
  | long over ↦ rw (start_long s channel command total payload over) (error-Quiet s channel _)
  | cancelling fits c ↦
      rw (c, start-cancel s channel total payload fits, cancel_foreign s channel false r e h)
        (Quiet-refl s)
  | initial fits i ↦ rw i (
      Quiet-trans (drop_partial-Quiet s channel) (
        rw (cancel_foreign (drop_partial s channel) channel true r e h) at
          (start-init s channel total payload fits)))
  | other not_init not_cancel ↦
      Outcome-Quiet channel r e (start-Outcome s channel command total payload not_init not_cancel)
]

begin_foreign :
    (s : Daemon) (channel command : ℕ) (payload : List ℕ) (r : Request)
    → s.busy ≡ some r
    → channel ≢ r.channel
    → Quiet s (begin s channel command payload)
begin_foreign s channel command [] r e h = Quiet-refl s
begin_foreign s channel command (hi ∷ []) r e h = Quiet-refl s
begin_foreign s channel command (hi ∷ lo ∷ payload) r e h =
    start_foreign s channel command (from_be16 hi lo) payload r e h

-- While a request is in progress, a packet of another channel leaves it as it is: it stays the
-- busy request, nothing is sent to a phone and no other request starts, whatever the packet says.
pub packet-Quiet :
    (s : Daemon) (a b c d byte : ℕ) (payload : List ℕ) (r : Request)
    → s.busy ≡ some r
    → from_be32 a b c d ≢ r.channel
    → Quiet s (packet s (a ∷ b ∷ c ∷ d ∷ byte ∷ payload))
unfolding packet
packet-Quiet s a b c d byte payload r e h = elim (Bool-cases (leb 128 byte)) [
  | inl first ↦ rw first (begin_foreign s (from_be32 a b c d) byte payload r e h)
  | inr later ↦
      rw later
        (Outcome-Quiet (from_be32 a b c d) r e (resume-Outcome s (from_be32 a b c d) byte payload))
]

-- The requests that were started.
abbrev pub starts : List Effect → List Request
starts [] = []
starts (uhid event ∷ es) = starts es
starts (devices text ∷ es) = starts es
starts (to_link link body ∷ es) = starts es
starts (spawn request bytes ∷ es) = request ∷ starts es

starts-append : (xs ys : List Effect) → starts (xs ++ ys) ≡ starts xs ++ starts ys
starts-append [] ys = refl
starts-append (uhid event ∷ xs) ys = starts-append xs ys
starts-append (devices text ∷ xs) ys = starts-append xs ys
starts-append (to_link link body ∷ xs) ys = starts-append xs ys
starts-append (spawn request bytes ∷ xs) ys = ap (λ zs. request ∷ zs) (starts-append xs ys)

starts-talk : (es : List Effect) → starts (talk es) ≡ starts es
starts-talk [] = refl
starts-talk (uhid event ∷ es) = starts-talk es
starts-talk (devices text ∷ es) = starts-talk es
starts-talk (to_link link body ∷ es) = starts-talk es
starts-talk (spawn request bytes ∷ es) = ap (λ zs. request ∷ zs) (starts-talk es)

-- What a cancelled request's phones are told.
abbrev pub told : Request → List Link → List Effect
told r ls = map (λ link. to_link link (cancel_message r.number)) ls

pub withdraw-told :
    (s : Daemon) (r : Request) (ls : List Link)
    → withdraw s r ls ≡ record s { done = s.done ++ told r ls }
unfolding withdraw
withdraw-told s r [] = ap (λ es. record s { done = es }) (sym (append-nil s.done))
withdraw-told s r (l ∷ ls) =
    withdraw-told (emit s (to_link l (cancel_message r.number))) r ls
    ∙ ap (λ es. record s { done = es })
        (append_assoc s.done (to_link l (cancel_message r.number) ∷ []) (told r ls))

starts-told : (r : Request) (ls : List Link) → starts (told r ls) ≡ []
starts-told r [] = refl
starts-told r (l ∷ ls) = starts-told r ls

starts-withdraw :
    (s : Daemon) (r : Request) (ls : List Link) → starts (withdraw s r ls).done ≡ starts s.done
starts-withdraw s r ls =
    ap (λ (t : Daemon). starts t.done) (withdraw-told s r ls)
    ∙ starts-append s.done (told r ls)
    ∙ ap (λ zs. starts s.done ++ zs) (starts-told r ls)
    ∙ append-nil (starts s.done)

starts-notify :
    (s : Daemon) (channel : Option ℕ) (r : Option Request)
    → starts (notify s channel r).done ≡ starts s.done
starts-notify s channel none = refl
starts-notify s channel (some r) = ground (arith, starts-withdraw s r r.pending)

starts-cancel :
    (s : Daemon) (channel : Option ℕ) (abandon : Bool)
    → starts (cancel s channel abandon).done ≡ starts s.done
unfolding cancel
starts-cancel s channel abandon =
    starts-notify (if abandon && is_channel channel s.busy then record s { busy = none } else s)
      channel s.busy
    ∙ ground arith

abbrev pub Starts : Daemon → Daemon → Type 0
Starts s t =
    (starts t.done ≡ starts s.done)
    ⊎ ((r : Request) × (s.busy ≡ none)
        × (t.busy ≡ some r)
        × (starts t.done ≡ starts s.done ++ r ∷ []))

Quiet-starts : {s t : Daemon} → Quiet s t → starts t.done ≡ starts s.done
Quiet-starts {s} {t} q = sym (starts-talk t.done) ∙ ap starts q.same_talk ∙ starts-talk s.done

Outcome-Starts : {s t : Daemon} (channel : ℕ) → Outcome s channel t → Starts s t
Outcome-Starts channel (inl q) = inl (Quiet-starts q)
Outcome-Starts {s} {t} channel (inr (r, bytes, idle, b, c, n, k)) = inr (
  r,
  idle,
  b,
  sym (starts-talk t.done)
      ∙ ap starts k
      ∙ starts-append (talk s.done) (spawn r bytes ∷ [])
      ∙ ap (λ zs. zs ++ r ∷ []) (starts-talk s.done),
)

start-Starts :
    (s : Daemon) (channel command total : ℕ) (payload : List ℕ)
    → Starts s (start s channel command total payload)
start-Starts s channel command total payload = elim (first_cases command total) [
  | long over ↦
      rw (start_long s channel command total payload over)
        (inl (Quiet-starts (error-Quiet s channel _)))
  | cancelling fits c ↦
      rw (c, start-cancel s channel total payload fits) (inl (starts-cancel s (some channel) false))
  | initial fits i ↦ rw i (
      inl (
        Quiet-starts (start-init s channel total payload fits)
        ∙ starts-cancel (drop_partial s channel) (some channel) true))
  | other not_init not_cancel ↦
      Outcome-Starts channel (start-Outcome s channel command total payload not_init not_cancel)
]

begin-Starts :
    (s : Daemon) (channel command : ℕ) (payload : List ℕ)
    → Starts s (begin s channel command payload)
begin-Starts s channel command [] = inl refl
begin-Starts s channel command (hi ∷ []) = inl refl
begin-Starts s channel command (hi ∷ lo ∷ payload) =
    start-Starts s channel command (from_be16 hi lo) payload

-- Whatever a packet holds, it starts no request, or it starts one: then none was in progress, and
-- the new one is the request in progress afterwards.
pub packet-Starts : (s : Daemon) (p : List ℕ) → Starts s (packet s p)
unfolding packet
packet-Starts s [] = inl refl
packet-Starts s (a ∷ []) = inl refl
packet-Starts s (a ∷ b ∷ []) = inl refl
packet-Starts s (a ∷ b ∷ c ∷ []) = inl refl
packet-Starts s (a ∷ b ∷ c ∷ d ∷ []) = inl refl
packet-Starts s (a ∷ b ∷ c ∷ d ∷ byte ∷ payload) = elim (Bool-cases (leb 128 byte)) [
  | inl first ↦ rw first (begin-Starts s (from_be32 a b c d) byte payload)
  | inr later ↦
      rw later
        (Outcome-Starts (from_be32 a b c d) (resume-Outcome s (from_be32 a b c d) byte payload))
]
