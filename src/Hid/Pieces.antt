-- ===== src/Hid/Pieces.antt =====
-- How one packet extends a partial message.
use passkey.Base.{
  ℕ, zero, suc, ◌+◌, ◌-◌, ◌*◌, ◌≤◌, ◌<◌, min, ◌≡◌, refl, ap, ◌∙◌, List, [], ◌∷◌, ◌++◌, arith, leb,
  if◌then◌else◌, length, take, drop, replicate, length-append, length-take, length-replicate,
  take-append, leb-true, leb-false,
}
use passkey.Base.Bytes.{u8, be32, from_be32-be32}
use passkey.Base.Dict.{lookup-insert, erase-insert, insert-insert}
use passkey.Daemon.{Daemon, Partial}
use passkey.Hid.{set_partial, drop_partial, dispatch, complete, resume, packet, packets}
use passkey.Report.{rest_packets}

-- A report has 64 bytes: the packet, and zeros behind it.
abbrev pub pad : List ℕ → List ℕ
pad p = p ++ replicate (64 - length p) 0

pub complete-set_partial :
    (s : Daemon) (channel : ℕ) (p : Partial)
    → complete (set_partial s channel p) channel ≡ (
        if leb p.total (length p.received)
        then dispatch (drop_partial s channel) channel p.command p.received
        else set_partial s channel p)
unfolding complete
complete-set_partial s channel p =
    ground (arith, lookup-insert channel channel p s.partial, erase-insert channel p s.partial)

abbrev pub grown : Partial → List ℕ → Partial
grown p bytes = record p {
  received = p.received ++ bytes;
  next_sequence = u8 (p.next_sequence + 1);
}

resume-set_partial :
    (s : Daemon) (channel : ℕ) (p : Partial) (payload : List ℕ)
    → resume (set_partial s channel p) channel p.next_sequence payload
      ≡ complete
          (set_partial s channel
            (grown p (take (min (p.total - length p.received) (length payload)) payload)))
          channel
unfolding resume
resume-set_partial s channel p payload = ground (
  arith,
  lookup-insert channel channel p s.partial,
  insert-insert channel
      (grown p (take (min (p.total - length p.received) (length payload)) payload)) p s.partial,
)

packet-resume :
    (s : Daemon) (channel sequence : ℕ) (payload : List ℕ)
    → channel < 4294967296
    → sequence < 128
    → packet s (be32 channel ++ sequence ∷ payload) ≡ resume s channel sequence payload
unfolding packet
packet-resume s channel sequence payload hc hs = ground (arith, from_be32-be32 channel hc)

take_front {ℓ} : {A : Type ℓ} (n : ℕ) (xs ys : List A) → n ≡ length xs → take n (xs ++ ys) ≡ xs
take_front n xs ys e = rw e (take-append xs ys)

-- What the partial message `p` of a channel and its next packet have to do with one another:
-- `rest` is what is still to come.
abbrev pub Awaits : ℕ → Partial → List ℕ → Type 0
Awaits channel p rest =
    (channel < 4294967296)
    × (p.total ≡ length p.received + length rest)
    × (length rest + 59 * p.next_sequence ≤ 7552)
    × (0 < length rest)

pub packet-chunk :
    (s : Daemon) (channel : ℕ) (p : Partial) (rest : List ℕ)
    → Awaits channel p rest
    → packet (set_partial s channel p) (pad (be32 channel ++ p.next_sequence ∷ take 59 rest))
      ≡ complete (set_partial s channel (grown p (take 59 rest))) channel
packet-chunk s channel p rest h =
    let zeros : List ℕ = replicate (59 - length (take 59 rest)) 0 in
    let payload : List ℕ = take 59 rest ++ zeros in
    let room : length (take 59 rest) ≤ 59 = omega (arith, length-take 59 rest) in
    let same : min (p.total - length p.received) (length payload) ≡ length (take 59 rest) = omega (
      arith,
      length-append (take 59 rest) zeros,
      length-replicate {A = ℕ} (59 - length (take 59 rest)) 0,
      length-take 59 rest,
    ) in
    ap
      (λ (k : ℕ).
        packet (set_partial s channel p)
          (be32 channel ++ p.next_sequence ∷ (take 59 rest ++ replicate k 0)))
      (let e : 64 - (suc (suc (suc (suc (suc (length (take 59 rest)))))))
            ≡ 59 - length (take 59 rest) =
          omega arith in
        e)
    ∙ packet-resume (set_partial s channel p) channel p.next_sequence payload h.0 (omega arith)
    ∙ resume-set_partial s channel p payload
    ∙ ap (λ b. complete (set_partial s channel (grown p b)) channel) (take_front _ _ zeros same)

pub complete_whole :
    (s : Daemon) (channel : ℕ) (p : Partial)
    → p.total ≤ length p.received
    → complete (set_partial s channel p) channel
      ≡ dispatch (drop_partial s channel) channel p.command p.received
complete_whole s channel p h =
    rw (complete-set_partial s channel p, leb-true p.total (length p.received) h)

pub complete_part :
    (s : Daemon) (channel : ℕ) (p : Partial)
    → length p.received < p.total
    → complete (set_partial s channel p) channel ≡ set_partial s channel p
complete_part s channel p h =
    rw (complete-set_partial s channel p, leb-false p.total (length p.received) h)

pub rest_packets-nil : (fuel channel sequence : ℕ) → rest_packets fuel channel sequence [] ≡ []
unfolding rest_packets
rest_packets-nil zero channel sequence = refl
rest_packets-nil (suc fuel) channel sequence = refl

-- A packet list of one packet and more, run from the left.
pub packets-cons :
    (s : Daemon) (q : List ℕ) (qs : List (List ℕ)) → packets s (q ∷ qs) ≡ packets (packet s q) qs
unfolding packets
packets-cons s q qs = refl

pub packets-nil : (s : Daemon) → packets s [] ≡ s
unfolding packets
packets-nil s = refl

pub drop_past {ℓ} : {A : Type ℓ} (n : ℕ) (xs : List A) → length xs ≤ n → drop n xs ≡ []
drop_past zero [] h = refl
drop_past zero (x ∷ xs) h = absurd (omega arith)
drop_past (suc n) [] h = refl
drop_past (suc n) (x ∷ xs) h = drop_past n xs (omega arith)
