-- ===== src/Uhid/Events.antt =====
-- The layout of the events: what the kernel hands to the host is the report that was sent, and
-- what it hands to the daemon is the packet that the host wrote.
use passkey.Base.{
  ℕ, suc, ◌+◌, ◌-◌, ◌≤◌, ◌≡◌, refl, sym, ap, ◌∙◌, min, List, ◌∷◌, ◌++◌, arith, length, take, drop,
  replicate, length-append, length-replicate, take-append, drop-append, take_all, take-append_le,
  take-append_ge, take-replicate, drop-replicate, ltb-false, leb-true, ==_eq, ==_ne,
}
use passkey.Base.Bytes.{le16, le32}
use passkey.Daemon.{
  Daemon, splice, put_u16_le, put_u32_le, input2_event, uhid_event_size, uhid_input2,
}
use passkey.Hid.{packet}
use passkey.Hid.Pieces.{pad}
use passkey.Uhid.{from_le16, without_id, uhid_output, output_report, handle_event}

-- An OUTPUT event: 4096 bytes of data, and how many of them count.
abbrev pub output_event : ℕ → List ℕ → List ℕ → List ℕ
output_event count bytes tail = le32 uhid_output ++ (bytes ++ (le16 count ++ tail))

output_report_lem :
    (count : ℕ) (bytes tail : List ℕ)
    → length bytes ≡ 4096
    → count ≤ 4096
    → output_report (output_event count bytes tail) ≡ without_id (take count bytes)
unfolding output_report
output_report_lem count bytes tail n h =
    let rest : List ℕ = le16 count ++ tail in
    let behind : drop 4096 (bytes ++ rest) ≡ rest =
      ap (λ k. drop k (bytes ++ rest)) (sym n) ∙ drop-append bytes rest in
    let size : min (from_le16 rest) 4096 ≡ count = omega arith in
    rw behind (rw size (ap without_id (take-append_le count bytes rest (omega arith))))

handle_event-output :
    (s : Daemon) (count : ℕ) (bytes tail : List ℕ)
    → length bytes ≡ 4096
    → count ≤ 4096
    → handle_event s (output_event count bytes tail) ≡ packet s (without_id (take count bytes))
unfolding handle_event
handle_event-output s count bytes tail n h =
    let size : 4102 ≤ length (output_event count bytes tail) =
      omega (arith, length-append bytes (le16 count ++ tail)) in
    rw
      (
        ltb-false (length (output_event count bytes tail)) 4 (omega arith),
        leb-true 4102 (length (output_event count bytes tail)) size,
      )
      (ap (packet s) (output_report_lem count bytes tail n h))

-- A packet of 64 bytes that the host writes to the device is handled as that packet, with a report
-- id in front of it or without, whatever fills the rest of the event.
pub handle_event-packet :
    (s : Daemon) (id : ℕ) (report filler tail : List ℕ)
    → length report ≡ 64
    → length filler ≡ 4031
    → (handle_event s (output_event 65 (id ∷ (report ++ filler)) tail) ≡ packet s report)
      × (handle_event s (output_event 64 (report ++ (id ∷ filler)) tail) ≡ packet s report)
handle_event-packet s id report filler tail n m =
    let whole : take 64 (report ++ filler) ≡ report =
      ap (λ k. take k (report ++ filler)) (sym n) ∙ take-append report filler in
    let whole' : take 64 (report ++ (id ∷ filler)) ≡ report =
      ap (λ k. take k (report ++ (id ∷ filler))) (sym n) ∙ take-append report (id ∷ filler) in
    let fits = take_all 64 report (omega arith) in
    (
      handle_event-output s 65 (id ∷ (report ++ filler)) tail
            (omega (arith, length-append report filler)) (omega arith)
          ∙ ap (λ r. packet s (without_id (id ∷ r))) whole
          ∙ rw (==_eq (suc (length report)) 65 (omega arith), fits),
      handle_event-output s 64 (report ++ (id ∷ filler)) tail
            (omega (arith, length-append report (id ∷ filler))) (omega arith)
          ∙ ap (λ r. packet s (without_id r)) whole'
          ∙ rw (==_ne (length report) 65 (omega arith), fits),
    )

-- What the kernel hands to the host of an INPUT2 event: so many bytes as it says.
abbrev host_report : List ℕ → List ℕ
host_report event = take (from_le16 (drop 4 event)) (drop 6 event)

put_header :
    (n : ℕ)
    → put_u16_le (put_u32_le (replicate (suc (suc (suc (suc (suc (suc n)))))) 0) 0 uhid_input2) 4 64
      ≡ 12 ∷ 0 ∷ 0 ∷ 0 ∷ 64 ∷ 0 ∷ replicate n 0
unfolding put_u16_le put_u32_le splice
put_header n = refl

-- The event is its header, the report, and zeros.
input2_event_lem :
    (p : List ℕ)
    → length p ≤ 64
    → input2_event p ≡ 12 ∷ 0 ∷ 0 ∷ 0 ∷ 64 ∷ 0 ∷ (p ++ replicate (4370 - length p) 0)
unfolding input2_event
input2_event_lem p h =
    let e : 6 + length p ≡ suc (suc (suc (suc (suc (suc (length p)))))) = omega arith in
    let zeros : List ℕ = 12 ∷ 0 ∷ 0 ∷ 0 ∷ 64 ∷ 0 ∷ replicate 4370 0 in
    ap (λ b. splice b 6 (take 64 p)) (put_header 4370)
    ∙ ap (λ q. 12 ∷ 0 ∷ 0 ∷ 0 ∷ 64 ∷ 0 ∷ (q ++ drop (6 + length q) zeros)) (take_all 64 p h)
    ∙ ap (λ k. 12 ∷ 0 ∷ 0 ∷ 0 ∷ 64 ∷ 0 ∷ (p ++ drop k zeros)) e
    ∙ ap (λ b. 12 ∷ 0 ∷ 0 ∷ 0 ∷ 64 ∷ 0 ∷ (p ++ b)) (drop-replicate (length p) 4370 0)

-- A packet of at most 64 bytes reaches the host as a report of 64 bytes, with zeros behind it, in
-- an event of the size that the kernel expects.
host_report-input2_event :
    (p : List ℕ)
    → length p ≤ 64
    → (host_report (input2_event p) ≡ pad p) × (length (input2_event p) ≡ uhid_event_size)
host_report-input2_event p h =
    let zeros : List ℕ = replicate (4370 - length p) 0 in
    (
      ap host_report (input2_event_lem p h)
          ∙ take-append_ge 64 p zeros h
          ∙ ap (λ b. p ++ b) (take-replicate (64 - length p) (4370 - length p) 0 (omega arith)),
      ap length (input2_event_lem p h)
          ∙ omega (arith, length-append p zeros, length-replicate {A = ℕ} (4370 - length p) 0),
    )
