-- ===== src/Wire/Framing.antt =====
-- What a link reads is what the phone framed, and the reading loop ends.
use passkey.Base.{
  ℕ, zero, suc, ◌+◌, ◌/◌, ◌%◌, ◌≤◌, ◌<◌, ◌≡◌, refl, ap, ◌≢◌, ◌⊎◌, List, [], ◌∷◌, ◌++◌, map, some,
  arith, length, length-append, length-take, length-drop, take-append, drop-append, append_assoc,
  All, ◌∙◌, inl, inr,
}
use passkey.Base.Bytes.{u32, be32, from_be32, from_be32-be32}
use passkey.Wire.{
  Heard, response, panicked, Ended, out_of_fuel, Frame, body, ended, frame, hear, read_exact,
  read_body, read_frame, read_loop, read_link, resp,
}

abbrev IsBody : List ℕ → Type 0
IsBody b = (1 ≤ length b) × (length b ≤ 8192)

read_exact-append : (b rest : List ℕ) → read_exact (length b) (b ++ rest) ≡ some (b, rest)
unfolding read_exact
read_exact-append b rest =
    rw (take-append b rest, drop-append b rest) (ground (arith, length-append b rest))

read_body_fits :
    (size : ℕ) (b rest : List ℕ)
    → size ≡ length b
    → IsBody b
    → read_body size (b ++ rest) ≡ body b rest
unfolding read_body
read_body_fits size b rest e h = rw e (ground (arith, read_exact-append b rest))

read_frame-frame : (b rest : List ℕ) → IsBody b → read_frame (frame b ++ rest) ≡ body b rest
unfolding read_frame frame
read_frame-frame b rest h =
    read_body_fits
      (from_be32 (u32 (length b) / 16777216 % 256) (u32 (length b) / 65536 % 256)
        (u32 (length b) / 256 % 256) (u32 (length b) % 256))
      b rest (omega arith) h

abbrev pub frames : List (List ℕ) → List ℕ
frames [] = []
frames (b ∷ bs) = frame b ++ frames bs

length-frame : (b : List ℕ) → length (frame b) ≡ length b + 4
unfolding frame
length-frame b = omega arith

read_loop-ended :
    (fuel : ℕ) (input : List ℕ) (e : Ended)
    → read_frame input ≡ ended e
    → read_loop (suc fuel) input ≡ ([], e)
unfolding read_loop
read_loop-ended fuel input e p = rw (p, read_loop)

read_loop_body :
    (fuel : ℕ) (input b rest : List ℕ)
    → read_frame input ≡ body b rest
    → read_loop (suc fuel) input ≡ (hear b ∷ (read_loop fuel rest).0, (read_loop fuel rest).1)
unfolding read_loop
read_loop_body fuel input b rest p = rw (p, read_loop)

read_loop-frames :
    (fuel : ℕ) (bs : List (List ℕ)) (tail : List ℕ) (e : Ended)
    → All IsBody bs
    → read_frame tail ≡ ended e
    → length (frames bs ++ tail) < fuel
    → read_loop fuel (frames bs ++ tail) ≡ (map hear bs, e)
read_loop-frames zero bs tail e h t f = elim f [ ]
read_loop-frames (suc fuel) [] tail e h t f = read_loop-ended fuel tail e t
read_loop-frames (suc fuel) (b ∷ bs) tail e (hb, hbs) t f =
    let joined = append_assoc (frame b) (frames bs) tail in
    let ih = read_loop-frames fuel bs tail e hbs t (
      omega
        (arith, ap length joined, length-append (frame b) (frames bs ++ tail), length-frame b)) in
    ap (read_loop (suc fuel)) joined
    ∙ read_loop_body fuel _ b (frames bs ++ tail) (read_frame-frame b (frames bs ++ tail) hb)
    ∙ ap (λ r. (hear b ∷ r.0, r.1)) ih

-- The bodies that a phone frames reach the daemon in their order and whole, each of 1 to 8192
-- bytes; the loop then ends for the reason for which the rest of the stream holds no frame.
pub read_link-frames :
    (bs : List (List ℕ)) (tail : List ℕ) (e : Ended)
    → All IsBody bs
    → read_frame tail ≡ ended e
    → read_link (frames bs ++ tail) ≡ (map hear bs, e)
unfolding read_link
read_link-frames bs tail e h t =
    read_loop-frames (suc (length (frames bs ++ tail))) bs tail e h t (omega arith)

read_body_takes :
    (size : ℕ) (rest b more : List ℕ)
    → read_body size rest ≡ body b more
    → IsBody b × (length more ≤ length rest)
unfolding read_body read_exact
read_body_takes size rest b more e = ground (arith, length-take size rest, length-drop size rest)

-- A frame that is read has 1 to 8192 bytes, and the stream gets shorter.
read_frame_takes :
    (input b more : List ℕ)
    → read_frame input ≡ body b more
    → IsBody b × (length more < length input)
unfolding read_frame
read_frame_takes [] b more e = cc
read_frame_takes (w ∷ []) b more e = cc
read_frame_takes (w ∷ x ∷ []) b more e = cc
read_frame_takes (w ∷ x ∷ y ∷ []) b more e = cc
read_frame_takes (w ∷ x ∷ y ∷ z ∷ rest) b more e =
    omega (arith, read_body_takes (from_be32 w x y z) rest b more e)

Frame-cases :
    (f : Frame)
    → ((e : Ended) × (f ≡ ended e)) ⊎ ((b : List ℕ) × (rest : List ℕ) × (f ≡ body b rest))
Frame-cases (ended e) = inl (e, refl)
Frame-cases (body b rest) = inr (b, rest, refl)

read_frame-ne-out_of_fuel : (input : List ℕ) → read_frame input ≢ ended out_of_fuel
unfolding read_frame read_body
read_frame-ne-out_of_fuel [] = ground arith
read_frame-ne-out_of_fuel (w ∷ []) = ground arith
read_frame-ne-out_of_fuel (w ∷ x ∷ []) = ground arith
read_frame-ne-out_of_fuel (w ∷ x ∷ y ∷ []) = ground arith
read_frame-ne-out_of_fuel (w ∷ x ∷ y ∷ z ∷ rest) = ground arith

-- A body with a byte does not make the loop panic.
hear-ne-panicked : (b : List ℕ) → 1 ≤ length b → hear b ≢ panicked
unfolding hear
hear-ne-panicked [] h = absurd (omega arith)
hear-ne-panicked (r ∷ []) h = ground arith
hear-ne-panicked (r ∷ a ∷ []) h = ground arith
hear-ne-panicked (r ∷ a ∷ b ∷ []) h = ground arith
hear-ne-panicked (r ∷ a ∷ b ∷ c ∷ []) h = ground arith
hear-ne-panicked (r ∷ a ∷ b ∷ c ∷ d ∷ payload) h = ground arith

abbrev pub Ends : List Heard × Ended → Type 0
Ends r = All (λ m. m ≢ panicked) r.0 × (r.1 ≢ out_of_fuel)

read_loop-Ends : (fuel : ℕ) (input : List ℕ) → length input < fuel → Ends (read_loop fuel input)
read_loop-Ends zero input h = elim h [ ]
read_loop-Ends (suc fuel) input h = elim (Frame-cases (read_frame input)) [
  | inl (e, p) ↦
      rw (read_loop-ended fuel input e p)
        (tt, λ q. read_frame-ne-out_of_fuel input (p ∙ ap ended q))
  | inr (b, rest, p) ↦
      let (fits, shorter) = read_frame_takes input b rest p in
      let ih = read_loop-Ends fuel rest (omega arith) in
      rw (read_loop_body fuel input b rest p) ((hear-ne-panicked b fits.0, ih.0), ih.1)
]

-- Whatever bytes arrive, the reading loop comes to its end and no body makes it panic.
pub read_link-Ends : (input : List ℕ) → Ends (read_link input)
unfolding read_link
read_link-Ends input = read_loop-Ends (suc (length input)) input (omega arith)

-- The answer of a phone to a request is heard with its number and its payload.
hear-response :
    (number : ℕ) (payload : List ℕ)
    → number < 4294967296
    → hear (resp ∷ (be32 number ++ payload)) ≡ response number payload
unfolding hear
hear-response number payload h = ground (arith, from_be32-be32 number h)
