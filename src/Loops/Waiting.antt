-- ===== src/Loops/Waiting.antt =====
-- A device of adb that could not be connected is left alone for ten seconds.
use passkey.Base.{
  ℕ, ◌+◌, ◌<◌, ◌≡◌, refl, sym, ap, ◌∙◌, Bool, true, false, not, ◌||◌, List, [], ◌∷◌, some,
  if◌then◌else◌, ltb-true, same, same_self, same→eq, any, filter, map, All, Bool-cases, inl, inr,
}
use passkey.Base.Text.{Text}
use passkey.Stack.Loop.{or_true}
use passkey.Link.{Link}
use passkey.Daemon.{Daemon}
use passkey.Hid.{live_links}
use passkey.Loops.{
  Attempt, made, unset, failed, Try, Retry, until, forget, is_waiting, usb_name, after_attempt,
  usb_tries, usb_round, usb_rounds,
}

until-forget : (k j : Text) (m : Retry) → same j k ≡ false → until k (forget j m) ≡ until k m
unfolding until forget
until-forget k j [] h = refl
until-forget k j ((i, t) ∷ m) h = elim (Bool-cases (same i j)) [
  | inl e ↦ rw e (
      until-forget k j m h
      ∙ ap (λ b. if b then some t else until k m) (sym (ap (λ x. same x k) (same→eq i j e) ∙ h)))
  | inr e ↦ rw e (ap (λ r. if same i k then some t else r) (until-forget k j m h))
]

-- An attempt for another device keeps the entry.
until-after_attempt :
    (opens : Bool) (k : Text) (t : Try) (a : Attempt) (state : Daemon × Retry)
    → same t.serial_number k ≡ false
    → until k (after_attempt opens t a state).1 ≡ until k state.1
unfolding until
until-after_attempt opens k t (made label device serial) (s, retry) h =
    until-forget k t.serial_number retry h
until-after_attempt opens k t unset (s, retry) h = refl
until-after_attempt opens k t failed (s, retry) h = rw h (until-forget k t.serial_number retry h)

abbrev pub others : Text → List Try → List Try
others k ts = filter (λ t. not (same t.serial_number k)) ts

abbrev pub Early : Text → ℕ → Try → Type 0
Early k u t = t.serial_number ≡ k → t.now < u

abbrev skips : List Text → Try → Retry → Bool
skips names t retry =
    any (λ name. same name (usb_name t.serial_number)) names
    || is_waiting (until t.serial_number retry) t.now

skipped :
    (opens : Bool) (names : List Text) (t : Try) (ts : List Try) (state : Daemon × Retry)
    → skips names t state.1 ≡ true
    → usb_tries opens names (t ∷ ts) state ≡ usb_tries opens names ts state
unfolding usb_tries
skipped opens names t ts state h = rw h

attempted :
    (opens : Bool) (names : List Text) (t : Try) (ts : List Try) (state : Daemon × Retry)
    → skips names t state.1 ≡ false
    → usb_tries opens names (t ∷ ts) state
      ≡ usb_tries opens names ts (after_attempt opens t t.attempt state)
unfolding usb_tries
attempted opens names t ts state h = rw h

any-map :
    (k : Text) (ls : List Link)
    → any (λ name. same name k) (map (λ l. l.name) ls) ≡ any (λ l. same l.name k) ls
any-map k [] = refl
any-map k (l ∷ ls) = ap (λ b. same l.name k || b) (any-map k ls)

module _ (opens : Bool) (k : Text) (u : ℕ) where
  abbrev Left : List Text → List Try → List Try → Daemon × Retry → Type 0
  Left names ts ts' state =
      (usb_tries opens names ts state ≡ usb_tries opens names ts' state)
      × (until k (usb_tries opens names ts state).1 ≡ some u)

  -- One round, and what it leaves in the table.
  usb_tries-others :
      (names : List Text) (ts : List Try) (state : Daemon × Retry)
      → until k state.1 ≡ some u
      → All (Early k u) ts
      → Left names ts (others k ts) state
  unfolding usb_tries
  usb_tries-others names [] state h e = (refl, h)
  usb_tries-others names (t ∷ ts) state h e = elim (Bool-cases (same t.serial_number k)) [
    | inl q ↦ rw q (passed q (usb_tries-others names ts state h e.1))
    | inr q ↦ rw q (elim (Bool-cases (skips names t state.1)) [
      | inl skip ↦
          let (a, b) = usb_tries-others names ts state h e.1 in
          let s = skipped opens names t ts state skip in
          (
            s ∙ a ∙ sym (skipped opens names t (others k ts) state skip),
            ap (λ r. until k r.1) s ∙ b,
          )
      | inr go ↦
          let state' : Daemon × Retry = after_attempt opens t t.attempt state in
          let (a, b) =
            usb_tries-others names ts state' (until-after_attempt opens k t t.attempt state q ∙ h)
              e.1 in
          let s = attempted opens names t ts state go in
          (
            s ∙ a ∙ sym (attempted opens names t (others k ts) state go),
            ap (λ r. until k r.1) s ∙ b,
          )
    ])
  ]
    where
      passed :
          same t.serial_number k ≡ true
          → Left names ts (others k ts) state
          → Left names (t ∷ ts) (others k ts) state
      passed q (a, b) =
          let p : t.serial_number ≡ k = same→eq t.serial_number k q in
          let w : is_waiting (until t.serial_number state.1) t.now ≡ true =
            ap (λ x. is_waiting (until x state.1) t.now) p
            ∙ ap (λ o. is_waiting o t.now) h
            ∙ ltb-true t.now u (e.0 p) in
          let s = skipped opens names t ts state (
            ap (λ b. any (λ name. same name (usb_name t.serial_number)) names || b) w
            ∙ or_true (any (λ name. same name (usb_name t.serial_number)) names)) in
          (s ∙ a, ap (λ r. until k r.1) s ∙ b)

  rounds-others :
      (rounds : List (List Try)) (state : Daemon × Retry)
      → until k state.1 ≡ some u
      → All (All (Early k u)) rounds
      → usb_rounds opens rounds state ≡ usb_rounds opens (map (others k) rounds) state
  unfolding usb_rounds usb_round
  rounds-others [] state h e = refl
  rounds-others (ts ∷ rounds) state h e =
      let names : List Text = map (λ link. link.name) (live_links state.0) in
      let (same_round, kept) = usb_tries-others names ts state h e.0 in
      rounds-others rounds (usb_tries opens names ts state) kept e.1
      ∙ ap (usb_rounds opens (map (others k) rounds)) same_round

-- After an attempt that failed the device is not tried before ten seconds are over, if the attempt
-- was the only one of its round: the rounds until then, with any other devices, go as if adb did
-- not list it. The device had no connection, and was not waiting itself.
pub usb_rounds-failed :
    (opens : Bool) (t : Try) (rounds : List (List Try)) (s : Daemon) (retry : Retry)
    → t.attempt ≡ failed
    → any (λ l. same l.name (usb_name t.serial_number)) (live_links s) ≡ false
    → is_waiting (until t.serial_number retry) t.now ≡ false
    → All (All (Early t.serial_number (t.later + 10))) rounds
    → usb_rounds opens rounds (usb_round opens (t ∷ []) (s, retry))
      ≡ usb_rounds opens (map (others t.serial_number) rounds) (usb_round opens (t ∷ []) (s, retry))
unfolding usb_round usb_tries until
usb_rounds-failed opens t rounds s retry f n w e =
    rounds-others opens t.serial_number (t.later + 10) rounds (usb_round opens (t ∷ []) (s, retry))
      entry e
  where
    names :
        any (λ name. same name (usb_name t.serial_number)) (map (λ l. l.name) (live_links s))
        ≡ false
    names = any-map (usb_name t.serial_number) (live_links s) ∙ n

    entry : until t.serial_number (usb_round opens (t ∷ []) (s, retry)).1 ≡ some (t.later + 10)
    entry = rw (names, w, f, same_self t.serial_number)
