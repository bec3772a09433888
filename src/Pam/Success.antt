-- ===== src/Pam/Success.antt =====
-- What the result of the PAM module means.
use passkey.Base.{
  ℕ, ◌≡◌, refl, sym, ap, ◌∙◌, ◌⊎◌, Bool, true, false, not, ◌&&◌, List, [], ◌∷◌, Option, none, some,
  any, arith, Bool-cases, inl, inr,
}
use mathlib.Core.Option.{some-injective}
use passkey.Base.Text.{Text}
use passkey.Pam.{
  Tick, Answer, verdict, waiting, broken, Login, Next, go, stop, entered, hear, judge, and_then,
  step, loop, pam_success, pam_ignore, Host, config, is_ready, authenticate, begun, PromptResult,
}

abbrev pub approves : Answer → Bool
approves (verdict approved) = approved
approves waiting = false
approves broken = false

-- No password was passed on and nothing decided yet.
abbrev IsOpen : Login → Type 0
IsOpen s = (s.result ≡ pam_ignore) × (s.authtok ≡ none)

abbrev IsSafe : Bool → Next → Type 0
IsSafe ok (go s) = IsOpen s
IsSafe ok (stop s) = s.result ≡ pam_success → (ok ≡ true) × (s.authtok ≡ none)

entered-IsSafe :
    (ok : Bool) (t : Tick) (status : ℕ) (answer : Option Text) (s : Login)
    → IsOpen s
    → IsSafe ok (entered t status answer s)
unfolding entered
entered-IsSafe ok t status none s h = ground arith
entered-IsSafe ok t status (some []) s h = ground arith
entered-IsSafe ok t status (some (c ∷ text)) s h = ground arith

hear-IsSafe :
    (ok : Bool) (t : Tick) (p : Option PromptResult) (s : Login) → IsOpen s → IsSafe ok (hear t p s)
unfolding hear
hear-IsSafe ok t none s h = h
hear-IsSafe ok t (some p) s h =
    ground (arith, entered-IsSafe ok t p.status p.answer (record s { prompting = false }) h)

judge-IsSafe : (t : Tick) (a : Answer) (s : Login) → IsOpen s → IsSafe (approves a) (judge t a s)
unfolding judge
judge-IsSafe t (verdict true) s h = ground arith
judge-IsSafe t (verdict false) s h = ground arith
judge-IsSafe t waiting s h = ground arith
judge-IsSafe t broken s h = ground arith

and_then-IsSafe :
    (ok : Bool) (n : Next) (f : Login → Next)
    → IsSafe ok n
    → ((s : Login) → IsOpen s → IsSafe ok (f s))
    → IsSafe ok (and_then n f)
and_then-IsSafe ok (go s) f h k = k s h
and_then-IsSafe ok (stop s) f h k = h

step-IsSafe : (t : Tick) (s : Login) → IsOpen s → IsSafe (approves t.answer) (step t s)
unfolding step
step-IsSafe t s h =
    and_then-IsSafe (approves t.answer) (hear t t.prompt s) (judge t t.answer)
      (hear-IsSafe (approves t.answer) t t.prompt s h) (judge-IsSafe t t.answer)

abbrev pub has_approval : List Tick → Bool
has_approval ticks = any (λ t. approves t.answer) ticks

-- The cases of one step of the loop.
pub Next-cases : (n : Next) → ((s : Login) × (n ≡ go s)) ⊎ ((s : Login) × (n ≡ stop s))
Next-cases (go s) = inl (s, refl)
Next-cases (stop s) = inr (s, refl)

pub loop-go :
    (t : Tick) (ts : List Tick) (s s' : Login) → step t s ≡ go s' → loop (t ∷ ts) s ≡ loop ts s'
unfolding loop
loop-go t ts s s' e = rw (e, loop)

pub loop-stop :
    (t : Tick) (ts : List Tick) (s s' : Login) → step t s ≡ stop s' → loop (t ∷ ts) s ≡ some s'
unfolding loop
loop-stop t ts s s' e = rw (e, loop)

loop-success :
    (ts : List Tick) (s e : Login)
    → IsOpen s
    → loop ts s ≡ some e
    → e.result ≡ pam_success
    → (has_approval ts ≡ true) × (e.authtok ≡ none)
unfolding loop
loop-success [] s e h l r = cc
loop-success (t ∷ ts) s e h l r = elim (Next-cases (step t s)) [
  | inl (s', n) ↦
      let rest : (has_approval ts ≡ true) × (e.authtok ≡ none) =
        loop-success ts s' e (rw n at (step-IsSafe t s h)) (sym (loop-go t ts s s' n) ∙ l) r in
      ground arith
  | inr (s', n) ↦
      let last : s' ≡ e = some-injective s' e (sym (loop-stop t ts s s' n) ∙ l) in
      let safe : s'.result ≡ pam_success → (approves t.answer ≡ true) × (s'.authtok ≡ none) =
        rw n at (step-IsSafe t s h) in
      let done : (approves t.answer ≡ true) × (s'.authtok ≡ none) =
        safe (ap (λ x. x.result) last ∙ r) in
      (rw (done.0) refl, ap (λ x. x.authtok) (sym last) ∙ done.1)
]

-- The login succeeds only if the helper reported an approval; then a device was present, the file
-- of keys had the user, and no password was passed on.
pub authenticate-success :
    (w : Host) (args : List Text) (ticks : List Tick) (e : Login)
    → authenticate w args ticks ≡ some e
    → e.result ≡ pam_success
    → (has_approval ticks ≡ true)
      × (is_ready w (config w args) (config w args).authfile w.user ≡ true)
      × (e.authtok ≡ none)
unfolding authenticate
authenticate-success w args ticks e a r =
    elim (Bool-cases (is_ready w (config w args) (config w args).authfile w.user)) [
      | inl ok ↦
          let end : (has_approval ticks ≡ true) × (e.authtok ≡ none) =
            loop-success ticks (begun (not (config w args).on_empty && w.starts)) e (refl, refl)
              (rw ok at a) r in
          (end.0, ok, end.1)
      | inr bad ↦ cc (rw bad at a, r)
    ]
