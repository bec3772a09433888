-- ===== src/Pam/Finish.antt =====
-- The loop of the PAM module comes to its end, and how often it starts the helper.
use passkey.Base.{
  ℕ, suc, ◌≤◌, ◌≡◌, ◌≢◌, refl, sym, subst, ◌∙◌, Bool, true, false, not, ◌&&◌, ◌||◌, List, [], ◌∷◌,
  ◌++◌, Option, none, some, if◌then◌else◌, any, arith, Bool-cases, inl, inr,
}
use mathlib.Core.Option.{some-injective}
use passkey.Base.Text.{Text}
use passkey.Hid.{is_some}
use passkey.Pam.{
  Tick, Answer, verdict, waiting, broken, Login, Next, go, stop, entered, hear, judge, and_then,
  step, loop, Host, config, is_ready, authenticate, begun, idle, PromptResult,
}
use passkey.Pam.Success.{Next-cases, loop-go, loop-stop}

-- The round in which the helper has spoken or is out of time.
abbrev is_last : Answer → Bool → Bool
is_last (verdict approved) expired = true
is_last waiting expired = expired
is_last broken expired = false

abbrev has_last : List Tick → Bool
has_last ticks = any (λ t. is_last t.answer t.expired) ticks

abbrev has_prompt : List Tick → Bool
has_prompt ticks = any (λ t. is_some t.prompt) ticks

-- After a step the prompt is over, or the loop is.
abbrev IsPast : Next → Type 0
IsPast (go s) = s.prompting ≡ false
IsPast (stop s) = Unit {0}

-- The loop ends with this step if the helper is done.
abbrev IsLast : Bool → Next → Type 0
IsLast last (go s) = (s.prompting ≡ false) × (last ≡ false)
IsLast last (stop s) = Unit {0}

entered-IsPast :
    (t : Tick) (status : ℕ) (answer : Option Text) (s : Login)
    → s.prompting ≡ false
    → IsPast (entered t status answer s)
unfolding entered
entered-IsPast t status none s h = tt
entered-IsPast t status (some []) s h = ground arith
entered-IsPast t status (some (c ∷ text)) s h = ground arith

hear-IsPast :
    (t : Tick) (p : Option PromptResult) (s : Login)
    → (is_some p || not s.prompting) ≡ true
    → IsPast (hear t p s)
unfolding hear
hear-IsPast t none s h = ground arith
hear-IsPast t (some p) s h =
    ground (arith, entered-IsPast t p.status p.answer (record s { prompting = false }) refl)

judge-IsLast :
    (t : Tick) (a : Answer) (s : Login)
    → s.prompting ≡ false
    → IsLast (is_last a t.expired) (judge t a s)
unfolding judge
judge-IsLast t (verdict true) s h = ground arith
judge-IsLast t (verdict false) s h = ground arith
judge-IsLast t waiting s h = ground arith
judge-IsLast t broken s h = ground arith

and_then-IsLast :
    (last : Bool) (n : Next) (f : Login → Next)
    → IsPast n
    → ((s : Login) → s.prompting ≡ false → IsLast last (f s))
    → IsLast last (and_then n f)
and_then-IsLast last (go s) f h k = k s h
and_then-IsLast last (stop s) f h k = tt

step-IsLast :
    (t : Tick) (s : Login)
    → (is_some t.prompt || not s.prompting) ≡ true
    → IsLast (is_last t.answer t.expired) (step t s)
unfolding step
step-IsLast t s h =
    and_then-IsLast (is_last t.answer t.expired) (hear t t.prompt s) (judge t t.answer)
      (hear-IsPast t t.prompt s h) (judge-IsLast t t.answer)

-- Once the prompt is over.
loop_past :
    (ts : List Tick) (s : Login) → s.prompting ≡ false → has_last ts ≡ true → loop ts s ≢ none
unfolding loop
loop_past [] s p h = cc h
loop_past (t ∷ ts) s p h = elim (Next-cases (step t s)) [
  | inl (s', n) ↦
      let past : (s'.prompting ≡ false) × (is_last t.answer t.expired ≡ false) =
        rw n at (step-IsLast t s (ground arith)) in
      subst (λ o. o ≢ none) (sym (loop-go t ts s s' n)) (loop_past ts s' past.0 (rw (past.1) at h))
  | inr (s', n) ↦ λ e. cc (loop-stop t ts s s' n, e)
]

has_last-append : (ts us : List Tick) → has_last us ≡ true → has_last (ts ++ us) ≡ true
has_last-append [] us h = h
has_last-append (t ∷ ts) us h = rw (has_last-append ts us h) (ground arith)

loop-ne-none :
    (ts us : List Tick) (s : Login)
    → has_prompt ts ≡ true
    → has_last us ≡ true
    → loop (ts ++ us) s ≢ none
unfolding loop
loop-ne-none [] us s p h = cc p
loop-ne-none (t ∷ ts) us s p h = elim (Next-cases (step t s)) [
  | inr (s', n) ↦ λ e. cc (loop-stop t (ts ++ us) s s' n, e)
  | inl (s', n) ↦ elim (Bool-cases (is_some t.prompt)) [
    | inl now ↦
        let past : (s'.prompting ≡ false) × (is_last t.answer t.expired ≡ false) =
          rw n at (step-IsLast t s (rw now refl)) in
        subst (λ o. o ≢ none) (sym (loop-go t (ts ++ us) s s' n))
          (loop_past (ts ++ us) s' past.0 (has_last-append ts us h))
    | inr later ↦
        subst (λ o. o ≢ none) (sym (loop-go t (ts ++ us) s s' n))
          (loop-ne-none ts us s' (rw later at p) h)
  ]
]

-- The login ends: once the prompt has been answered, the helper's verdict or the end of its time
-- ends the loop, if nothing did before.
pub authenticate-ne-none :
    (w : Host) (args : List Text) (ts us : List Tick)
    → has_prompt ts ≡ true
    → has_last us ≡ true
    → authenticate w args (ts ++ us) ≢ none
unfolding authenticate
authenticate-ne-none w args ts us p h =
    let ended : loop (ts ++ us) (begun (not (config w args).on_empty && w.starts)) ≢ none =
      loop-ne-none ts us (begun (not (config w args).on_empty && w.starts)) p h in
    elim (Bool-cases (is_ready w (config w args) (config w args).authfile w.user)) [
      | inl ok ↦ rw ok ended
      | inr bad ↦ rw bad (λ e. cc e)
    ]

-- How often the helper may still be started.
abbrev budget : Login → ℕ
budget s = if s.prompting then suc s.tries else s.tries

abbrev IsWithin : ℕ → Next → Type 0
IsWithin k (go s) = budget s ≤ k
IsWithin k (stop s) = s.tries ≤ k

entered-IsWithin :
    (k : ℕ) (t : Tick) (status : ℕ) (answer : Option Text) (s : Login)
    → s.prompting ≡ false
    → suc s.tries ≤ k
    → IsWithin k (entered t status answer s)
unfolding entered
entered-IsWithin k t status none s p h = omega arith
entered-IsWithin k t status (some []) s p h = ground arith
entered-IsWithin k t status (some (c ∷ text)) s p h = ground arith

hear-IsWithin :
    (k : ℕ) (t : Tick) (p : Option PromptResult) (s : Login)
    → budget s ≤ k
    → IsWithin k (hear t p s)
unfolding hear
hear-IsWithin k t none s h = h
hear-IsWithin k t (some p) s h =
    ground (arith, entered-IsWithin k t p.status p.answer (record s { prompting = false }) refl)

judge-IsWithin :
    (k : ℕ) (t : Tick) (a : Answer) (s : Login) → budget s ≤ k → IsWithin k (judge t a s)
unfolding judge
judge-IsWithin k t (verdict true) s h = ground arith
judge-IsWithin k t (verdict false) s h = ground arith
judge-IsWithin k t waiting s h = ground arith
judge-IsWithin k t broken s h = ground arith

and_then-IsWithin :
    (k : ℕ) (n : Next) (f : Login → Next)
    → IsWithin k n
    → ((s : Login) → budget s ≤ k → IsWithin k (f s))
    → IsWithin k (and_then n f)
and_then-IsWithin k (go s) f h g = g s h
and_then-IsWithin k (stop s) f h g = h

step-IsWithin : (k : ℕ) (t : Tick) (s : Login) → budget s ≤ k → IsWithin k (step t s)
unfolding step
step-IsWithin k t s h =
    and_then-IsWithin k (hear t t.prompt s) (judge t t.answer) (hear-IsWithin k t t.prompt s h)
      (judge-IsWithin k t t.answer)

loop_tries :
    (k : ℕ) (ts : List Tick) (s e : Login) → budget s ≤ k → loop ts s ≡ some e → e.tries ≤ k
unfolding loop
loop_tries k [] s e h l = cc l
loop_tries k (t ∷ ts) s e h l = elim (Next-cases (step t s)) [
  | inl (s', n) ↦
      loop_tries k ts s' e (rw n at (step-IsWithin k t s h)) (sym (loop-go t ts s s' n) ∙ l)
  | inr (s', n) ↦
      subst (λ x. x.tries ≤ k) (some-injective s' e (sym (loop-stop t ts s s' n) ∙ l))
        (rw n at (step-IsWithin k t s h))
]

-- The helper is started twice at most, and in the mode on-empty once: an empty answer to the
-- prompt is the only reason to start it again, and the prompt is answered once.
authenticate_tries :
    (w : Host) (args : List Text) (ticks : List Tick) (e : Login)
    → authenticate w args ticks ≡ some e
    → e.tries ≤ (if (config w args).on_empty then 1 else 2)
unfolding authenticate
authenticate_tries w args ticks e a =
    elim (Bool-cases (is_ready w (config w args) (config w args).authfile w.user)) [
      | inl ok ↦
          loop_tries (if (config w args).on_empty then 1 else 2) ticks
            (begun (not (config w args).on_empty && w.starts)) e (ground arith) (rw ok at a)
      | inr bad ↦
          subst (λ x. x.tries ≤ (if (config w args).on_empty then 1 else 2))
            (some-injective idle e (rw bad at a)) (omega arith)
    ]
