-- ===== src/Rounds/Answer.antt =====
-- What the host is told after the rounds, and that it is told something.
use passkey.Base.{
  In, ℕ, ◌≤◌, ◌≡◌, refl, sym, subst, ◌∙◌, ◌⊎◌, ◌↔◌, inl, inr, Bool, true, false, List, [], ◌∷◌,
  ◌++◌, Option, none, some, find, All, Bool-cases, Option-cases, arith, length,
}
use mathlib.Core.Option.{some-injective}
use passkey.Base.Text.{Text}
use passkey.Link.{Link}
use passkey.Daemon.{Daemon, Request}
use passkey.Hid.{live_links}
use passkey.Links.{by_device}
use passkey.Cbor.{silent}
use passkey.Fan.{Fan, fan_out, sent}
use passkey.Fan.Rule.{IsUnique, has, is_refusal, Heard}
use passkey.Fan.Verdict.{fan_out-IsWin, fan_out-refusals, IsWin}
use passkey.Rounds.{
  rounds, Turn, Outcome, approved, refused, is_other, should_stop, ask, final_error, or_first,
  after_round, answer_of, outcome,
}
use passkey.Rounds.Unique.{
  by_device-IsUnique, rounds-IsUnique, filter-IsUnique, has-filter, has-by_device, has_round,
  has-rounds,
}

All-append {ℓ κ} :
    {A : Type ℓ} (P : A → Type κ) (xs ys : List A) → All P xs → All P ys → All P (xs ++ ys)
All-append P [] ys a b = b
All-append P (x ∷ xs) ys a b = (a.0, All-append P xs ys a.1 b)

-- What one of the fan-outs has received from a link.
abbrev pub HeardIn : List Turn → ℕ → ℕ → List ℕ → Type 0
HeardIn turns serial number payload =
    (turn : Turn) × In turn turns × Heard turn.polls serial number payload

HeardIn-later :
    (t : Turn) (turns : List Turn) (serial number : ℕ) (payload : List ℕ)
    → HeardIn turns serial number payload
    → HeardIn (t ∷ turns) serial number payload
HeardIn-later t turns serial number payload (turn, m, h) = (turn, inr m, h)

-- An outcome is backed by the phones: an approval has status 0 and was received as the answer to
-- this request from a target of some round, and without one there are only refusals.
abbrev IsBacked : List Turn → ℕ → List (List Link) → Outcome → Type 0
IsBacked turns number rs (approved winner payload wins) =
    (has_round winner.serial rs ≡ true)
    × ((p : List ℕ) × (payload ≡ 0 ∷ p))
    × HeardIn turns winner.serial number payload
IsBacked turns number rs (refused errors) = All (λ e. is_refusal e ≡ true) errors

IsBacked-cons :
    (turns : List Turn) (number : ℕ) (r : List Link) (rs : List (List Link)) (o : Outcome)
    → IsBacked turns number rs o
    → IsBacked turns number (r ∷ rs) o
IsBacked-cons turns number r rs (approved winner payload wins) (h, p, e) = (ground arith, p, e)
IsBacked-cons turns number r rs (refused errors) h = h

IsBacked-later :
    (t : Turn) (turns : List Turn) (number : ℕ) (rs : List (List Link)) (o : Outcome)
    → IsBacked turns number rs o
    → IsBacked (t ∷ turns) number rs o
IsBacked-later t turns number rs (approved winner payload wins) (h, p, e) =
    (h, p, HeardIn-later t turns winner.serial number payload e)
IsBacked-later t turns number rs (refused errors) h = h

pub ask-round :
    (number : ℕ) (probe : Bool) (turn : Turn) (turns : List Turn) (link : Link) (links : List Link)
    (rest : List (List Link)) (errors : List (List ℕ)) (f : Fan)
    → fan_out number turn.sends turn.polls probe (link ∷ links) ≡ some f
    → ask number probe (turn ∷ turns) ((link ∷ links) ∷ rest) errors
      ≡ after_round errors f.wins f.errors (ask number probe turns rest (errors ++ f.errors))
unfolding ask
ask-round number probe turn turns link links rest errors f e = rw (e, ask)

-- The same for a round whose `fan_out` has no end.
ask-none :
    (number : ℕ) (probe : Bool) (turn : Turn) (turns : List Turn) (link : Link) (links : List Link)
    (rest : List (List Link)) (errors : List (List ℕ))
    → fan_out number turn.sends turn.polls probe (link ∷ links) ≡ none
    → ask number probe (turn ∷ turns) ((link ∷ links) ∷ rest) errors ≡ none
unfolding ask
ask-none number probe turn turns link links rest errors e = rw (e, ask)

after_round-IsBacked :
    (turn : Turn) (turns : List Turn) (number : ℕ) (errors : List (List ℕ)) (r to : List Link)
    (rest : List (List Link)) (pending : List Link) (wins : List (Link × List ℕ))
    (failures : List (List ℕ)) (next : Option Outcome) (o : Outcome)
    → All (λ e. is_refusal e ≡ true) errors
    → ((n : ℕ) → has n to ≡ true → has n r ≡ true)
    → All (IsWin turn.polls number to pending) wins
    → All (λ e. is_refusal e ≡ true) failures
    → (next ≡ some o → IsBacked turns number rest o)
    → after_round errors wins failures next ≡ some o
    → IsBacked (turn ∷ turns) number (r ∷ rest) o
after_round-IsBacked turn turns number errors r to rest pending [] failures next o a sub w b k e =
    elim (Bool-cases (should_stop failures)) [
      | inl stop ↦
          subst (IsBacked (turn ∷ turns) number (r ∷ rest))
            (some-injective (refused (errors ++ failures)) o (rw stop at e))
            (All-append (λ x. is_refusal x ≡ true) errors failures a b)
      | inr on ↦
          IsBacked-cons (turn ∷ turns) number r rest o
            (IsBacked-later turn turns number rest o (k (rw on at e)))
    ]
after_round-IsBacked turn turns number errors r to rest pending (win ∷ wins) failures next o a sub w
      b k e =
    let (mine, gone, p, heard) = w.0 in
    subst (IsBacked (turn ∷ turns) number (r ∷ rest))
      (some-injective (approved win.0 win.1 (win ∷ wins)) o e)
      (rw (sub win.0.serial mine) refl, p, (turn, inl refl, heard))

ask-IsBacked :
    (number : ℕ) (probe : Bool) (turns : List Turn) (rs : List (List Link)) (errors : List (List ℕ))
    (o : Outcome)
    → All IsUnique rs
    → All (λ e. is_refusal e ≡ true) errors
    → ask number probe turns rs errors ≡ some o
    → IsBacked turns number rs o
unfolding ask
ask-IsBacked number probe turns [] errors o u a e =
    subst (IsBacked turns number []) (some-injective (refused errors) o e) a
ask-IsBacked number probe turns ([] ∷ rest) errors o u a e =
    IsBacked-cons turns number [] rest o (ask-IsBacked number probe turns rest errors o u.1 a e)
ask-IsBacked number probe [] ((link ∷ links) ∷ rest) errors o u a e = cc
ask-IsBacked number probe (turn ∷ turns) ((link ∷ links) ∷ rest) errors o u a e =
    let r : List Link = link ∷ links in
    let to : List Link = sent turn.sends r in
    let unique : IsUnique to = filter-IsUnique (λ l. turn.sends l.serial) r u.0 in
    elim (Option-cases (fan_out number turn.sends turn.polls probe r)) [
      | inl n ↦ cc (ask-none number probe turn turns link links rest errors n, e)
      | inr (f, h) ↦
          let bad : All (λ x. is_refusal x ≡ true) f.errors =
            fan_out-refusals number turn.sends turn.polls probe r f unique h in
          after_round-IsBacked turn turns number errors r to rest f.pending f.wins f.errors
            (ask number probe turns rest (errors ++ f.errors)) o a
            (λ n. has-filter n (λ l. turn.sends l.serial) r)
            (fan_out-IsWin number turn.sends turn.polls probe r f unique h) bad
            (ask-IsBacked number probe turns rest (errors ++ f.errors) o u.1
              (All-append (λ x. is_refusal x ≡ true) errors f.errors a bad))
            (sym (ask-round number probe turn turns link links rest errors f h) ∙ e)
    ]

find-some {ℓ} :
    {A : Type ℓ} (p q : A → Bool) (xs : List A) (x : A)
    → All (λ y. q y ≡ true) xs
    → find p xs ≡ some x
    → (p x ≡ true) × (q x ≡ true)
find-some p q [] x a e = cc
find-some p q (y ∷ ys) x a e = elim (Bool-cases (p y)) [
  | inl h ↦ rw (sym (some-injective y x (rw h at e))) (h, a.0)
  | inr h ↦ find-some p q ys x a.1 (rw h at e)
]

find-none {ℓ} :
    {A : Type ℓ} (p : A → Bool) (xs : List A) → find p xs ≡ none → All (λ y. p y ≡ false) xs
find-none p [] e = tt
find-none p (y ∷ ys) e = elim (Bool-cases (p y)) [
  | inl h ↦ cc (rw h at e)
  | inr h ↦ (h, find-none p ys (rw h at e))
]

find-true {ℓ} : {A : Type ℓ} (p : A → Bool) (xs : List A) (x : A) → find p xs ≡ some x → p x ≡ true
find-true p [] x e = cc
find-true p (y ∷ ys) x e = elim (Bool-cases (p y)) [
  | inl h ↦ subst (λ z. p z ≡ true) (some-injective y x (rw h at e)) h
  | inr h ↦ find-true p ys x (rw h at e)
]

find-All-false {ℓ} :
    {A : Type ℓ} (p : A → Bool) (xs : List A) → All (λ y. p y ≡ false) xs → find p xs ≡ none
find-All-false p [] a = refl
find-All-false p (y ∷ ys) a = rw (a.0) (find-All-false p ys a.1)

final_error-refusal :
    (es : List (List ℕ)) → All (λ e. is_refusal e ≡ true) es → is_refusal (final_error es) ≡ true
unfolding final_error
final_error-refusal es a = elim (Option-cases (find is_other es)) [
  | inl n ↦ rw (n, final_error) (first es a)
  | inr (e, h) ↦ rw (h, final_error) (find-some is_other is_refusal es e a h).1
]
  where
    first :
        (es : List (List ℕ))
        → All (λ e. is_refusal e ≡ true) es
        → is_refusal (or_first none es) ≡ true
    first [] a = refl
    first (e ∷ es) a = a.0

-- An approval that was received from a connected phone that is alive, as its answer to the request.
abbrev pub IsApproved : Daemon → Request → List Turn → Outcome → Type 0
IsApproved s request turns (approved winner payload wins) =
    (has winner.serial (live_links s) ≡ true)
    × ((p : List ℕ) × (payload ≡ 0 ∷ p))
    × HeardIn turns winner.serial request.number payload
IsApproved s request turns (refused errors) = ◌≡◌ {A = Bool} true false

-- Where no link stands twice in the daemon's list: what the host is told has another status than 0,
-- or it is the message, with status 0, that a round of some fan-out received as the answer to this
-- request, from a phone that was connected and alive when the request began.
pub answer_of-outcome :
    (s : Daemon) (request : Request) (chosen : Option Text) (command : ℕ) (body : List ℕ)
    (turns : List Turn) (o : Outcome)
    → IsUnique s.links
    → outcome s request chosen command body turns ≡ some o
    → (is_refusal (answer_of o) ≡ true) ⊎ IsApproved s request turns o
unfolding outcome
answer_of-outcome s request chosen command body turns o u e =
    let probe : Bool = silent (command ∷ body) in
    let links : List Link = by_device s in
    verdict o (
      ask-IsBacked request.number probe turns (rounds chosen command probe s.holders s.last links)
        [] o (rounds-IsUnique chosen command probe s.holders s.last links (by_device-IsUnique s u))
        tt e)
  where
    verdict :
        (o : Outcome)
        → IsBacked turns request.number
            (rounds chosen command (silent (command ∷ body)) s.holders s.last (by_device s))
            o
        → (is_refusal (answer_of o) ≡ true) ⊎ IsApproved s request turns o
    verdict (approved winner payload wins) (h, p, q) = inr (
      has-by_device winner.serial s (
          has-rounds winner.serial chosen command (silent (command ∷ body)) s.holders s.last
            (by_device s) h),
      p,
      q,
    )
    verdict (refused errors) a = inl (final_error-refusal errors a)

-- The host is told that there are no credentials exactly if some phone was asked and every answer
-- was this one.
final_error-is_other :
    (es : List (List ℕ))
    → is_other (final_error es) ≡ false ↔ ((1 ≤ length es) × All (λ e. is_other e ≡ false) es)
unfolding final_error
final_error-is_other [] = ((λ h. cc h), λ h. absurd (omega (arith, h.0)))
final_error-is_other (e ∷ es) = elim (Option-cases (find is_other (e ∷ es))) [
  | inl n ↦
      let all : All (λ x. is_other x ≡ false) (e ∷ es) = find-none is_other (e ∷ es) n in
      rw (n, final_error) ((λ h. (omega arith, all)), λ h. all.0)
  | inr (x, h) ↦
      let other : is_other x ≡ true = find-true is_other (e ∷ es) x h in
      rw (h, final_error) ((λ k. cc (k, other)), λ k. cc (find-All-false is_other (e ∷ es) k.1, h))
]
