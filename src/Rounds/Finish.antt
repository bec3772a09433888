-- ===== src/Rounds/Finish.antt =====
-- A request comes to its end.
use passkey.Base.{
  ℕ, ◌≤◌, ◌≡◌, ◌≢◌, sym, subst, Bool, true, List, [], ◌∷◌, ◌++◌, Option, none, some, any, All,
  Option-cases, arith, length, inl, inr,
}
use passkey.Base.Text.{Text}
use passkey.Link.{Link}
use passkey.Daemon.{Daemon, Request}
use passkey.Links.{by_device}
use passkey.Cbor.{silent}
use passkey.Fan.{fan_out}
use passkey.Fan.Finish.{fan_out-ne-none}
use passkey.Rounds.{rounds, Turn, Outcome, ask, outcome, after_round}
use passkey.Rounds.Answer.{ask-round}

-- Some round of the fan-out sees that the deadline has passed.
abbrev Expires : Turn → Type 0
Expires turn = any (λ p. p.expired) turn.polls ≡ true

after_round-ne-none :
    (errors : List (List ℕ)) (wins : List (Link × List ℕ)) (failures : List (List ℕ))
    (next : Option Outcome)
    → next ≢ none
    → after_round errors wins failures next ≢ none
after_round-ne-none errors [] failures next h = ground arith
after_round-ne-none errors (win ∷ wins) failures next h = λ e. cc e

ask-ne-none :
    (number : ℕ) (probe : Bool) (turns : List Turn) (rs : List (List Link)) (errors : List (List ℕ))
    → All Expires turns
    → length rs ≤ length turns
    → ask number probe turns rs errors ≢ none
unfolding ask
ask-ne-none number probe turns [] errors a h = λ e. cc e
ask-ne-none number probe turns ([] ∷ rest) errors a h =
    ask-ne-none number probe turns rest errors a (omega arith)
ask-ne-none number probe [] ((link ∷ links) ∷ rest) errors a h = absurd (omega arith)
ask-ne-none number probe (turn ∷ turns) ((link ∷ links) ∷ rest) errors a h =
    elim (Option-cases (fan_out number turn.sends turn.polls probe (link ∷ links))) [
      | inl n ↦ absurd (fan_out-ne-none number turn.sends turn.polls probe (link ∷ links) a.0 n)
      | inr (f, e) ↦
          subst (λ o. o ≢ none) (sym (ask-round number probe turn turns link links rest errors f e))
            (after_round-ne-none errors f.wins f.errors
              (ask number probe turns rest (errors ++ f.errors))
              (ask-ne-none number probe turns rest (errors ++ f.errors) a.1 (omega arith)))
    ]

length-rounds :
    (chosen : Option Text) (command : ℕ) (probe : Bool) (holders : List Text) (last : Option Text)
    (links : List Link)
    → length (rounds chosen command probe holders last links) ≤ 2
unfolding rounds
length-rounds (some device) command probe holders last links = omega arith
length-rounds none command probe holders last links = ground arith

-- A request has an outcome after two fan-outs at most, if each sees its deadline pass, whatever
-- the phones send.
pub outcome-ne-none :
    (s : Daemon) (request : Request) (chosen : Option Text) (command : ℕ) (body : List ℕ)
    (turns : List Turn)
    → 2 ≤ length turns
    → All Expires turns
    → outcome s request chosen command body turns ≢ none
unfolding outcome
outcome-ne-none s request chosen command body turns h a =
    ask-ne-none request.number (silent (command ∷ body)) turns
      (rounds chosen command (silent (command ∷ body)) s.holders s.last (by_device s)) [] a
      (omega (
        arith,
        length-rounds chosen command (silent (command ∷ body)) s.holders s.last (by_device s),
      ))
