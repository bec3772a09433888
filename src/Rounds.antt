-- ===== src/Rounds.antt =====
-- src/daemon.rs, `handle_cbor`: which phones a request goes to, in which order, and which answer
-- the host gets.
pub mod Unique
pub mod Answer
pub mod Finish
use passkey.Base.{
  ℕ, zero, suc, Bool, true, false, not, ◌&&◌, List, [], ◌∷◌, ◌++◌, map, Option, none, some,
  if◌then◌else◌, ◌==◌, filter, find, any, take, same,
}
use passkey.Base.Text.{Text, split_whitespace, parse_u32}
use passkey.Link.{Link}
use passkey.Daemon.{Daemon, Request}
use passkey.Hid.{request_is_current, finish_request, is_empty}
use passkey.Report.{reply, cbor, ctap2_err_other}
use passkey.Links.{by_device}
use passkey.Cbor.{silent, get_assertion}
use passkey.Fan.{Poll, Fan, fan_out}

abbrev pub get_info : ℕ
get_info = 0x04

abbrev pub get_next_assertion : ℕ
get_next_assertion = 0x08

abbrev no_credentials : ℕ
no_credentials = 0x2e

abbrev pub to_list {ℓ} : {A : Type ℓ} → Option A → List A
to_list none = []
to_list (some a) = a ∷ []

-- `find` of `handle_cbor`.
abbrev pub find_device : List Link → Text → Option Link
find_device links device = find (λ link. same link.device device) links

abbrev pub find_last : List Link → Option Text → Option Link
find_last links none = none
find_last links (some device) = find_device links device

abbrev pub holds : List Text → Link → Bool
holds holders link = any (same link.device) holders

-- `chosen_device`: the content of the file `use`, if it can be read, and whether /proc has the
-- directory of a process.
abbrev pub if_running : (ℕ → Bool) → Text → Option ℕ → Option Text
if_running exists device none = none
if_running exists device (some pid) = if exists pid then some device else none

abbrev pub chosen_fields : (ℕ → Bool) → List Text → Option Text
chosen_fields exists (device ∷ pid ∷ rest) = if_running exists device (parse_u32 pid)
chosen_fields exists _ = none

unfoldable pub chosen_device : Option Text → (ℕ → Bool) → Option Text
unfolding split_whitespace parse_u32
chosen_device none exists = none
chosen_device (some content) exists = chosen_fields exists (split_whitespace content)

-- The rounds of targets. `command` is `data[0]`: `dispatch` starts no request without a byte.
unfoldable pub rounds :
    Option Text → ℕ → Bool → List Text → Option Text → List Link → List (List Link)
unfolding same
rounds (some chosen) command probe holders last links = to_list (find_device links chosen) ∷ []
rounds none command probe holders last links =
    if command == get_info
    then take 1 links ∷ []
    else if command == get_next_assertion
    then to_list (find_last links last) ∷ []
    else if command == get_assertion && not probe && any (holds holders) links
    then filter (holds holders) links ∷ filter (λ link. not (holds holders link)) links ∷ []
    else links ∷ []

-- What one call of `fan_out` meets.
pub record Turn : Type 0 where
  pub sends : ℕ → Bool
  pub polls : List Poll

-- How the loop over the rounds ends: with the approvals, or with all the errors.
pub data Outcome : Type 0 where
  approved : Link → List ℕ → List (Link × List ℕ) → Outcome
  refused : List (List ℕ) → Outcome

-- `error.first() != Some(&NO_CREDENTIALS)`.
abbrev pub is_other : List ℕ → Bool
is_other [] = true
is_other (status ∷ payload) = not (status == no_credentials)

abbrev pub should_stop : List (List ℕ) → Bool
should_stop failures = not (is_empty failures) && any is_other failures

-- What follows a `fan_out`: the end of the loop, or the next rounds.
abbrev pub after_round :
    List (List ℕ) → List (Link × List ℕ) → List (List ℕ) → Option Outcome → Option Outcome
after_round errors [] failures next =
    if should_stop failures then some (refused (errors ++ failures)) else next
after_round errors (win ∷ wins) failures next = some (approved win.0 win.1 (win ∷ wins))

-- The loop over the rounds; a round without targets is skipped. `none` means that a `fan_out` or
-- the list of turns ended before its time.
unfoldable pub ask : ℕ → Bool → List Turn → List (List Link) → List (List ℕ) → Option Outcome
unfolding fan_out
ask number probe turns [] errors = some (refused errors)
ask number probe turns ([] ∷ rest) errors = ask number probe turns rest errors
ask number probe [] ((link ∷ links) ∷ rest) errors = none
ask number probe (turn ∷ turns) ((link ∷ links) ∷ rest) errors =
    elim (fan_out number turn.sends turn.polls probe (link ∷ links)) [
      | none ↦ none
      | some f ↦
          after_round errors f.wins f.errors (ask number probe turns rest (errors ++ f.errors))
    ]

-- `final_error`.
abbrev or_first : Option (List ℕ) → List (List ℕ) → List ℕ
or_first (some error) errors = error
or_first none (error ∷ errors) = error
or_first none [] = ctap2_err_other ∷ []

unfoldable pub final_error : List (List ℕ) → List ℕ
final_error errors = or_first (find is_other errors) errors

abbrev pub answer_of : Outcome → List ℕ
answer_of (approved winner payload wins) = payload
answer_of (refused errors) = final_error errors

-- What is remembered of the phones that approved an assertion.
abbrev pub remember : ℕ → Bool → Outcome → Daemon → Daemon
remember command probe (refused errors) s = s
remember command probe (approved winner payload wins) s =
    if command == get_assertion
    then record s {
      last = some winner.device;
      holders = if probe then map (λ win. win.0.device) wins else s.holders;
    }
    else s

-- The answer to the host, if `request_is_current` has said so. Other threads may have their turn
-- between this test, the answer and `finish_request`.
unfoldable pub respond : Daemon → Request → Bool → Outcome → Daemon
unfolding reply final_error
respond s request current outcome =
    if current then reply s request.channel cbor (answer_of outcome) else s

-- `handle_cbor` up to its end, in the state that it starts in.
unfoldable pub outcome : Daemon → Request → Option Text → ℕ → List ℕ → List Turn → Option Outcome
unfolding by_device silent rounds ask
outcome s request chosen command body turns =
    let probe = silent (command ∷ body) in
    ask request.number probe turns (rounds chosen command probe s.holders s.last (by_device s)) []
