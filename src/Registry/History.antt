-- ===== src/Registry/History.antt =====
-- A history of registrations and removals, and the handles that it leaves each user.
use passkey.Base.{
  ◌≡◌, refl, sym, ap, ◌∙◌, Bool, true, false, List, [], ◌∷◌, ◌++◌, Option, none, some, subst,
  if◌then◌else◌, same, All, Option-cases, inl, inr,
}
use passkey.Base.Text.{Text, lines, split}
use passkey.Registry.{Store, root_store, root_remove, handle_of, handles_for}
use passkey.Registry.Stored.{
  IsUser, IsCredential, IsName, registration, stored, root_store-stored, handles_for-root_store,
  handles_of-nil,
}
use passkey.Registry.Removed.{gone}
use passkey.Registry.Files.{
  IsRegistry, stored-IsRegistry, removed, root_remove-removed, removed-IsRegistry,
  handles_for-root_remove,
}

-- The commands that root runs for `passkey add` and `passkey remove`.
pub data Command : Type 0 where
  register : Text → Text → Text → Command
  unregister : Text → Text → Command

abbrev IsCommand : Command → Type 0
IsCommand (register user c name) = IsUser user × IsCredential c × IsName name
IsCommand (unregister user handle) = IsUser user

-- A command that fails leaves the files as they were.
abbrev or_keep : Store → Option Store → Store
or_keep s none = s
or_keep s (some s') = s'

unfoldable apply : Command → Store → Store
unfolding root_store root_remove
apply (register user c name) s = or_keep s (root_store user (registration c name) s)
apply (unregister user handle) s = or_keep s (root_remove user handle s)

unfoldable pub run : List Command → Store → Store
unfolding apply
run [] s = s
run (c ∷ cs) s = run cs (apply c s)

-- The abstract registry: the handles of one user, as the commands ask for.
abbrev expected : Text → Command → List Text → List Text
expected other (register user c name) handles =
    handles ++ (if same user other then handle_of c ∷ [] else [])
expected other (unregister user handle) handles =
    if same user other then gone handle handles else handles

abbrev pub expected_all : Text → List Command → List Text → List Text
expected_all other [] handles = handles
expected_all other (c ∷ cs) handles = expected_all other cs (expected other c handles)

no_keys : (user : Text) (s : Store) → s.keys ≡ none → handles_for user s ≡ []
unfolding handles_for lines split
no_keys user s e = ap (λ k. handles_for user (record s { keys = k })) e ∙ handles_of-nil

apply-IsRegistry : (c : Command) (s : Store) → IsCommand c → IsRegistry s → IsRegistry (apply c s)
unfolding apply
apply-IsRegistry (register user c name) s (u, k, n) h =
    subst IsRegistry (sym (ap (or_keep s) (root_store-stored user c name s k n)))
      (stored-IsRegistry user c name s u k h)
apply-IsRegistry (unregister user handle) s u h = elim (Option-cases s.keys) [
  | inl e ↦ subst IsRegistry (sym (ap (or_keep s) (nothing e))) h
  | inr (keys, e) ↦
      subst IsRegistry (sym (ap (or_keep s) (root_remove-removed user handle keys s e)))
        (removed-IsRegistry user handle keys s u e h)
]
  where
    nothing : s.keys ≡ none → root_remove user handle s ≡ none
    nothing e = rw e

handles_for-apply :
    (other : Text) (c : Command) (s : Store)
    → IsUser other
    → IsCommand c
    → IsRegistry s
    → handles_for other (apply c s) ≡ expected other c (handles_for other s)
unfolding apply
handles_for-apply other (register user c name) s v (u, k, n) h =
    ap (λ o. handles_for other (or_keep s o)) (root_store-stored user c name s k n)
    ∙ handles_for-root_store user other c name s (stored user c name s) u v k n h.no_return
        (root_store-stored user c name s k n)
handles_for-apply other (unregister user handle) s v u h = elim (Option-cases s.keys) [
  | inl e ↦
      ap (λ o. handles_for other (or_keep s o)) (nothing e)
      ∙ no_keys other s e
      ∙ same_nil (same user other)
      ∙ ap (λ hs. if same user other then gone handle hs else hs) (sym (no_keys other s e))
  | inr (keys, e) ↦
      let r : root_remove user handle s ≡ some (removed user handle keys s) =
        root_remove-removed user handle keys s e in
      ap (λ o. handles_for other (or_keep s o)) r
      ∙ handles_for-root_remove user other handle s (removed user handle keys s) u v h r
]
  where
    nothing : s.keys ≡ none → root_remove user handle s ≡ none
    nothing e = rw e

    same_nil : (b : Bool) → [] ≡ (if b then gone handle [] else [])
    same_nil true = refl
    same_nil false = refl

run-handles :
    (other : Text) (cs : List Command) (s : Store)
    → IsUser other
    → All IsCommand cs
    → IsRegistry s
    → handles_for other (run cs s) ≡ expected_all other cs (handles_for other s)
unfolding run
run-handles other [] s v k h = refl
run-handles other (c ∷ cs) s v k h =
    run-handles other cs (apply c s) v k.1 (apply-IsRegistry c s k.0 h)
    ∙ ap (expected_all other cs) (handles_for-apply other c s v k.0 h)

abbrev pub no_files : Store
no_files = record { keys = none; names = none }

no_files-IsRegistry : IsRegistry no_files
unfolding lines split
no_files-IsRegistry = record { no_return = tt; once = λ user h. tt }

-- After any registrations and removals of well-formed users, keys and names, from no files at all,
-- the handles that are read for each user are those that were registered for this user and not
-- removed since, in order.
pub handles_for-run :
    (other : Text) (cs : List Command)
    → IsUser other
    → All IsCommand cs
    → handles_for other (run cs no_files) ≡ expected_all other cs []
handles_for-run other cs v k =
    run-handles other cs no_files v k no_files-IsRegistry
    ∙ ap (expected_all other cs) (no_keys other no_files refl)
