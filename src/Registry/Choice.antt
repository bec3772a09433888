-- ===== src/Registry/Choice.antt =====
-- The key that `passkey remove` chooses.
use passkey.Base.{
  ℕ, zero, suc, ◌+◌, ◌≡◌, refl, sym, ap, ◌∙◌, true, false, List, [], ◌∷◌, Option, some, Bool-cases,
  Option-cases, inl, inr, arith,
}
use mathlib.Core.Option.{some-injective}
use passkey.Base.Text.{Text, lines}
use passkey.Registry.{
  Store, read_optional, handles_for, names_for, names_from, matches, position, get_elem?, remove,
}

-- The position that is found holds a name that matches, and no earlier one does.
abbrev FirstMatch : Text → ℕ → List Text → ℕ → Type 0
FirstMatch which index [] i = ⊥
FirstMatch which index (name ∷ names) zero = matches which index name ≡ true
FirstMatch which index (name ∷ names) (suc i) =
    (matches which index name ≡ false) × FirstMatch which (suc index) names i

found :
    (which : Text) (index : ℕ) (names : List Text) (k : ℕ)
    → position which index names ≡ some k
    → (i : ℕ) × (k ≡ index + i) × FirstMatch which index names i
found which index [] k e = cc e
found which index (name ∷ names) k e = elim (Bool-cases (matches which index name)) [
  | inl h ↦ (0, (let q : index ≡ k = some-injective index k (rw h at e) in omega arith), h)
  | inr h ↦
      let (i, q, m) = found which (suc index) names k (rw h at e) in (suc i, omega arith, (h, m))
]

-- A handle stands wherever a name does.
handle_at :
    (user which : Text) (ls : List Text) (index : ℕ) (handles : List Text) (from i : ℕ)
    → FirstMatch which from (names_from user ls index handles) i
    → (handle : Text) × (get_elem? handles i ≡ some handle)
handle_at user which ls index [] from i m = absurd m
handle_at user which ls index (h ∷ hs) from zero m = (h, refl)
handle_at user which ls index (h ∷ hs) from (suc i) m =
    handle_at user which ls (suc index) hs (suc from) i m.1

-- What `passkey remove` removes is the handle of the first device whose number or name is the
-- argument: the indexing of the handles by the place of a name does not panic.
remove-FirstMatch :
    (user which : Text) (s : Store) (r : Option Text)
    → remove user which s ≡ some r
    → (i : ℕ) × (handle : Text) × (r ≡ some handle)
      × (get_elem? (handles_for user s) i ≡ some handle)
      × FirstMatch which 0 (names_for user s) i
unfolding remove names_for
remove-FirstMatch user which s r e = elim (Option-cases (position which 0 (names_for user s))) [
  | inl n ↦ cc (rw n at e)
  | inr (k, n) ↦
      let (i, q, m) = found which 0 (names_for user s) k n in
      let (handle, g) =
        handle_at user which (lines (read_optional s.names)) 0 (handles_for user s) 0 i m in
      let p : k ≡ i = omega arith in
      (
        i,
        handle,
        sym (some-injective (get_elem? (handles_for user s) k) r (rw n at e))
            ∙ ap (get_elem? (handles_for user s)) p
            ∙ g,
        g,
        m,
      )
]
