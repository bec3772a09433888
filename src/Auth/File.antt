-- ===== src/Auth/File.antt =====
-- A whole file of keys, and the reader of src/pam_auth.rs.
use passkey.Base.{
  ℕ, ◌≡◌, ◌≢◌, refl, sym, ap, ◌∙◌, Bool, true, false, List, [], ◌∷◌, ◌++◌, map, none, some,
  if◌then◌else◌, ◌==◌, ==_iff, ==_ne, same, same_self, same→eq, All, Bool-cases, inl, inr,
}
use passkey.Base.Text.{Text, codes, split, strip_prefix, join}
use passkey.Auth.{sextet, Credential, entries, line_of, line_keys, credentials, credential_of}
use passkey.Auth.Keys.{
  Printed, print_entry, print_line, IsCredential, entry-Without, entries-print, fields-Without,
  flags, fields,
}
use passkey.Base.Split.{
  Without, split-join, Without-append, Without-join, strip-append, Without-check, unlines,
  lines-unlines,
}

-- A user's line is not read as another's.
line_of_self : (user rest : Text) → line_of user (user ++ 58 ∷ rest) ≡ some rest
unfolding line_of strip_prefix
line_of_self user rest = rw (strip-append user (58 ∷ rest), line_of) refl

line_of-other :
    (user other rest : Text)
    → Without 58 user
    → Without 58 other
    → user ≢ other
    → line_of user (other ++ 58 ∷ rest) ≡ none
unfolding line_of strip_prefix
line_of-other [] [] rest h k n = absurd (n refl)
line_of-other [] (d ∷ other) rest h k n = rw (==_ne 58 d (λ e. k.0 (sym e)), line_of, strip_prefix)
line_of-other (c ∷ user) [] rest h k n = rw (==_ne c 58 h.0, line_of, strip_prefix)
line_of-other (c ∷ user) (d ∷ other) rest h k n = elim (Bool-cases (c == d)) [
  | inl e ↦
      rw (e, line_of, strip_prefix)
        (line_of-other user other rest h.1 k.1
          (λ q. n (ap (λ t. c ∷ t) q ∙ ap (λ x. x ∷ other) ((==_iff c d).0 e))))
  | inr e ↦ rw (e, line_of, strip_prefix)
]

-- One line of the file: a user and the user's keys.
pub record Line : Type 0 where
  pub user : Text
  pub keys : List Printed

abbrev pub print_file : List Line → Text
print_file ls = unlines (map (λ l. print_line l.user l.keys) ls)

abbrev pub IsUser : Text → Type 0
IsUser user = Without 58 user × Without 10 user × Without 13 user

abbrev pub IsLine : Line → Type 0
IsLine l = IsUser l.user × All IsCredential l.keys

-- The keys in the lines of a user.
abbrev pub keys_of : Text → List Line → List Credential
keys_of user [] = []
keys_of user (l ∷ ls) =
    if same user l.user then map (λ p. p.value) l.keys ++ keys_of user ls else keys_of user ls

entries-Without : (ps : List Printed) → All IsCredential ps → All (Without 58) (map print_entry ps)
entries-Without [] h = tt
entries-Without (p ∷ ps) h = (entry-Without p h.0, entries-Without ps h.1)

entries_nil : entries (split 58 []) ≡ []
unfolding entries split credential_of
entries_nil = refl

entries-join :
    (ps : List Printed)
    → All IsCredential ps
    → entries (split 58 (join (codes ":") (map print_entry ps))) ≡ map (λ p. p.value) ps
unfolding join
entries-join [] h = entries_nil
entries-join (p ∷ ps) h =
    ap entries (split-join 58 (print_entry p) (map print_entry ps) (entries-Without (p ∷ ps) h))
    ∙ entries-print (p ∷ ps) h

line_keys_self :
    (user : Text) (ps : List Printed) (ls : List Text)
    → All IsCredential ps
    → line_keys user (print_line user ps ∷ ls) ≡ map (λ p. p.value) ps ++ line_keys user ls
unfolding line_keys print_line
line_keys_self user ps ls h =
    rw (line_of_self user (join (codes ":") (map print_entry ps)), line_keys)
      (ap (λ es. es ++ line_keys user ls) (entries-join ps h))

line_keys-other :
    (user other : Text) (ps : List Printed) (ls : List Text)
    → Without 58 user
    → Without 58 other
    → user ≢ other
    → line_keys user (print_line other ps ∷ ls) ≡ line_keys user ls
unfolding line_keys print_line
line_keys-other user other ps ls h k n =
    rw (line_of-other user other (join (codes ":") (map print_entry ps)) h k n, line_keys)

line_keys-print :
    (user : Text) (ls : List Line)
    → Without 58 user
    → All IsLine ls
    → line_keys user (map (λ l. print_line l.user l.keys) ls) ≡ keys_of user ls
unfolding line_keys
line_keys-print user [] h k = refl
line_keys-print user (l ∷ ls) h k = elim (Bool-cases (same user l.user)) [
  | inl e ↦
      rw (e, same→eq user l.user e)
        (line_keys_self l.user l.keys (map (λ m. print_line m.user m.keys) ls) k.0.1
          ∙ ap (λ ks. map (λ p. p.value) l.keys ++ ks)
              (ap (λ u. line_keys u (map (λ m. print_line m.user m.keys) ls))
                  (sym (same→eq user l.user e))
                ∙ line_keys-print user ls h k.1))
  | inr e ↦ rw e (
      line_keys-other user l.user l.keys (map (λ m. print_line m.user m.keys) ls) h k.0.0.0
        (λ q. cc (e, same_self user, ap (same user) q))
      ∙ line_keys-print user ls h k.1)
]

-- A character that no part of an entry has.
abbrev Clean : ℕ → Type 0
Clean sep =
    (sextet sep ≡ none)
    × (61 ≢ sep)
    × (58 ≢ sep)
    × (44 ≢ sep)
    × Without sep (codes "es256")
    × ((b : Bool) → Without sep (flags b))

Clean-10 : Clean 10
unfolding sextet
Clean-10 = (
  refl,
  (λ e. cc e),
  (λ e. cc e),
  (λ e. cc e),
  Without-check 10 (codes "es256") refl,
  λ b. elim b as (λ x. Without 10 (flags x)) [
    | true ↦ Without-check 10 (flags true) refl
    | false ↦ Without-check 10 (flags false) refl
  ],
)

Clean-13 : Clean 13
unfolding sextet
Clean-13 = (
  refl,
  (λ e. cc e),
  (λ e. cc e),
  (λ e. cc e),
  Without-check 13 (codes "es256") refl,
  λ b. elim b as (λ x. Without 13 (flags x)) [
    | true ↦ Without-check 13 (flags true) refl
    | false ↦ Without-check 13 (flags false) refl
  ],
)

entry-Clean : (sep : ℕ) (p : Printed) → Clean sep → IsCredential p → Without sep (print_entry p)
unfolding print_entry
entry-Clean sep p c h =
    Without-join sep 44 (fields p) c.3
      (fields-Without sep p c.0 c.1 c.4 (c.5 p.value.verification) h)

entries-Clean :
    (sep : ℕ) (ps : List Printed)
    → Clean sep
    → All IsCredential ps
    → All (Without sep) (map print_entry ps)
entries-Clean sep [] c h = tt
entries-Clean sep (p ∷ ps) c h = (entry-Clean sep p c h.0, entries-Clean sep ps c h.1)

lines-Clean :
    (sep : ℕ) (ls : List Line)
    → Clean sep
    → All (λ l. Without sep l.user) ls
    → All IsLine ls
    → All (Without sep) (map (λ l. print_line l.user l.keys) ls)
unfolding print_line
lines-Clean sep [] c u h = tt
lines-Clean sep (l ∷ ls) c u h = (
  Without-append sep l.user (58 ∷ join (codes ":") (map print_entry l.keys)) u.0
      (c.2, Without-join sep 58 (map print_entry l.keys) c.2 (entries-Clean sep l.keys c h.0.1)),
  lines-Clean sep ls c u.1 h.1,
)

users :
    (ls : List Line)
    → All IsLine ls
    → All (λ l. Without 10 l.user) ls × All (λ l. Without 13 l.user) ls
users [] h = (tt, tt)
users (l ∷ ls) h =
    let rest : All (λ m. Without 10 m.user) ls × All (λ m. Without 13 m.user) ls = users ls h.1 in
    ((h.0.0.1, rest.0), (h.0.0.2, rest.1))

-- From a file of lines as pam_u2f writes them, each key padded or not, exactly the keys in the
-- lines of the user are read, in their order, whatever other users stand in the file.
pub credentials-print_file :
    (user : Text) (ls : List Line)
    → Without 58 user
    → All IsLine ls
    → credentials (print_file ls) user ≡ keys_of user ls
unfolding credentials
credentials-print_file user ls h k =
    ap (line_keys user) (
      lines-unlines (map (λ l. print_line l.user l.keys) ls)
        (lines-Clean 10 ls Clean-10 (users ls k).0 k) (lines-Clean 13 ls Clean-13 (users ls k).1 k))
    ∙ line_keys-print user ls h k
