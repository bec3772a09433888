-- ===== src/Registry/Stored.antt =====
-- What `root_store` does to the handles of the users.
use passkey.Base.{
  All-filter, filter-append, ℕ, ◌≡◌, ◌≢◌, refl, sym, ap, ◌∙◌, false, not, List, [], ◌∷◌, ◌++◌,
  Option, none, some, if◌then◌else◌, same, same→eq, any, filter, append-nil, map, All, arith,
  Bool-cases, inl, inr, ==_ne,
}
use mathlib.Core.List.{map-append}
use mathlib.Core.Option.{some-injective}
use passkey.Base.Text.{Text, lines, split, trim_start_matches}
use passkey.Base.Split.{Without, unlines, lines-unlines, split-nil, Without-append}
use passkey.Hid.{is_empty}
use passkey.Registry.{
  Store, read_optional, lines_file, owned, add_credential, handle_of, name_entry, is_break,
  store_lines, root_store, or_default, handles_of, body_of, handles_for,
}
use passkey.Base.Lines.{IsLine, lines-IsLine}
use passkey.Registry.Lines.{written, lines-lines_file}
use passkey.Registry.Bodies.{
  body-written, longer, body-add_credential, body_other-add_credential, split-cons,
}

-- The name of a user, a credential behind its colon, and the name of a device.
pub record IsUser (user : Text) : Type 0 where
  pub line : IsLine user
  pub no_colon : Without 58 user
  pub no_tab : Without 9 user

pub record IsCredential (c : Text) : Type 0 where
  pub line : IsLine c
  pub no_colon : Without 58 c
  pub no_tab : Without 9 c
  pub handle : is_empty (handle_of c) ≡ false

pub record IsName (name : Text) : Type 0 where
  pub line : IsLine name
  pub no_tab : Without 9 name
  pub full : is_empty name ≡ false

-- What the command is given for a credential and a name.
abbrev pub registration : Text → Text → Text
registration c name = unlines ((58 ∷ c) ∷ name ∷ [])

not_break :
    (name : Text) → Without 9 name → Without 10 name → Without 13 name → any is_break name ≡ false
not_break [] h k l = refl
not_break (c ∷ t) h k l =
    rw (==_ne c 9 h.0, ==_ne c 10 k.0, ==_ne c 13 l.0) (not_break t h.1 k.1 l.1)

trim_start-colon : (c : Text) → Without 58 c → trim_start_matches 58 (58 ∷ c) ≡ c
unfolding trim_start_matches
trim_start-colon [] h = refl
trim_start-colon (d ∷ c) h = rw (==_ne d 58 h.0)

-- The two files after a registration.
abbrev pub stored : Text → Text → Text → Store → Store
stored user c name s = record {
  keys = some (lines_file (add_credential user (58 ∷ c) (written (lines (read_optional s.keys)))));
  names = some (lines_file (lines (read_optional s.names)) ++ name_entry user (handle_of c) name);
}

pub root_store-stored :
    (user c name : Text) (s : Store)
    → IsCredential c
    → IsName name
    → root_store user (registration c name) s ≡ some (stored user c name s)
unfolding root_store
root_store-stored user c name s k n =
    ap (λ ls. store_lines user ls s)
      (lines-unlines ((58 ∷ c) ∷ name ∷ []) (((λ e. absurd (ne e)), k.line.0), (n.line.0, tt))
        (((λ e. absurd (ne' e)), k.line.1), (n.line.1, tt)))
    ∙ rw (not_break name n.no_tab n.line.0 n.line.1, trim_start-colon c k.no_colon)
  where
    ne : ◌≢◌ {A = ℕ} 58 10
    ne e = omega arith

    ne' : ◌≢◌ {A = ℕ} 58 13
    ne' e = omega arith

IsLine-credential : (t c : Text) → IsLine t → IsLine c → IsLine (t ++ 58 ∷ c)
IsLine-credential t c l k = (
  Without-append 10 t (58 ∷ c) l.0 ((λ e. absurd (omega arith)), k.0),
  Without-append 13 t (58 ∷ c) l.1 ((λ e. absurd (omega arith)), k.1),
)

pub add_credential-IsLine :
    (user c : Text) (ls : List Text)
    → IsLine user
    → IsLine c
    → All IsLine ls
    → All IsLine (add_credential user (58 ∷ c) ls)
unfolding add_credential
add_credential-IsLine user c [] u k h = (IsLine-credential user c u k, tt)
add_credential-IsLine user c (t ∷ ls) u k h = elim (Bool-cases (owned user t)) [
  | inl e ↦ rw e (IsLine-credential t c h.0 k, h.1)
  | inr e ↦ rw e (h.0, add_credential-IsLine user c ls u k h.1)
]

handles_of-single :
    (c : Text) → Without 58 c → is_empty (handle_of c) ≡ false → handles_of c ≡ handle_of c ∷ []
handles_of-single c h k = rw (split-nil 58 c h, k)

pub handles_of-nil : handles_of [] ≡ []
unfolding split
handles_of-nil = refl

handles_of-longer :
    (c : Text) (o : Option Text)
    → IsCredential c
    → handles_of (longer c o) ≡ handles_of (or_default o) ++ handle_of c ∷ []
handles_of-longer c none k =
    handles_of-single c k.no_colon k.handle ∙ ap (λ ts. ts ++ handle_of c ∷ []) (sym handles_of-nil)
handles_of-longer c (some b) k =
    ap (λ ts. filter (λ t. not (is_empty t)) (map handle_of ts)) (split-cons 58 b c)
    ∙ ap (filter (λ t. not (is_empty t))) (map-append handle_of (split 58 b) (split 58 c))
    ∙ filter-append (λ t. not (is_empty t)) (map handle_of (split 58 b))
        (map handle_of (split 58 c))
    ∙ ap (λ ts. handles_of b ++ ts) (handles_of-single c k.no_colon k.handle)

-- The lines of keys that are read after a registration.
lines-stored :
    (user c name : Text) (s : Store)
    → IsUser user
    → IsCredential c
    → Without 13 (read_optional s.keys)
    → lines (read_optional (stored user c name s).keys)
      ≡ written (add_credential user (58 ∷ c) (written (lines (read_optional s.keys))))
lines-stored user c name s u k h =
    lines-lines_file (add_credential user (58 ∷ c) (written (lines (read_optional s.keys)))) (
      add_credential-IsLine user c (written (lines (read_optional s.keys))) u.line k.line (
        All-filter IsLine (λ line. not (is_empty line)) (lines (read_optional s.keys))
          (lines-IsLine (read_optional s.keys) h)))

-- A registration adds its handle behind those of its user, and leaves those of the others.
pub handles_for-root_store :
    (user other c name : Text) (s s' : Store)
    → IsUser user
    → IsUser other
    → IsCredential c
    → IsName name
    → Without 13 (read_optional s.keys)
    → root_store user (registration c name) s ≡ some s'
    → handles_for other s'
      ≡ handles_for other s ++ (if same user other then handle_of c ∷ [] else [])
unfolding handles_for
handles_for-root_store user other c name s s' u v k n h e =
    let ls : List Text = lines (read_optional s.keys) in
    let after : List Text = add_credential user (58 ∷ c) (written ls) in
    let read : body_of other (lines (read_optional s'.keys)) ≡ body_of other after =
      ap (λ t. body_of other (lines (read_optional t.keys))) (sym (stored_is e))
      ∙ ap (body_of other) (lines-stored user c name s u k h)
      ∙ body-written other after in
    ap (λ o. handles_of (or_default o)) read ∙ elim (Bool-cases (same user other)) [
      | inl q ↦
          rw (q, sym (same→eq user other q))
            (ap (λ o. handles_of (or_default o)) (body-add_credential user c (written ls))
              ∙ handles_of-longer c (body_of user (written ls)) k
              ∙ ap (λ o. handles_of (or_default o) ++ handle_of c ∷ []) (body-written user ls))
      | inr q ↦ rw q (
          ap (λ o. handles_of (or_default o))
            (body_other-add_credential user other c (written ls) q u.no_colon v.no_colon
              ∙ body-written other ls)
          ∙ sym (append-nil (handles_of (or_default (body_of other ls)))))
    ]
  where
    stored_is : root_store user (registration c name) s ≡ some s' → stored user c name s ≡ s'
    stored_is e =
        some-injective (stored user c name s) s' (sym (root_store-stored user c name s k n) ∙ e)
