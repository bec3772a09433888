-- ===== src/Registry/Names.antt =====
-- The names of a user's devices after a registration.
use passkey.Base.{
  All-filter, All-append, find_map-append, ℕ, suc, ◌≡◌, refl, sym, ap, ◌∙◌, Bool, true, false, not,
  ◌&&◌, List, [], ◌∷◌, ◌++◌, Option, none, some, if◌then◌else◌, same, same_self, same_sym, All,
  append_assoc, or_else, arith,
}
use mathlib.Core.Option.{some-injective}
use passkey.Base.Text.{Text, lines, split, splitn, split_once, cut_fields, first}
use passkey.Base.Split.{split_once-append, Without, Without-append, unlines}
use passkey.Hid.{is_empty}
use passkey.Registry.{
  Store, read_optional, lines_file, root_store, handle_of, handles_for, name_entry, name_on,
  name_of, name_or, names_from, names_for,
}
use passkey.Base.Lines.{IsLine, lines-unlines_lem, lines-IsLine, split-Without}
use passkey.Registry.Lines.{written, lines_file-unlines}
use passkey.Registry.Stored.{
  IsUser, IsCredential, IsName, registration, stored, root_store-stored, handles_for-root_store,
}

-- The fields of a line of names.
splitn-entry :
    (user handle name : Text)
    → Without 9 user
    → Without 9 handle
    → splitn 3 9 (user ++ 9 ∷ (handle ++ 9 ∷ name)) ≡ user ∷ handle ∷ name ∷ []
unfolding splitn
splitn-entry user handle name h k =
    ap (cut_fields (splitn 2 9) (user ++ 9 ∷ (handle ++ 9 ∷ name)))
      (split_once-append 9 user (handle ++ 9 ∷ name) h)
    ∙ ap (λ r. user ∷ cut_fields (splitn 1 9) (handle ++ 9 ∷ name) r)
        (split_once-append 9 handle name k)

-- The handle of a credential.
Without-first : (c : ℕ) (ts : List Text) → All (Without c) ts → Without c (first ts)
Without-first c [] h = tt
Without-first c (t ∷ ts) h = h.0

handle-IsLine : (c : Text) → IsCredential c → IsLine (handle_of c)
handle-IsLine c k = (
  Without-first 10 (split 44 c) (split-Without 44 10 c k.line.0),
  Without-first 13 (split 44 c) (split-Without 44 13 c k.line.1),
)

handle_no_tab : (c : Text) → IsCredential c → Without 9 (handle_of c)
handle_no_tab c k = Without-first 9 (split 44 c) (split-Without 44 9 c k.no_tab)

-- Blank lines name nothing.
name_of-written :
    (user handle : Text) (ls : List Text)
    → name_of user handle (written ls) ≡ name_of user handle ls
unfolding splitn split_once
name_of-written user handle [] = refl
name_of-written user handle ([] ∷ ls) = name_of-written user handle ls
name_of-written user handle ((c ∷ l) ∷ ls) =
    ap (or_else (name_on user handle (splitn 3 9 (c ∷ l)))) (name_of-written user handle ls)

-- The lines of names with one more.
module _ (user handle name : Text) (ls : List Text) where
  abbrev entry : Text
  entry = user ++ 9 ∷ (handle ++ 9 ∷ name)

  entry_line : (ts : List Text) → unlines ts ++ (entry ++ 10 ∷ []) ≡ unlines (ts ++ entry ∷ [])
  entry_line [] = refl
  entry_line (t ∷ ts) =
      append_assoc t (10 ∷ unlines ts) (entry ++ 10 ∷ []) ∙ ap (λ r. t ++ 10 ∷ r) (entry_line ts)

  entry_end : name_entry user handle name ≡ entry ++ 10 ∷ []
  entry_end =
      ap (λ r. user ++ 9 ∷ r) (sym (append_assoc handle (9 ∷ name) (10 ∷ [])))
      ∙ sym (append_assoc user (9 ∷ (handle ++ 9 ∷ name)) (10 ∷ []))

  module _ (u : IsUser user) (h : IsLine handle) (g : Without 9 handle) (n : IsName name) where
    entry-IsLine : IsLine entry
    entry-IsLine = (
      Without-append 10 user (9 ∷ (handle ++ 9 ∷ name)) u.line.0 (
        (λ e. absurd (omega arith)),
        Without-append 10 handle (9 ∷ name) h.0 ((λ e. absurd (omega arith)), n.line.0),
      ),
      Without-append 13 user (9 ∷ (handle ++ 9 ∷ name)) u.line.1 (
        (λ e. absurd (omega arith)),
        Without-append 13 handle (9 ∷ name) h.1 ((λ e. absurd (omega arith)), n.line.1),
      ),
    )

    written-entry : written (entry ∷ []) ≡ entry ∷ []
    written-entry = behind user
      where
        behind :
            (t : Text)
            → written ((t ++ 9 ∷ (handle ++ 9 ∷ name)) ∷ []) ≡ (t ++ 9 ∷ (handle ++ 9 ∷ name)) ∷ []
        behind [] = refl
        behind (c ∷ t) = refl

    lines-names :
        All IsLine ls
        → lines (lines_file ls ++ name_entry user handle name) ≡ written ls ++ entry ∷ []
    lines-names k =
        ap (λ t. lines (t ++ name_entry user handle name)) (lines_file-unlines ls)
        ∙ ap (λ t. lines (unlines (written ls) ++ t)) entry_end
        ∙ ap lines (entry_line (written ls))
        ∙ lines-unlines_lem (written ls ++ entry ∷ []) (
            All-append IsLine (written ls) (entry ∷ [])
              (All-filter IsLine (λ line. not (is_empty line)) ls k) (entry-IsLine, tt))

    -- The new handle has the new name, and the other handles keep theirs.
    name_of-new :
        name_of user handle ls ≡ none → name_of user handle (written ls ++ entry ∷ []) ≡ some name
    unfolding splitn
    name_of-new e =
        find_map-append (λ line. name_on user handle (splitn 3 9 line)) (written ls) (entry ∷ [])
        ∙ ap (λ o. or_else o (name_of user handle (entry ∷ [])))
            (name_of-written user handle ls ∙ e)
        ∙ ap (λ ts. or_else (name_on user handle ts) none)
            (splitn-entry user handle name u.no_tab g)
        ∙ rw (same_self user, same_self handle)

    name_of-old :
        (old : Text)
        → same old handle ≡ false
        → name_of user old (written ls ++ entry ∷ []) ≡ name_of user old ls
    unfolding splitn
    name_of-old old e =
        find_map-append (λ line. name_on user old (splitn 3 9 line)) (written ls) (entry ∷ [])
        ∙ ap (λ ts. or_else (name_of user old (written ls)) (or_else (name_on user old ts) none))
            (splitn-entry user handle name u.no_tab g)
        ∙ ap
            (λ b.
              or_else (name_of user old (written ls))
                (or_else (if same user user && b then some name else none) none))
            (same_sym handle old ∙ e)
        ∙ unnamed (same user user) (name_of user old (written ls))
        ∙ name_of-written user old ls
      where
        unnamed :
            (b : Bool) (o : Option Text)
            → or_else o (or_else (if b && false then some name else none) none) ≡ o
        unnamed true none = refl
        unnamed true (some t) = refl
        unnamed false none = refl
        unnamed false (some t) = refl

    names_from-append :
        (handles : List Text) (index : ℕ)
        → All (λ t. same t handle ≡ false) handles
        → name_of user handle ls ≡ none
        → names_from user (written ls ++ entry ∷ []) index (handles ++ handle ∷ [])
          ≡ names_from user ls index handles ++ name ∷ []
    names_from-append [] index k e =
        ap (λ o. name_or index o ∷ []) (name_of-new e) ∙ ap (λ t. t ∷ []) (rw (n.full))
    names_from-append (t ∷ ts) index k e =
        ap
          (λ o.
            name_or index o
            ∷ names_from user (written ls ++ entry ∷ []) (suc index) (ts ++ handle ∷ []))
          (name_of-old t k.0)
        ∙ ap (λ rs. name_or index (name_of user t ls) ∷ rs) (names_from-append ts (suc index) k.1 e)

-- A registration of a well-formed user, key and name, with a handle that the user does not have and
-- that no line of the names has for the user, adds its name behind those of the user's other
-- devices, which keep theirs. The files have no carriage return.
pub names_for-root_store :
    (user c name : Text) (s s' : Store)
    → IsUser user
    → IsCredential c
    → IsName name
    → Without 13 (read_optional s.keys)
    → Without 13 (read_optional s.names)
    → All (λ t. same t (handle_of c) ≡ false) (handles_for user s)
    → name_of user (handle_of c) (lines (read_optional s.names)) ≡ none
    → root_store user (registration c name) s ≡ some s'
    → names_for user s' ≡ names_for user s ++ name ∷ []
unfolding names_for
names_for-root_store user c name s s' u k n h g fresh unnamed e =
    let ls : List Text = lines (read_optional s.names) in
    let is : stored user c name s ≡ s' =
      some-injective (stored user c name s) s' (sym (root_store-stored user c name s k n) ∙ e) in
    let handle : Text = handle_of c in
    let handles : handles_for user s' ≡ handles_for user s ++ handle ∷ [] =
      handles_for-root_store user user c name s s' u u k n h e
      ∙ ap (λ b. handles_for user s ++ (if b then handle ∷ [] else [])) (same_self user) in
    ap (λ t. names_from user (lines (read_optional t.names)) 0 (handles_for user s')) (sym is)
    ∙ ap (λ ts. names_from user ts 0 (handles_for user s'))
        (lines-names user handle name ls u (handle-IsLine c k) (handle_no_tab c k) n
          (lines-IsLine (read_optional s.names) g))
    ∙ ap (names_from user (written ls ++ (user ++ 9 ∷ (handle ++ 9 ∷ name)) ∷ []) 0) handles
    ∙ names_from-append user handle name ls u (handle-IsLine c k) (handle_no_tab c k) n
        (handles_for user s) 0 fresh unnamed
