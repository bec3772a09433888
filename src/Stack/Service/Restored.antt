-- ===== src/Stack/Service/Restored.antt =====
-- `pam_remove` undoes `pam_add` for the files of one service, and `pam_add` is done once.
use passkey.Base.{
  ◌≡◌, refl, sym, ap, ◌∙◌, Bool, true, false, List, [], ◌∷◌, Option, none, some, same_self, any,
  All, Option-cases, inl, inr,
}
use passkey.Base.Text.{Text, lines}
use passkey.Base.Split.{Without, unlines}
use passkey.Base.Lines.{IsLine, lines-IsLine}
use passkey.Stack.{is_ours, add, remove, pam_line}
use passkey.Stack.Undo.{remove-add, add-add}
use passkey.Stack.Service.{Service, joined, pam_add, pam_remove}
use passkey.Stack.Service.Written.{joined-unlines, pam_line-IsLine, lines-added}

-- A file of lines that end with a line feed, none of them ours.
pub record IsPlain (text : Text) : Type 0 where
  pub whole : text ≡ unlines (lines text)
  pub no_return : Without 13 text
  pub foreign : All (λ line. is_ours line ≡ false) (lines text)

abbrev pub IsPlainFile : Option Text → Type 0
IsPlainFile none = Unit {0}
IsPlainFile (some text) = IsPlain text

-- The files of a service before `passkey add`: /etc has a plain file or none, /usr/lib too, and
-- there is no marker.
pub record IsUntouched (f : Service) : Type 0 where
  pub etc_plain : IsPlainFile f.etc
  pub vendor_plain : IsPlainFile f.vendor
  pub unmarked : f.copied ≡ false

none_ours : (ls : List Text) → All (λ line. is_ours line ≡ false) ls → any is_ours ls ≡ false
none_ours [] h = refl
none_ours (l ∷ ls) h = rw (h.0) (none_ours ls h.1)

not_ours : (ls : List Text) → All (λ line. is_ours line ≡ false) ls → remove ls ≡ none
unfolding remove
not_ours ls h = rw (none_ours ls h)

add-nil : (wanted : Text) → add wanted [] ≡ none
unfolding add
add-nil wanted = refl

-- A plain file has its text back after its lines have been joined.
joined-plain :
    (wanted text : Text) (out : List Text)
    → IsPlain text
    → add wanted (lines text) ≡ some out
    → joined (lines text) ≡ text
joined-plain wanted text out p e = by_lines (lines text) refl
  where
    by_lines : (ls : List Text) → lines text ≡ ls → joined (lines text) ≡ text
    by_lines [] q = absurd (cc (sym (ap (add wanted) q ∙ add-nil wanted) ∙ e))
    by_lines (l ∷ ls) q = ap joined q ∙ joined-unlines l ls ∙ ap unlines (sym q) ∙ sym p.whole

module _ (hostname : Text) (takes_password : Bool) (service : Text) (h : IsLine hostname) where
  abbrev wanted : Text
  wanted = pam_line hostname takes_password service

  wanted_line : IsLine wanted
  wanted_line = pam_line-IsLine hostname takes_password service h

  -- The lines of a file are read as they were written, and are the old ones without ours.
  removed_lines :
      (text : Text) (out : List Text)
      → IsPlain text
      → add wanted (lines text) ≡ some out
      → remove (lines (joined out)) ≡ some (lines text)
  removed_lines text out p e =
      ap remove (lines-added wanted (lines text) out wanted_line (lines-IsLine text p.no_return) e)
      ∙ remove-add hostname takes_password service (lines text) out p.foreign e

  abbrev files : Option Text → Option Text → Bool → Service
  files etc vendor copied = record { etc = etc; vendor = vendor; copied = copied }

  restored :
      (etc vendor : Option Text) (copied : Bool)
      → IsUntouched (files etc vendor copied)
      → pam_remove (pam_add wanted (files etc vendor copied)) ≡ files etc vendor copied
  unfolding pam_add pam_remove
  restored etc vendor true u = cc (u.unmarked)
  restored none none false u = refl
  restored (some text) vendor false u = elim (Option-cases (add wanted (lines text))) [
    | inl n ↦ rw (n, not_ours (lines text) u.etc_plain.foreign)
    | inr (out, n) ↦
        let p : IsPlain text = u.etc_plain in
        rw (n, removed_lines text out p n)
          (ap (λ t. files (some t) vendor false) (joined-plain wanted text out p n))
  ]
  restored none (some text) false u = elim (Option-cases (add wanted (lines text))) [
    | inl n ↦ rw n
    | inr (out, n) ↦
        let p : IsPlain text = u.vendor_plain in
        rw (n, removed_lines text out p n, joined-plain wanted text out p n, same_self text)
  ]

  -- Taking the line out gives back the files of a service that was not touched before.
  pub pam_remove-pam_add : (f : Service) → IsUntouched f → pam_remove (pam_add wanted f) ≡ f
  pam_remove-pam_add f u = restored f.etc f.vendor f.copied u

  -- Once the line is there, adding it changes nothing.
  abbrev IsClean : Option Text → Type 0
  IsClean none = Unit {0}
  IsClean (some text) = Without 13 text

  added_again :
      (text : Text) (out : List Text)
      → Without 13 text
      → add wanted (lines text) ≡ some out
      → add wanted (lines (joined out)) ≡ none
  added_again text out r e =
      ap (add wanted) (lines-added wanted (lines text) out wanted_line (lines-IsLine text r) e)
      ∙ add-add hostname takes_password service (lines text) out e

  added_twice :
      (etc vendor : Option Text) (copied : Bool)
      → IsClean etc
      → IsClean vendor
      → pam_add wanted (pam_add wanted (files etc vendor copied))
        ≡ pam_add wanted (files etc vendor copied)
  unfolding pam_add
  added_twice none none copied r v = refl
  added_twice (some text) vendor copied r v = elim (Option-cases (add wanted (lines text))) [
    | inl n ↦ rw (n, n)
    | inr (out, n) ↦ rw (n, added_again text out r n)
  ]
  added_twice none (some text) copied r v = elim (Option-cases (add wanted (lines text))) [
    | inl n ↦ rw (n, n)
    | inr (out, n) ↦ rw (n, added_again text out v n)
  ]

  pub pam_add-pam_add :
      (f : Service) → IsUntouched f → pam_add wanted (pam_add wanted f) ≡ pam_add wanted f
  pam_add-pam_add f u =
      added_twice f.etc f.vendor f.copied (clean f.etc u.etc_plain) (clean f.vendor u.vendor_plain)
    where
      clean : (o : Option Text) → IsPlainFile o → IsClean o
      clean none k = tt
      clean (some t) k = k.no_return
