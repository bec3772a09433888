-- ===== src/Wifi/Directory/Saved.antt =====
-- A profile that has been saved is loaded.
use passkey.Base.{
  ℕ, ◌+◌, ◌≤◌, ◌≡◌, ◌≢◌, refl, sym, ap, ◌∙◌, true, false, List, [], ◌∷◌, ◌++◌, Option, none, some,
  ltb-false, ==_ne, ==_self, same, length, length-append, arith, Bool-cases, inl, inr,
}
use mathlib.Core.Option.{some-injective}
use passkey.Base.Text.{Text, codes}
use passkey.Base.Split.{Without, Without-check}
use passkey.Wifi.{Addresses, Peer, encode, hex}
use passkey.Wifi.Hex.{length-hex}
use passkey.Wifi.Profile.{IsPeer, IsPrinted, decode-encode}
use passkey.Wifi.Directory.Load.{cons_peer-some}
use passkey.Wifi.Directory.{
  Entry, is_conf, is_private, decode_text, load_entries, load_from, id, file_of, has_file,
  rsplit_once, put_file, entries, profile, temporary, save,
}

rsplit_once-none : (sep : ℕ) (t : Text) → Without sep t → rsplit_once sep t ≡ none
unfolding rsplit_once
rsplit_once-none sep [] h = refl
rsplit_once-none sep (c ∷ t) h = rw (rsplit_once-none sep t h.1, ==_ne c sep h.0)

rsplit_once-append :
    (sep : ℕ) (s t : Text) → Without sep t → rsplit_once sep (s ++ sep ∷ t) ≡ some (s, t)
unfolding rsplit_once
rsplit_once-append sep [] t h = rw (rsplit_once-none sep t h, ==_self sep)
rsplit_once-append sep (c ∷ s) t h = rw (rsplit_once-append sep s t h)

conf_name : (s : Text) → s ≢ [] → is_conf (s ++ codes ".conf") ≡ true
unfolding is_conf
conf_name [] h = absurd (h refl)
conf_name (c ∷ s) h =
    rw (rsplit_once-append 46 (c ∷ s) (codes "conf") (Without-check 46 (codes "conf") refl)) refl

-- How long a profile is.
length-encode :
    (w : Addresses) (p : Peer) → IsPeer p → length (encode w p) ≡ length (w.print p.address) + 135
unfolding encode
length-encode w p h =
    let a =
      length-append (w.print p.address)
        (10 ∷ (codes "pk1:" ++ (hex p.pin ++ 58 ∷ (hex p.secret ++ 10 ∷ [])))) in
    let b = length-append (hex p.pin) (58 ∷ (hex p.secret ++ 10 ∷ [])) in
    let c = length-append (hex p.secret) (10 ∷ []) in
    let d = length-hex p.pin in let e = length-hex p.secret in omega (arith, h.3, h.5)

profile_private :
    (w : Addresses) (p : Peer)
    → IsPeer p
    → length (w.print p.address) ≤ 300
    → is_private (profile w p) ≡ true
unfolding is_private
profile_private w p h k =
    let l = length-encode w p h in rw (ltb-false 512 (length (encode w p)) (omega arith)) refl

id-ne-nil : (p : Peer) → IsPeer p → id p ≢ []
id-ne-nil p h e =
    let l = length-hex p.pin in
    let z : length (hex p.pin) ≡ 0 = ap length e in absurd (omega (arith, h.3))

-- A profile is loaded behind those that were there.
load_entries-append :
    (w : Addresses) (es : List Entry) (p : Peer) (ps : List Peer)
    → IsPeer p
    → IsPrinted w p.address
    → length (w.print p.address) ≤ 300
    → load_entries w es ≡ some ps
    → load_entries w (es ++ profile w p ∷ []) ≡ some (ps ++ p ∷ [])
unfolding load_entries
load_entries-append w [] p ps h k l e =
    rw (conf_name (id p) (id-ne-nil p h), profile_private w p h l, decode-encode w p h k)
      (ap (λ r. some (r ++ p ∷ [])) (some-injective [] ps e))
load_entries-append w (f ∷ es) p ps h k l e = elim (Bool-cases (is_conf f.name)) [
  | inr n ↦ rw n (load_entries-append w es p ps h k l (rw n at e))
  | inl c ↦ elim (Bool-cases (is_private f)) [
    | inr n ↦ cc (rw n at (rw c at e))
    | inl y ↦
        let (q, qs, d, r, s) =
          cons_peer-some (decode_text w f.text) (load_entries w es) ps (rw y at (rw c at e)) in
        rw (c, y, d, load_entries-append w es p qs h k l r) (ap (λ r. some (r ++ p ∷ [])) (sym s))
  ]
]

put_file-append :
    (new : Entry) (es : List Entry)
    → has_file new.name es ≡ false
    → put_file new es ≡ es ++ new ∷ []
put_file-append new [] h = refl
put_file-append new (e ∷ es) h = elim (Bool-cases (same e.name new.name)) [
  | inl s ↦ cc (rw s at h)
  | inr s ↦ rw s (ap (λ r. e ∷ r) (put_file-append new es (rw s at h)))
]

module _ (w : Addresses) (pid : ℕ) (p : Peer) (h : IsPeer p) (k : IsPrinted w p.address)
    (l : length (w.print p.address) ≤ 300) where
  pub saved :
      (d : Option (List Entry))
      → has_file (file_of p) (entries d) ≡ false
      → has_file (temporary pid p) (entries d) ≡ false
      → save w pid p d ≡ (true, some (entries d ++ profile w p ∷ []))
  unfolding save
  saved d f g = rw g (ap (λ es. (true, some es)) (put_file-append (profile w p) (entries d) f))

  load_entries_of :
      (d : Option (List Entry)) (ps : List Peer)
      → load_from w d ≡ some ps
      → load_entries w (entries d) ≡ some ps
  unfolding load_from load_entries
  load_entries_of none ps e = e
  load_entries_of (some es) ps e = e

  pub load_from-save :
      (d : Option (List Entry)) (ps : List Peer)
      → has_file (file_of p) (entries d) ≡ false
      → has_file (temporary pid p) (entries d) ≡ false
      → load_from w d ≡ some ps
      → ((save w pid p d).0 ≡ true) × (load_from w (save w pid p d).1 ≡ some (ps ++ p ∷ []))
  unfolding load_from
  load_from-save d ps f g e =
      let s = saved d f g in
      (
        ap (λ r. r.0) s,
        ap (λ r. load_from w r.1) s
            ∙ load_entries-append w (entries d) p ps h k l (load_entries_of d ps e),
      )
