-- ===== src/Wifi/Directory/Restored.antt =====
-- A profile that has been saved can be removed.
use passkey.Base.{
  ℕ, ◌≤◌, ◌≡◌, refl, sym, ap, ◌∙◌, Bool, true, false, not, List, [], ◌∷◌, ◌++◌, some, if◌then◌else◌,
  ==_self, same, same_self, filter-append, append-nil, length, All, Bool-cases, inl, inr,
}
use passkey.Base.Text.{Text}
use passkey.Wifi.{Addresses, SocketAddr, IpAddr, v4, v6, Peer, endpoint}
use passkey.Wifi.Profile.{IsPeer, IsPrinted}
use passkey.Wifi.Directory.{
  Entry, load_from, file_of, has_file, without_file, profile, temporary, save, same_address,
  remove_peers, remove,
}
use passkey.Wifi.Directory.Saved.{saved, load_from-save}

without_file-id :
    (name : Text) (es : List Entry) → has_file name es ≡ false → without_file name es ≡ es
without_file-id name [] h = refl
without_file-id name (e ∷ es) h = elim (Bool-cases (same e.name name)) [
  | inl s ↦ cc (rw s at h)
  | inr s ↦ rw s (ap (λ r. e ∷ r) (without_file-id name es (rw s at h)))
]

module _ (w : Addresses) (pid : ℕ) (p : Peer) (h : IsPeer p) (k : IsPrinted w p.address)
    (l : length (w.print p.address) ≤ 300) where
  remove_peers-skip :
      (ps : List Peer) (found : Bool) (es : List Entry)
      → All (λ q. same_address q.address p.address ≡ false) ps
      → remove_peers p.address (ps ++ p ∷ []) found es ≡ remove_peers p.address (p ∷ []) found es
  unfolding remove_peers
  remove_peers-skip [] found es a = refl
  remove_peers-skip (q ∷ qs) found es a = rw (a.0) (remove_peers-skip qs found es a.1)

  same_address_self : (a : SocketAddr) → same_address a a ≡ true
  unfolding same
  same_address_self a = same_ip a.ip
    where
      same_ip : (ip : IpAddr) → same_address (record a { ip = ip }) (record a { ip = ip }) ≡ true
      same_ip (v4 x y z t) = rw (
        ==_self a.port_number,
        ==_self a.flow_info,
        ==_self a.scope_id,
        ==_self x,
        ==_self y,
        ==_self z,
        ==_self t,
      )
      same_ip (v6 x y z t x' y' z' t') = rw (
        ==_self a.port_number,
        ==_self a.flow_info,
        ==_self a.scope_id,
        ==_self x,
        ==_self y,
        ==_self z,
        ==_self t,
        ==_self x',
        ==_self y',
        ==_self z',
        ==_self t',
      )

  has_file-append : (es : List Entry) → has_file (file_of p) (es ++ profile w p ∷ []) ≡ true
  has_file-append [] = rw (same_self (file_of p))
  has_file-append (e ∷ es) = elim (Bool-cases (same e.name (file_of p))) [
    | inl s ↦ rw s
    | inr s ↦ rw s (has_file-append es)
  ]

  without_file-append :
      (es : List Entry)
      → has_file (file_of p) es ≡ false
      → without_file (file_of p) (es ++ profile w p ∷ []) ≡ es
  without_file-append es f =
      filter-append (λ e. not (same e.name (file_of p))) es (profile w p ∷ [])
      ∙ ap (λ b. without_file (file_of p) es ++ (if not b then profile w p ∷ [] else []))
          (same_self (file_of p))
      ∙ append-nil (without_file (file_of p) es)
      ∙ without_file-id (file_of p) es f

  remove_peers_one :
      (es : List Entry)
      → has_file (file_of p) es ≡ false
      → remove_peers p.address (p ∷ []) false (es ++ profile w p ∷ []) ≡ (true, es)
  unfolding remove_peers
  remove_peers_one es f =
      rw (same_address_self p.address, has_file-append es, without_file-append es f)

  removed :
      (address : Text) (es : List Entry) (ps : List Peer)
      → endpoint w address ≡ some p.address
      → has_file (file_of p) es ≡ false
      → has_file (temporary pid p) es ≡ false
      → load_from w (some es) ≡ some ps
      → All (λ q. same_address q.address p.address ≡ false) ps
      → remove w address (save w pid p (some es)).1 ≡ (true, some es)
  unfolding remove
  removed address es ps a f g e o =
      ap (λ r. remove w address r.1) (saved w pid p h k l (some es) f g)
      ∙ rw
          (
            a,
            ap (λ r. load_from w r.1) (sym (saved w pid p h k l (some es) f g))
                ∙ (load_from-save w pid p h k l (some es) ps f g e).1,
          )
          (ap (λ r. (r.0, some r.1))
            (remove_peers-skip ps false (es ++ profile w p ∷ []) o ∙ remove_peers_one es f))

-- A well-formed profile whose file names are new is saved in a directory that loads, and loaded
-- behind the others. Removing the address then gives back the directory, if no other phone is
-- paired at that address.
pub save-restored :
    (w : Addresses) (pid : ℕ) (p : Peer)
    → IsPeer p
    → IsPrinted w p.address
    → length (w.print p.address) ≤ 300
    → (address : Text) (es : List Entry) (ps : List Peer) → endpoint w address ≡ some p.address
    → has_file (file_of p) es ≡ false
    → has_file (temporary pid p) es ≡ false
    → load_from w (some es) ≡ some ps
    → All (λ q. same_address q.address p.address ≡ false) ps
    → let saving = save w pid p (some es) in
      (saving.0 ≡ true)
      × (load_from w saving.1 ≡ some (ps ++ p ∷ []))
      × (remove w address saving.1 ≡ (true, some es))
save-restored w pid p h k l address es ps a f g e o =
    let (ok, loaded) = load_from-save w pid p h k l (some es) ps f g e in
    (ok, loaded, removed w pid p h k l address es ps a f g e o)
