-- ===== src/Loops/Wanted.antt =====
-- The links over Wi-Fi after a round of `wifi_loop`.
use passkey.Base.{
  Option-cases, ℕ, ◌≡◌, refl, sym, ap, ◌∙◌, Bool, true, false, not, ◌&&◌, List, [], ◌∷◌, ◌++◌,
  Option, none, some, if◌then◌else◌, same, same_self, same→eq, any, filter, map, All, All-append,
  ◌⊎◌, inl, inr, Bool-cases, subst,
}
use passkey.Base.Text.{Text, codes, strip_prefix}
use passkey.Base.{In}
use passkey.Stack.Loop.{or_true}
use passkey.Link.{Link, new}
use passkey.Daemon.{Daemon}
use passkey.Hid.{is_some, live_links}
use passkey.Links.{publish}
use passkey.Uhid.{add}
use passkey.Uhid.Device.{sync_uhid-links}
use passkey.Wifi.{Addresses, Peer}
use passkey.Wifi.Directory.{Entry, load_from}
use passkey.Loops.{
  with_peers, close_where, is_unwanted, wifi_name, wifi_device, add_found, add_peers, wifi_round,
}
use passkey.Loops.Closed.{close_where-Closed}

links-add : (opens : Bool) (s : Daemon) (l : Link) → (add opens s l).links ≡ s.links ++ l ∷ []
unfolding add publish
links-add opens s l = sync_uhid-links opens (publish (record s { links = s.links ++ l ∷ [] }))

abbrev pub Wanted : List Text → List Link → Type 0
Wanted wanted ls = All (λ l. l.alive ≡ true → is_unwanted wanted l ≡ false) ls

in_any : (name : Text) (ts : List Text) → In name ts → any (λ t. same t name) ts ≡ true
in_any name [] m = absurd m
in_any name (t ∷ ts) (inl e) = rw (ap (λ x. same x name) (sym e) ∙ same_self name)
in_any name (t ∷ ts) (inr m) = rw (in_any name ts m) (or_true (same t name))

module _ (w : Addresses) (opens : Bool) (connects : Peer → Option (Text × ℕ))
    (wanted : List Text) where
  new-wanted :
      (serial : ℕ) (label : Text) (p : Peer)
      → In (wifi_name w p) wanted
      → is_unwanted wanted (new serial (wifi_name w p) 1 label (wifi_device p)) ≡ false
  unfolding new
  new-wanted serial label p m =
      rw (in_any (wifi_name w p) wanted m)
        (and_false (is_some (strip_prefix (codes "wifi:") (wifi_name w p))))
    where
      and_false : (b : Bool) → (b && false) ≡ false
      and_false true = refl
      and_false false = refl

  add_found-Wanted :
      (p : Peer) (s : Daemon) (o : Option (Text × ℕ))
      → In (wifi_name w p) wanted
      → Wanted wanted s.links
      → Wanted wanted (add_found w opens p s o).links
  add_found-Wanted p s none m h = h
  add_found-Wanted p s (some (label, serial)) m h =
      let l : Link = new serial (wifi_name w p) 1 label (wifi_device p) in
      subst (Wanted wanted) (sym (links-add opens s l)) (
        All-append (λ l. l.alive ≡ true → is_unwanted wanted l ≡ false) s.links (l ∷ []) h
          ((λ a. new-wanted serial label p m), tt))

  add_peers-Wanted :
      (ps : List Peer) (s : Daemon)
      → ((p : Peer) → In p ps → In (wifi_name w p) wanted)
      → Wanted wanted s.links
      → Wanted wanted (add_peers w opens connects ps s).links
  unfolding add_peers
  add_peers-Wanted [] s m h = h
  add_peers-Wanted (p ∷ ps) s m h =
      add_peers-Wanted ps _ (λ q k. m q (inr k))
        (elim (Bool-cases (any (λ link. same link.name (wifi_name w p)) (live_links s))) [
          | inl e ↦ rw e h
          | inr e ↦ rw e (add_found-Wanted p s (connects p) (m p (inl refl)) h)
        ])

in_map : (f : Peer → Text) (p : Peer) (ps : List Peer) → In p ps → In (f p) (map f ps)
in_map f p [] m = absurd m
in_map f p (q ∷ qs) (inl e) = inl (ap f e)
in_map f p (q ∷ qs) (inr m) = inr (in_map f p qs m)

-- Of the links that are wanted, those that live.
live-Wanted :
    (wanted : List Text) (ls : List Link)
    → Wanted wanted ls
    → All (λ l. is_unwanted wanted l ≡ false) (filter (λ link. link.alive) ls)
live-Wanted wanted [] h = tt
live-Wanted wanted (l ∷ ls) h = elim (Bool-cases (l.alive)) [
  | inl e ↦
      subst (All (λ l. is_unwanted wanted l ≡ false))
        (ap (λ b. if b then l ∷ filter (λ link. link.alive) ls else filter (λ link. link.alive) ls)
          (sym e))
        (h.0 e, live-Wanted wanted ls h.1)
  | inr e ↦
      subst (All (λ l. is_unwanted wanted l ≡ false))
        (ap (λ b. if b then l ∷ filter (λ link. link.alive) ls else filter (λ link. link.alive) ls)
          (sym e))
        (live-Wanted wanted ls h.1)
]

-- A link over Wi-Fi has the name of a peer.
abbrev pub IsPaired : List Text → Link → Type 0
IsPaired names l = (is_some (strip_prefix (codes "wifi:") l.name) ≡ false) ⊎ In l.name names

found : (name : Text) (ts : List Text) → any (λ t. same t name) ts ≡ true → In name ts
found name [] h = cc h
found name (t ∷ ts) h = elim (Bool-cases (same t name)) [
  | inl e ↦ inl (sym (same→eq t name e))
  | inr e ↦ inr (found name ts (rw e at h))
]

paired :
    (names : List Text) (ls : List Link)
    → All (λ l. is_unwanted names l ≡ false) ls
    → All (IsPaired names) ls
paired names [] h = tt
paired names (l ∷ ls) h = (one, paired names ls h.1)
  where
    read : (a b : Bool) → (a && not b) ≡ false → (a ≡ false) ⊎ (b ≡ true)
    read false b k = inl refl
    read true true k = inr refl
    read true false k = cc k

    one : IsPaired names l
    one =
        elim (read (is_some (strip_prefix (codes "wifi:") l.name)) (any (λ t. same t l.name) names)
          h.0) [ inl e ↦ inl e | inr e ↦ inr (found l.name names e) ]

-- What a round with these peers leaves.
peers-IsPaired :
    (w : Addresses) (opens : Bool) (connects : Peer → Option (Text × ℕ)) (peers : List Peer)
    (s : Daemon)
    → All
        (IsPaired (map (wifi_name w) peers))
        (live_links (with_peers w opens connects s (some peers)))
unfolding live_links
peers-IsPaired w opens connects peers s =
    let wanted : List Text = map (wifi_name w) peers in
    let t : Daemon = close_where (is_unwanted wanted) (live_links s) s in
    paired wanted (live_links (add_peers w opens connects peers t)) (
      live-Wanted wanted (add_peers w opens connects peers t).links (
        add_peers-Wanted w opens connects wanted peers t (λ p m. in_map (wifi_name w) p peers m)
          (close_where-Closed (is_unwanted wanted) s (λ l alive. refl))))

-- A round in which the profiles cannot be loaded changes nothing. After any other round every live
-- link is of another kind than Wi-Fi, or of a phone whose profile was loaded, at the address in it:
-- what was paired no more, or at another address, has been closed.
pub wifi_round-IsPaired :
    (w : Addresses) (opens : Bool) (connects : Peer → Option (Text × ℕ))
    (directory : Option (List Entry)) (s : Daemon)
    → ((load_from w directory ≡ none) × (wifi_round w opens connects directory s ≡ s))
      ⊎ ((peers : List Peer) × (load_from w directory ≡ some peers)
          × All
              (IsPaired (map (wifi_name w) peers))
              (live_links (wifi_round w opens connects directory s)))
unfolding wifi_round
wifi_round-IsPaired w opens connects directory s = elim (Option-cases (load_from w directory)) [
  | inl n ↦ inl (n, ap (with_peers w opens connects s) n)
  | inr (peers, e) ↦ inr (
    peers,
    e,
    subst
        (λ o.
          All (IsPaired (map (wifi_name w) peers)) (live_links (with_peers w opens connects s o)))
        (sym e) (peers-IsPaired w opens connects peers s),
  )
]
