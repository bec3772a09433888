-- ===== src/Loops/Bluetooth.antt =====
-- src/daemon.rs, `Profile`: the connections that BlueZ asks to end.
use passkey.Base.{
  ℕ, ◌≡◌, ◌≢◌, refl, sym, ap, ◌∙◌, Bool, false, ◌&&◌, List, [], ◌∷◌, some, In, if◌then◌else◌,
  ==_self, ==_ne, filter, map, same, inl, inr, arith,
}
use passkey.Base.Text.{Text, replace}
use passkey.Link.{Link}
use passkey.Daemon.{Daemon}
use passkey.Hid.{live_links}
use passkey.Fan.Rule.{Fresh, IsUnique}
use passkey.Adb.{behind_dev, bt_address}
use passkey.Loops.{bt_name, request_disconnection}
use passkey.Loops.Closed.{dead, mark, links-close_where}

Fresh-In : (n : ℕ) (ls : List Link) (l : Link) → Fresh n ls → In l ls → n ≢ l.serial
Fresh-In n [] l h m = absurd m
Fresh-In n (d ∷ ds) l h (inl e) = λ q. h.0 (ap (λ x. x.serial) (sym e) ∙ sym q)
Fresh-In n (d ∷ ds) l h (inr m) = Fresh-In n ds l h.1 m

module _ (p : Link → Bool) where
  dead-Fresh : (n : ℕ) (ls : List Link) → Fresh n ls → dead p (filter (λ c. c.alive) ls) n ≡ false
  dead-Fresh n [] h = refl
  dead-Fresh n (c ∷ cs) h = ground (arith, ==_ne c.serial n h.0, dead-Fresh n cs h.1)

  -- Of links that are different, just those that are alive and meet the test are closed.
  dead-In :
      (ls : List Link) (l : Link)
      → IsUnique ls
      → In l ls
      → dead p (filter (λ c. c.alive) ls) l.serial ≡ (l.alive && p l)
  dead-In [] l u m = absurd m
  dead-In (c ∷ cs) l u (inl e) =
      ap (λ x. dead p (filter (λ d. d.alive) (c ∷ cs)) x.serial) e
      ∙ first
      ∙ ap (λ x. x.alive && p x) (sym e)
    where
      first : dead p (filter (λ d. d.alive) (c ∷ cs)) c.serial ≡ (c.alive && p c)
      first = ground (arith, ==_self c.serial, dead-Fresh c.serial cs u.0)
  dead-In (c ∷ cs) l u (inr m) =
      ground (arith, ==_ne c.serial l.serial (Fresh-In c.serial cs l u.0 m), dead-In cs l u.1 m)

  map-In :
      (ls all : List Link)
      → IsUnique all
      → ((l : Link) → In l ls → In l all)
      → map (mark p (filter (λ c. c.alive) all)) ls
        ≡ map (λ l. if l.alive && p l then record l { alive = false } else l) ls
  map-In [] all u h = refl
  map-In (l ∷ ls) all u h =
      let head =
        ap (λ b. if b then record l { alive = false } else l) (dead-In all l u (h l (inl refl))) in
      λ i. head i ∷ map-In ls all u (λ x m. h x (inr m)) i

-- When BlueZ asks to disconnect the phone of a path that holds an address, the connections that are
-- alive and have the name that `new_connection` gives to this path are closed, and no others;
-- nothing else of the list changes. No link stands twice in the list.
pub links-request_disconnection :
    (path rest : Text) (s : Daemon)
    → behind_dev path ≡ some rest
    → IsUnique s.links
    → (request_disconnection path s).links
      ≡ map
          (λ l.
            if l.alive && same l.name (bt_name (bt_address path))
            then record l { alive = false }
            else l)
          s.links
unfolding request_disconnection bt_address live_links
links-request_disconnection path rest s e u =
    let p : Link → Bool = λ link. same link.name (bt_name (replace 95 58 rest)) in
    rw e (links-close_where p (live_links s) s ∙ map-In p s.links s.links u (λ x m. m))
