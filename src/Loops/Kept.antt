-- ===== src/Loops/Kept.antt =====
-- The links after a round of `keepalive_loop`.
use passkey.Base.{
  ℕ, ◌≡◌, refl, ap, ◌∙◌, Bool, true, false, not, ◌&&◌, ◌||◌, List, [], ◌∷◌, if◌then◌else◌, ◌==◌,
  ==_iff, map, Bool-cases, inl, inr,
}
use passkey.Link.{Link}
use passkey.Daemon.{Daemon}
use passkey.Hid.{live_links}
use passkey.Fan.Rule.{has}
use passkey.Loops.{keepalive}
use passkey.Loops.Closed.{dead, mark, links-close_where}

-- Where the test looks at a link's identity only.
dead-has :
    (pongs : ℕ → Bool) (cs : List Link) (n : ℕ)
    → dead (λ l. not (pongs l.serial)) cs n ≡ (has n cs && not (pongs n))
dead-has pongs [] n = refl
dead-has pongs (c ∷ cs) n = elim (Bool-cases (c.serial == n)) [
  | inr e ↦ rw e (
      ap (λ b. (not (pongs c.serial) && false) || b) (dead-has pongs cs n)
      ∙ no_mark (pongs c.serial) _)
  | inl e ↦
      let q : c.serial ≡ n = (==_iff c.serial n).0 e in
      rw (e, q, dead-has pongs cs n) (absorbed (pongs n) (has n cs))
]
  where
    no_mark : (p b : Bool) → ((not p && false) || b) ≡ b
    no_mark true b = refl
    no_mark false b = refl

    absorbed : (p h : Bool) → ((not p && true) || (h && not p)) ≡ not p
    absorbed true true = refl
    absorbed true false = refl
    absorbed false h = refl

map-cong : (f g : Link → Link) (ls : List Link) → ((l : Link) → f l ≡ g l) → map f ls ≡ map g ls
map-cong f g [] h = refl
map-cong f g (l ∷ ls) h = λ i. h l i ∷ map-cong f g ls h i

-- A round closes the connections that were alive and did not answer the ping, and no others; it
-- changes nothing else of the list, and takes none out of it.
pub links-keepalive :
    (pongs : ℕ → Bool) (s : Daemon)
    → (keepalive pongs s).links
      ≡ map
          (λ l.
            if has l.serial (live_links s) && not (pongs l.serial)
            then record l { alive = false }
            else l)
          s.links
unfolding keepalive
links-keepalive pongs s =
    links-close_where (λ l. not (pongs l.serial)) (live_links s) s
    ∙ map-cong (mark (λ l. not (pongs l.serial)) (live_links s)) _ s.links (λ l.
      ap (λ b. if b then record l { alive = false } else l)
        (dead-has pongs (live_links s) l.serial))
