-- ===== src/Loops/Closed.antt =====
-- The links that a round closes.
use passkey.Base.{
  subst, ℕ, ◌≡◌, refl, sym, ap, ◌∙◌, Bool, true, false, ◌&&◌, ◌||◌, List, [], ◌∷◌, if◌then◌else◌,
  ◌==◌, ==_self, ==_iff, ==_ne, ne_of_==_false, any, filter, map, All, inl, inr, Bool-cases,
}
use passkey.Stack.Loop.{or_true}
use passkey.Base.{In}
use passkey.Link.{Link}
use passkey.Daemon.{Daemon}
use passkey.Hid.{live_links}
use passkey.Links.{close, close_link}
use passkey.Loops.{close_where}

-- Whether a list has a link with this serial that meets the test.
abbrev pub dead : (Link → Bool) → List Link → ℕ → Bool
dead p cs serial = any (λ c. p c && c.serial == serial) cs

abbrev pub mark : (Link → Bool) → List Link → Link → Link
mark p cs l = if dead p cs l.serial then record l { alive = false } else l

mark-close :
    (p : Link → Bool) (c : Link) (cs : List Link) (l : Link)
    → p c ≡ true
    → mark p cs (close_link c.serial l) ≡ mark p (c ∷ cs) l
mark-close p c cs l h = rw h (elim (Bool-cases (l.serial == c.serial)) [
  | inl e ↦
      let q : (c.serial == l.serial) ≡ true =
        (==_iff c.serial l.serial).1 (sym ((==_iff l.serial c.serial).0 e)) in
      rw (e, q) (either (dead p cs l.serial))
  | inr e ↦ rw (e, ==_ne c.serial l.serial (λ q. ne_of_==_false l.serial c.serial e (sym q)))
])
  where
    either :
        (b : Bool)
        → (if b then record l { alive = false } else record l { alive = false })
          ≡ record l { alive = false }
    either true = refl
    either false = refl

map-cong {ℓ κ} :
    {A : Type ℓ} {B : Type κ} (f g : A → B) (xs : List A)
    → ((x : A) → f x ≡ g x)
    → map f xs ≡ map g xs
map-cong f g [] h = refl
map-cong f g (x ∷ xs) h = λ i. h x i ∷ map-cong f g xs h i

map-map {ℓ} : {A : Type ℓ} (f g : A → A) (xs : List A) → map g (map f xs) ≡ map (λ x. g (f x)) xs
map-map f g [] = refl
map-map f g (x ∷ xs) = ap (λ ys. g (f x) ∷ ys) (map-map f g xs)

map-id {ℓ} : {A : Type ℓ} (xs : List A) → xs ≡ map (λ x. x) xs
map-id [] = refl
map-id (x ∷ xs) = ap (λ ys. x ∷ ys) (map-id xs)

-- The links after `close_where`: those that have to be are closed, the others are as they were.
pub links-close_where :
    (p : Link → Bool) (cs : List Link) (s : Daemon)
    → (close_where p cs s).links ≡ map (mark p cs) s.links
unfolding close_where close
links-close_where p [] s = map-id s.links
links-close_where p (c ∷ cs) s = elim (Bool-cases (p c)) [
  | inl e ↦
      ap (λ b. (close_where p cs (if b then close s c.serial else s)).links) e
      ∙ links-close_where p cs (close s c.serial)
      ∙ map-map (close_link c.serial) (mark p cs) s.links
      ∙ map-cong (λ l. mark p cs (close_link c.serial l)) (mark p (c ∷ cs)) s.links
          (λ l. mark-close p c cs l e)
  | inr e ↦
      ap (λ b. (close_where p cs (if b then close s c.serial else s)).links) e
      ∙ links-close_where p cs s
      ∙ map-cong (mark p cs) (mark p (c ∷ cs)) s.links (λ l.
        ap
          (λ b.
            if (b && c.serial == l.serial) || dead p cs l.serial
            then record l { alive = false }
            else l)
          (sym e))
]

-- A live link that meets the test is closed.
dead_sound :
    (p : Link → Bool) (ls : List Link) (l : Link)
    → In l ls
    → l.alive ≡ true
    → p l ≡ true
    → dead p (filter (λ link. link.alive) ls) l.serial ≡ true
dead_sound p [] l m a h = absurd m
dead_sound p (c ∷ cs) l (inl e) a h =
    let rest : List Link = filter (λ link. link.alive) cs in
    ap (λ b. dead p (if b then c ∷ rest else rest) l.serial) (ap (λ x. x.alive) (sym e) ∙ a)
    ∙ ap (λ b. b && c.serial == l.serial || dead p rest l.serial) (ap p (sym e) ∙ h)
    ∙ ap (λ b. b || dead p rest l.serial)
        (ap (λ x. x.serial == l.serial) (sym e) ∙ ==_self l.serial)
dead_sound p (c ∷ cs) l (inr m) a h =
    let rest : List Link = filter (λ link. link.alive) cs in
    let later : dead p rest l.serial ≡ true = dead_sound p cs l m a h in
    elim (Bool-cases (c.alive)) [
      | inl e ↦
          ap (λ b. dead p (if b then c ∷ rest else rest) l.serial) e
          ∙ ap (λ b. p c && c.serial == l.serial || b) later
          ∙ or_true (p c && c.serial == l.serial)
      | inr e ↦ ap (λ b. dead p (if b then c ∷ rest else rest) l.serial) e ∙ later
    ]

marked_sound :
    (p : Link → Bool) (ls : List Link) (l : Link)
    → In l ls
    → (mark p (filter (λ link. link.alive) ls) l).alive ≡ true
    → p l ≡ false
marked_sound p ls l m h = elim (Bool-cases (p l)) [
  | inr e ↦ e
  | inl e ↦ elim (Bool-cases (dead p (filter (λ link. link.alive) ls) l.serial)) [
    | inl d ↦ cc (rw d at h)
    | inr d ↦ let a : l.alive ≡ true = rw d at h in cc (sym d ∙ dead_sound p ls l m a e)
  ]
]

-- What is alive after the live links that meet a test have been closed does not meet it, where
-- closing a link does not change the test.
module _ (p : Link → Bool) (s : Daemon)
    (fixed : (l : Link) (alive : Bool) → p (record l { alive = alive }) ≡ p l) where
  p-mark : (cs : List Link) (l : Link) → p (mark p cs l) ≡ p l
  p-mark cs l = elim (Bool-cases (dead p cs l.serial)) [
    | inl e ↦ rw e (fixed l false)
    | inr e ↦ rw e
  ]

  All-marked :
      (ls : List Link)
      → ((l : Link) → In l ls → In l s.links)
      → All (λ l. l.alive ≡ true → p l ≡ false) (map (mark p (live_links s)) ls)
  unfolding live_links
  All-marked [] h = tt
  All-marked (l ∷ ls) h = (
    (λ a. p-mark (live_links s) l ∙ marked_sound p s.links l (h l (inl refl)) a),
    All-marked ls (λ x m. h x (inr m)),
  )

  pub close_where-Closed :
      All (λ l. l.alive ≡ true → p l ≡ false) (close_where p (live_links s) s).links
  close_where-Closed =
      subst (All (λ l. l.alive ≡ true → p l ≡ false)) (sym (links-close_where p (live_links s) s))
        (All-marked s.links (λ x m. m))
