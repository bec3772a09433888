-- ===== src/Links/Best.antt =====
-- `by_device` picks the best link of every device.
use passkey.Base.{
  ℕ, ◌≤◌, ◌≡◌, refl, ap, ◌∙◌, inl, inr, true, false, List, [], ◌∷◌, Option, none, some, arith, ltb,
  leb, if◌then◌else◌, same, same→eq, same_sym, any, find, All, Bool-cases, leb→le, not_leb→lt,
  ltb-true,
}
use passkey.Base.Text.{Text}
use passkey.Link.{Link}
use passkey.Daemon.{Daemon}
use passkey.Hid.{live_links}
use passkey.Links.{insert_by_priority, sort_by_priority, retain_unseen, by_device}

-- Of two links of a device, in the order of their age, the one that serves it.
abbrev better : Link → Option Link → Link
better x none = x
better x (some y) = if ltb y.priority x.priority then y else x

-- The link that serves a device: of the lowest priority number, and of those the oldest.
unfoldable pub best : Text → List Link → Option Link
best d [] = none
best d (x ∷ xs) = if same x.device d then some (better x (best d xs)) else best d xs

abbrev pub of_device : Text → List Link → Option Link
of_device d ls = find (λ l. same l.device d) ls

abbrev Below : ℕ → List Link → Type 0
Below n [] = Unit {0}
Below n (x ∷ xs) = n ≤ x.priority

-- The priorities do not fall along the list.
abbrev pub IsSorted : List Link → Type 0
IsSorted [] = Unit {0}
IsSorted (x ∷ xs) = All (λ y. x.priority ≤ y.priority) xs × IsSorted xs

All-insert_by_priority :
    (n : ℕ) (x : Link) (ys : List Link)
    → n ≤ x.priority
    → All (λ y. n ≤ y.priority) ys
    → All (λ y. n ≤ y.priority) (insert_by_priority x ys)
unfolding insert_by_priority
All-insert_by_priority n x [] h a = (h, tt)
All-insert_by_priority n x (y ∷ ys) h a = ground (arith, All-insert_by_priority n x ys h a.1)

All-mono :
    (m n : ℕ) (ys : List Link) → m ≤ n → All (λ y. n ≤ y.priority) ys → All (λ y. m ≤ y.priority) ys
All-mono m n [] h a = tt
All-mono m n (y ∷ ys) h a = (omega arith, All-mono m n ys h a.1)

insert_by_priority-IsSorted :
    (x : Link) (ys : List Link) → IsSorted ys → IsSorted (insert_by_priority x ys)
unfolding insert_by_priority
insert_by_priority-IsSorted x [] h = (tt, tt)
insert_by_priority-IsSorted x (y ∷ ys) h = elim (Bool-cases (leb x.priority y.priority)) [
  | inl le ↦ rw le ((leb→le _ _ le, All-mono x.priority y.priority ys (leb→le _ _ le) h.0), h)
  | inr gt ↦ rw gt (
    All-insert_by_priority y.priority x ys (omega (arith, not_leb→lt _ _ gt)) h.0,
    insert_by_priority-IsSorted x ys h.1,
  )
]

sort_by_priority-IsSorted : (xs : List Link) → IsSorted (sort_by_priority xs)
unfolding sort_by_priority
sort_by_priority-IsSorted [] = tt
sort_by_priority-IsSorted (x ∷ xs) =
    insert_by_priority-IsSorted x (sort_by_priority xs) (sort_by_priority-IsSorted xs)

of_device-bound :
    (d : Text) (n : ℕ) (ys : List Link) (y : Link)
    → All (λ z. n ≤ z.priority) ys
    → of_device d ys ≡ some y
    → n ≤ y.priority
of_device-bound d n [] y a e = cc
of_device-bound d n (z ∷ ys) y a e = ground (arith, of_device-bound d n ys y a.1)

better_first :
    (x : Link) (o : Option Link)
    → ((z : Link) → o ≡ some z → x.priority ≤ z.priority)
    → better x o ≡ x
better_first x none h = refl
better_first x (some y) h = ground (arith, h y refl)

of_device-insert :
    (d : Text) (x : Link) (ys : List Link)
    → IsSorted ys
    → of_device d (insert_by_priority x ys)
      ≡ (if same x.device d then some (better x (of_device d ys)) else of_device d ys)
unfolding insert_by_priority
of_device-insert d x [] h = refl
of_device-insert d x (y ∷ ys) h = elim (Bool-cases (leb x.priority y.priority)) [
  | inl le ↦
      let bound = λ (z : Link) (e : of_device d (y ∷ ys) ≡ some z).
        of_device-bound d x.priority (y ∷ ys) z
          (leb→le _ _ le, All-mono x.priority y.priority ys (leb→le _ _ le) h.0) e in
      rw (le, better_first x (of_device d (y ∷ ys)) bound)
  | inr gt ↦
      rw (gt, of_device-insert d x ys h.1)
        (let higher = not_leb→lt x.priority y.priority gt in
          elim (Bool-cases (same y.device d)) [
            | inl hit ↦ rw (hit, ltb-true y.priority x.priority higher) (ground arith)
            | inr miss ↦ rw miss
          ])
]

of_device-sort : (d : Text) (xs : List Link) → of_device d (sort_by_priority xs) ≡ best d xs
unfolding sort_by_priority best
of_device-sort d [] = refl
of_device-sort d (x ∷ xs) =
    of_device-insert d x (sort_by_priority xs) (sort_by_priority-IsSorted xs)
    ∙ ap (λ o. if same x.device d then some (better x o) else o) (of_device-sort d xs)

-- A device that was seen is not the device of an unseen link.
same_unseen :
    (a d : Text) (seen : List Text)
    → any (same d) seen ≡ false
    → any (same a) seen ≡ true
    → same a d ≡ false
same_unseen a d seen h old = elim (Bool-cases (same a d)) [
  | inl hit ↦ cc (rw (same→eq a d hit) at old)
  | inr miss ↦ miss
]

of_device-retain :
    (d : Text) (seen : List Text) (xs : List Link)
    → any (same d) seen ≡ false
    → of_device d (retain_unseen seen xs) ≡ of_device d xs
unfolding retain_unseen
of_device-retain d seen [] h = refl
of_device-retain d seen (x ∷ xs) h = elim (Bool-cases (any (same x.device) seen)) [
  | inl old ↦ rw old (of_device-retain d seen xs h ∙ rw (same_unseen x.device d seen h old))
  | inr new ↦ rw new (elim (Bool-cases (same x.device d)) [
    | inl hit ↦ rw hit
    | inr miss ↦
        rw miss (of_device-retain d (x.device ∷ seen) xs (rw (same_sym d x.device, miss) h))
  ])
]

-- No two links of the list have one device.
abbrev pub Distinct : List Link → Type 0
Distinct [] = Unit {0}
Distinct (x ∷ xs) = All (λ y. same x.device y.device ≡ false) xs × Distinct xs

abbrev Unseen : List Text → List Link → Type 0
Unseen seen xs = All (λ y. any (same y.device) seen ≡ false) xs

Unseen-cons :
    (a : Text) (seen : List Text) (ys : List Link)
    → Unseen (a ∷ seen) ys
    → All (λ y. same a y.device ≡ false) ys × Unseen seen ys
Unseen-cons a seen [] h = (tt, tt)
Unseen-cons a seen (y ∷ ys) h = ground (arith, same_sym a y.device, Unseen-cons a seen ys h.1)

retain_unseen-Distinct :
    (seen : List Text) (xs : List Link)
    → Unseen seen (retain_unseen seen xs) × Distinct (retain_unseen seen xs)
unfolding retain_unseen
retain_unseen-Distinct seen [] = (tt, tt)
retain_unseen-Distinct seen (x ∷ xs) = elim (Bool-cases (any (same x.device) seen)) [
  | inl old ↦ rw old (retain_unseen-Distinct seen xs)
  | inr new ↦ rw new (
      let ih = retain_unseen-Distinct (x.device ∷ seen) xs in
      let apart = Unseen-cons x.device seen (retain_unseen (x.device ∷ seen) xs) ih.0 in
      ((new, apart.1), (apart.0, ih.1)))
]

All-retain :
    (n : ℕ) (seen : List Text) (xs : List Link)
    → All (λ y. n ≤ y.priority) xs
    → All (λ y. n ≤ y.priority) (retain_unseen seen xs)
unfolding retain_unseen
All-retain n seen [] a = tt
All-retain n seen (x ∷ xs) a =
    ground (arith, All-retain n seen xs a.1, All-retain n (x.device ∷ seen) xs a.1)

retain_unseen-IsSorted :
    (seen : List Text) (xs : List Link) → IsSorted xs → IsSorted (retain_unseen seen xs)
unfolding retain_unseen
retain_unseen-IsSorted seen [] h = tt
retain_unseen-IsSorted seen (x ∷ xs) h = ground (
  arith,
  All-retain x.priority (x.device ∷ seen) xs h.0,
  retain_unseen-IsSorted seen xs h.1,
  retain_unseen-IsSorted (x.device ∷ seen) xs h.1,
)

-- `by_device` lists for every device its best live link, the one of the lowest priority number
-- and among those the oldest, and for a device with no live link none; no device stands in the
-- list twice, and the priority numbers do not fall along it.
pub by_device-best :
    (s : Daemon)
    → ((d : Text) → of_device d (by_device s) ≡ best d (live_links s))
      × Distinct (by_device s)
      × IsSorted (by_device s)
unfolding by_device
by_device-best s =
    let sorted = sort_by_priority (live_links s) in
    (
      (λ d. of_device-retain d [] sorted refl ∙ of_device-sort d (live_links s)),
      (retain_unseen-Distinct [] sorted).1,
      retain_unseen-IsSorted [] sorted (sort_by_priority-IsSorted (live_links s)),
    )
