-- ===== src/Rounds/Unique.antt =====
-- No phone's connection occurs twice among the targets of a round.
use passkey.Base.{
  ℕ, zero, suc, ◌≡◌, refl, ◌≢◌, sym, Bool, true, not, List, [], ◌∷◌, Option, none, some, any,
  filter, find, All, take, Bool-cases, inl, inr, arith, leb, same,
}
use passkey.Base.Text.{Text}
use passkey.Link.{Link}
use passkey.Daemon.{Daemon}
use passkey.Hid.{live_links}
use passkey.Links.{insert_by_priority, sort_by_priority, retain_unseen, by_device}
use passkey.Fan.Rule.{IsUnique, Fresh, has}
use passkey.Rounds.{rounds, holds, to_list, find_device, find_last}

Fresh-filter : (n : ℕ) (p : Link → Bool) (ls : List Link) → Fresh n ls → Fresh n (filter p ls)
Fresh-filter n p [] h = tt
Fresh-filter n p (l ∷ ls) h = ground (arith, Fresh-filter n p ls h.1)

pub filter-IsUnique : (p : Link → Bool) (ls : List Link) → IsUnique ls → IsUnique (filter p ls)
filter-IsUnique p [] u = tt
filter-IsUnique p (l ∷ ls) u =
    ground (arith, Fresh-filter l.serial p ls u.0, filter-IsUnique p ls u.1)

Fresh-insert :
    (n : ℕ) (x : Link) (ls : List Link)
    → x.serial ≢ n
    → Fresh n ls
    → Fresh n (insert_by_priority x ls)
unfolding insert_by_priority
Fresh-insert n x [] h f = (h, tt)
Fresh-insert n x (l ∷ ls) h f = ground (arith, Fresh-insert n x ls h f.1)

insert-IsUnique :
    (x : Link) (ls : List Link)
    → Fresh x.serial ls
    → IsUnique ls
    → IsUnique (insert_by_priority x ls)
unfolding insert_by_priority
insert-IsUnique x [] f u = (tt, tt)
insert-IsUnique x (l ∷ ls) f u = elim (Bool-cases (leb x.priority l.priority)) [
  | inl h ↦ rw h (f, u)
  | inr h ↦ rw h (Fresh-insert l.serial x ls (λ e. f.0 (sym e)) u.0, insert-IsUnique x ls f.1 u.1)
]

Fresh-sort : (n : ℕ) (ls : List Link) → Fresh n ls → Fresh n (sort_by_priority ls)
unfolding sort_by_priority
Fresh-sort n [] f = tt
Fresh-sort n (l ∷ ls) f = Fresh-insert n l (sort_by_priority ls) f.0 (Fresh-sort n ls f.1)

sort-IsUnique : (ls : List Link) → IsUnique ls → IsUnique (sort_by_priority ls)
unfolding sort_by_priority
sort-IsUnique [] u = tt
sort-IsUnique (l ∷ ls) u =
    insert-IsUnique l (sort_by_priority ls) (Fresh-sort l.serial ls u.0) (sort-IsUnique ls u.1)

Fresh-retain :
    (n : ℕ) (seen : List Text) (ls : List Link) → Fresh n ls → Fresh n (retain_unseen seen ls)
unfolding retain_unseen
Fresh-retain n seen [] f = tt
Fresh-retain n seen (l ∷ ls) f =
    ground (arith, Fresh-retain n seen ls f.1, Fresh-retain n (l.device ∷ seen) ls f.1)

retain-IsUnique :
    (seen : List Text) (ls : List Link) → IsUnique ls → IsUnique (retain_unseen seen ls)
unfolding retain_unseen
retain-IsUnique seen [] u = tt
retain-IsUnique seen (l ∷ ls) u = ground (
  arith,
  Fresh-retain l.serial (l.device ∷ seen) ls u.0,
  retain-IsUnique seen ls u.1,
  retain-IsUnique (l.device ∷ seen) ls u.1,
)

pub by_device-IsUnique : (s : Daemon) → IsUnique s.links → IsUnique (by_device s)
unfolding by_device live_links
by_device-IsUnique s u =
    retain-IsUnique [] (sort_by_priority (live_links s))
      (sort-IsUnique (live_links s) (filter-IsUnique (λ l. l.alive) s.links u))

Fresh-take : (n k : ℕ) (ls : List Link) → Fresh n ls → Fresh n (take k ls)
Fresh-take n zero ls f = tt
Fresh-take n (suc k) [] f = tt
Fresh-take n (suc k) (l ∷ ls) f = (f.0, Fresh-take n k ls f.1)

take-IsUnique : (k : ℕ) (ls : List Link) → IsUnique ls → IsUnique (take k ls)
take-IsUnique zero ls u = tt
take-IsUnique (suc k) [] u = tt
take-IsUnique (suc k) (l ∷ ls) u = (Fresh-take l.serial k ls u.0, take-IsUnique k ls u.1)

to_list-IsUnique : (o : Option Link) → IsUnique (to_list o)
to_list-IsUnique none = tt
to_list-IsUnique (some l) = (tt, tt)

pub rounds-IsUnique :
    (chosen : Option Text) (command : ℕ) (probe : Bool) (holders : List Text) (last : Option Text)
    (links : List Link)
    → IsUnique links
    → All IsUnique (rounds chosen command probe holders last links)
unfolding rounds
rounds-IsUnique (some device) command probe holders last links u =
    (to_list-IsUnique (find_device links device), tt)
rounds-IsUnique none command probe holders last links u = ground (
  arith,
  take-IsUnique 1 links u,
  to_list-IsUnique (find_last links last),
  filter-IsUnique (holds holders) links u,
  filter-IsUnique (λ l. not (holds holders l)) links u,
)

-- Every target is a link of the list that the rounds are made of.
pub has-filter :
    (n : ℕ) (p : Link → Bool) (ls : List Link) → has n (filter p ls) ≡ true → has n ls ≡ true
has-filter n p [] h = h
has-filter n p (l ∷ ls) h = ground (arith, has-filter n p ls)

has-insert : (n : ℕ) (x : Link) (ls : List Link) → has n (insert_by_priority x ls) ≡ has n (x ∷ ls)
unfolding insert_by_priority
has-insert n x [] = refl
has-insert n x (l ∷ ls) = ground (arith, has-insert n x ls)

has-sort : (n : ℕ) (ls : List Link) → has n (sort_by_priority ls) ≡ has n ls
unfolding sort_by_priority
has-sort n [] = refl
has-sort n (l ∷ ls) = ground (arith, has-insert n l (sort_by_priority ls), has-sort n ls)

has-retain :
    (n : ℕ) (seen : List Text) (ls : List Link)
    → has n (retain_unseen seen ls) ≡ true
    → has n ls ≡ true
unfolding retain_unseen
has-retain n seen [] h = h
has-retain n seen (l ∷ ls) h =
    ground (arith, has-retain n seen ls, has-retain n (l.device ∷ seen) ls)

pub has-by_device : (n : ℕ) (s : Daemon) → has n (by_device s) ≡ true → has n (live_links s) ≡ true
unfolding by_device
has-by_device n s h =
    rw (has-sort n (live_links s)) at (has-retain n [] (sort_by_priority (live_links s)) h)

has-take : (n k : ℕ) (ls : List Link) → has n (take k ls) ≡ true → has n ls ≡ true
has-take n zero ls h = cc
has-take n (suc k) [] h = h
has-take n (suc k) (l ∷ ls) h = ground (arith, has-take n k ls)

has-find :
    (n : ℕ) (p : Link → Bool) (ls : List Link)
    → has n (to_list (find p ls)) ≡ true
    → has n ls ≡ true
has-find n p [] h = h
has-find n p (l ∷ ls) h = ground (arith, has-find n p ls)

has-find_last :
    (n : ℕ) (last : Option Text) (ls : List Link)
    → has n (to_list (find_last ls last)) ≡ true
    → has n ls ≡ true
has-find_last n none ls h = cc
has-find_last n (some device) ls h = has-find n (λ link. same link.device device) ls h

-- Some round has a link with this identity.
abbrev pub has_round : ℕ → List (List Link) → Bool
has_round n rs = any (has n) rs

pub has-rounds :
    (n : ℕ) (chosen : Option Text) (command : ℕ) (probe : Bool) (holders : List Text)
    (last : Option Text) (links : List Link)
    → has_round n (rounds chosen command probe holders last links) ≡ true
    → has n links ≡ true
unfolding rounds
has-rounds n (some device) command probe holders last links h =
    ground (arith, has-find n (λ link. same link.device device) links)
has-rounds n none command probe holders last links h = ground (
  arith,
  has-take n 1 links,
  has-find_last n last links,
  has-filter n (holds holders) links,
  has-filter n (λ l. not (holds holders l)) links,
)
