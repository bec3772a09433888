-- ===== src/Client/Listed.antt =====
-- The devices that `passkey add` lists are those that the daemon has published.
use passkey.Base.{
  ℕ, ◌≡◌, refl, sym, ap, ◌∙◌, true, false, List, [], ◌∷◌, ◌++◌, some, append_assoc, same, any, map,
  leb, All, All-filter, All-append, arith, Bool-cases, inl, inr,
}
use passkey.Base.Text.{Text, lines, is_whitespace, close_word, words_from, split_whitespace}
use passkey.Base.Split.{split_once-append, Without, Without-join, unlines}
use passkey.Base.Lines.{IsLine, IsLine-append, lines-unlines_lem}
use passkey.Hid.{is_empty, live_links}
use passkey.Link.{Link, new}
use passkey.Daemon.{Daemon, devices}
use passkey.Links.{insert_by_priority, sort_by_priority, retain_unseen, by_device, publish}
use passkey.Links.Publish.{device_lines, publish-by_device}
use passkey.Client.Used.{IsWord}
use passkey.Client.{or_twice, keep_named, devices_of, connected_devices}

-- The device and the label of a link have their place in one line.
pub record IsShown (l : Link) : Type 0 where
  pub named : is_empty l.device ≡ false
  pub device_line : IsLine l.device
  pub no_tab : Without 9 l.device
  pub label_line : IsLine l.label

-- `Link::new` makes a label of words between single spaces, whatever the phone calls itself.
IsWord-append : (s t : Text) → IsWord s → IsWord t → IsWord (s ++ t)
IsWord-append s t h k = All-append (λ c. is_whitespace c ≡ false) s t h k

close_word-words :
    (word : Text) (ws : List Text) → IsWord word → All IsWord ws → All IsWord (close_word word ws)
close_word-words [] ws h k = k
close_word-words (c ∷ word) ws h k = (h, k)

words_from-words : (word s : Text) → IsWord word → All IsWord (words_from word s)
unfolding words_from
words_from-words word [] h = close_word-words word [] h tt
words_from-words word (c ∷ s) h = elim (Bool-cases (is_whitespace c)) [
  | inl e ↦ rw e (close_word-words word (words_from [] s) h (words_from-words [] s tt))
  | inr e ↦ rw e (words_from-words (word ++ c ∷ []) s (IsWord-append word (c ∷ []) h (e, tt)))
]

-- A line end is whitespace.
Without-word : (c : ℕ) (t : Text) → is_whitespace c ≡ true → IsWord t → Without c t
Without-word c [] w h = tt
Without-word c (d ∷ t) w h =
    ((λ e. cc (sym (h.0) ∙ ap is_whitespace e ∙ w)), Without-word c t w h.1)

words_Without :
    (c : ℕ) (ts : List Text) → is_whitespace c ≡ true → All IsWord ts → All (Without c) ts
words_Without c [] w h = tt
words_Without c (t ∷ ts) w h = (Without-word c t w h.0, words_Without c ts w h.1)

new-IsShown :
    (serial : ℕ) (name : Text) (priority : ℕ) (label device : Text)
    → is_empty device ≡ false
    → IsLine device
    → Without 9 device
    → IsShown (new serial name priority label device)
unfolding new split_whitespace is_whitespace
new-IsShown serial name priority label device e d n = record {
  named = e;
  device_line = d;
  no_tab = n;
  label_line =
      let words : All IsWord (split_whitespace label) = words_from-words [] label tt in
      (
        Without-join 10 32 (split_whitespace label) (λ q. absurd (omega arith))
            (words_Without 10 (split_whitespace label) refl words),
        Without-join 13 32 (split_whitespace label) (λ q. absurd (omega arith))
            (words_Without 13 (split_whitespace label) refl words),
      );
}

abbrev line_of : Link → Text
line_of l = l.device ++ 9 ∷ l.label

device_lines-unlines : (ls : List Link) → device_lines ls ≡ unlines (map line_of ls)
device_lines-unlines [] = refl
device_lines-unlines (l ∷ ls) =
    append_assoc l.device (9 ∷ (l.label ++ 10 ∷ [])) (device_lines ls)
    ∙ ap (λ t. l.device ++ 9 ∷ t) (append_assoc l.label (10 ∷ []) (device_lines ls))
    ∙ sym (append_assoc l.device (9 ∷ l.label) (10 ∷ device_lines ls))
    ∙ ap (λ t. line_of l ++ 10 ∷ t) (device_lines-unlines ls)

abbrev pub shown : Link → Text × Text
shown l = (l.device, l.label)

lines_shown : (ls : List Link) → All IsShown ls → All IsLine (map line_of ls)
lines_shown [] h = tt
lines_shown (l ∷ ls) h = (
  IsLine-append l.device (9 ∷ l.label) h.0.device_line (
    ((λ e. absurd (omega arith)), h.0.label_line.0),
    ((λ e. absurd (omega arith)), h.0.label_line.1),
  ),
  lines_shown ls h.1,
)

devices_of-lines : (ls : List Link) → All IsShown ls → devices_of (map line_of ls) ≡ map shown ls
unfolding devices_of
devices_of-lines [] h = refl
devices_of-lines (l ∷ ls) h =
    ap (λ o. keep_named (or_twice (line_of l) o) (devices_of (map line_of ls)))
      (split_once-append 9 l.device l.label h.0.no_tab)
    ∙ rw (h.0.named) (ap (λ ts. shown l ∷ ts) (devices_of-lines ls h.1))

-- What holds of all links holds of those that `by_device` gives.
module _ (P : Link → Type 0) where
  All-insert : (x : Link) (ls : List Link) → P x → All P ls → All P (insert_by_priority x ls)
  unfolding insert_by_priority
  All-insert x [] p h = (p, tt)
  All-insert x (y ∷ ys) p h = elim (Bool-cases (leb x.priority y.priority)) [
    | inl e ↦ rw e (p, h)
    | inr e ↦ rw e (h.0, All-insert x ys p h.1)
  ]

  All-sort : (ls : List Link) → All P ls → All P (sort_by_priority ls)
  unfolding sort_by_priority
  All-sort [] h = tt
  All-sort (x ∷ xs) h = All-insert x (sort_by_priority xs) h.0 (All-sort xs h.1)

  All-retain : (seen : List Text) (ls : List Link) → All P ls → All P (retain_unseen seen ls)
  unfolding retain_unseen
  All-retain seen [] h = tt
  All-retain seen (x ∷ xs) h = elim (Bool-cases (any (same x.device) seen)) [
    | inl e ↦ rw e (All-retain seen xs h.1)
    | inr e ↦ rw e (h.0, All-retain (x.device ∷ seen) xs h.1)
  ]

  All-by_device : (s : Daemon) → All P s.links → All P (by_device s)
  unfolding by_device live_links
  All-by_device s h =
      All-retain [] (sort_by_priority (live_links s))
        (All-sort (live_links s) (All-filter P (λ link. link.alive) s.links h))

-- Where every link has a device without a tab, and no line ends in its device and label: `passkey
-- add` lists from the file that the daemon published the devices that a request would reach, with
-- their labels and in that order.
pub connected_devices-publish :
    (s : Daemon)
    → All IsShown s.links
    → (text : Text) × (publish s ≡ record s { done = s.done ++ devices text ∷ [] })
      × (connected_devices (some text) ≡ map shown (by_device s))
unfolding connected_devices
connected_devices-publish s h =
    let k : All IsShown (by_device s) = All-by_device IsShown s h in
    (
      device_lines (by_device s),
      publish-by_device s,
      ap (λ t. devices_of (lines t)) (device_lines-unlines (by_device s))
          ∙ ap devices_of
              (lines-unlines_lem (map line_of (by_device s)) (lines_shown (by_device s) k))
          ∙ devices_of-lines (by_device s) k,
    )
