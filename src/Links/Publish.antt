-- ===== src/Links/Publish.antt =====
-- The state file lists what `by_device` would pick.
use passkey.Base.{
  ◌≡◌, sym, ap, ◌∙◌, List, [], ◌∷◌, ◌++◌, same, any, append_assoc, append-nil, Bool-cases, inl, inr,
}
use passkey.Base.Text.{Text}
use passkey.Link.{Link}
use passkey.Daemon.{Daemon, devices}
use passkey.Hid.{live_links}
use passkey.Links.{device_line, sort_by_priority, retain_unseen, by_device, publish_loop, publish}

abbrev pub device_lines : List Link → Text
device_lines [] = []
device_lines (x ∷ xs) = device_line x ++ device_lines xs

publish_loop-lines :
    (seen : List Text) (text : Text) (xs : List Link)
    → publish_loop seen text xs ≡ text ++ device_lines (retain_unseen seen xs)
unfolding publish_loop retain_unseen
publish_loop-lines seen text [] = sym (append-nil text)
publish_loop-lines seen text (x ∷ xs) = elim (Bool-cases (any (same x.device) seen)) [
  | inl old ↦ rw old (publish_loop-lines seen text xs)
  | inr new ↦ rw new (
      publish_loop-lines (x.device ∷ seen) (text ++ device_line x) xs
      ∙ append_assoc text (device_line x) (device_lines (retain_unseen (x.device ∷ seen) xs)))
]

-- The state file that `publish` writes has a line for every link of `by_device`, in that order,
-- and nothing else: what `passkey add` offers is what a request would reach.
pub publish-by_device :
    (s : Daemon)
    → publish s ≡ record s { done = s.done ++ devices (device_lines (by_device s)) ∷ [] }
unfolding publish by_device
publish-by_device s =
    ap (λ text. record s { done = s.done ++ devices text ∷ [] })
      (publish_loop-lines [] [] (sort_by_priority (live_links s)))
