-- ===== src/Links.antt =====
-- src/daemon.rs: the connections that the daemon has, one per device for a request, and the list
-- of devices that it publishes.
pub mod Best
pub mod Publish
use passkey.Base.{
  map, ℕ, Bool, true, false, not, ◌||◌, List, [], ◌∷◌, ◌++◌, if◌then◌else◌, leb, ◌==◌, same, any,
  filter, length,
}
use passkey.Base.Text.{Text, codes}
use passkey.Link.{Link}
use passkey.Daemon.{Daemon, emit, devices}
use passkey.Hid.{live_links}

-- `sort_by_key(|link| link.priority)`, which is stable: a link goes before those of its own
-- priority that stood behind it.
unfoldable pub insert_by_priority : Link → List Link → List Link
insert_by_priority x [] = x ∷ []
insert_by_priority x (y ∷ ys) =
    if leb x.priority y.priority then x ∷ y ∷ ys else y ∷ insert_by_priority x ys

unfoldable pub sort_by_priority : List Link → List Link
unfolding insert_by_priority
sort_by_priority [] = []
sort_by_priority (x ∷ xs) = insert_by_priority x (sort_by_priority xs)

-- `retain(|link| seen.insert(link.device.clone()))`.
unfoldable pub retain_unseen : List Text → List Link → List Link
unfolding same
retain_unseen seen [] = []
retain_unseen seen (x ∷ xs) =
    let fresh = x ∷ retain_unseen (x.device ∷ seen) xs in
    let rest = retain_unseen seen xs in if any (same x.device) seen then rest else fresh

unfoldable pub by_device : Daemon → List Link
unfolding live_links sort_by_priority retain_unseen
by_device s = retain_unseen [] (sort_by_priority (live_links s))

-- The line of a link in the state file.
abbrev pub device_line : Link → Text
device_line l = l.device ++ (codes "\t" ++ (l.label ++ codes "\n"))

-- The loop of `publish`, over the sorted links.
unfoldable pub publish_loop : List Text → Text → List Link → Text
unfolding same
publish_loop seen text [] = text
publish_loop seen text (x ∷ xs) =
    let fresh = publish_loop (x.device ∷ seen) (text ++ device_line x) xs in
    let rest = publish_loop seen text xs in if any (same x.device) seen then rest else fresh

unfoldable pub publish : Daemon → Daemon
unfolding live_links sort_by_priority publish_loop
publish s = emit s (devices (publish_loop [] [] (sort_by_priority (live_links s))))

-- `links.retain(|candidate| !Arc::ptr_eq(candidate, link))`.
unfoldable pub without : ℕ → List Link → List Link
without serial ls = filter (λ candidate. not (candidate.serial == serial)) ls

-- `Link::close`: the link is alive no more. What its reader gets is an observation of `fan_out`.
abbrev pub close_link : ℕ → Link → Link
close_link serial link = if link.serial == serial then record link { alive = false } else link

unfoldable pub close : Daemon → ℕ → Daemon
close s serial = record s { links = map (close_link serial) s.links }
