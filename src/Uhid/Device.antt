-- ===== src/Uhid/Device.antt =====
-- The virtual device exists exactly while a phone is connected.
use passkey.Base.{
  ◌&&◌, ℕ, ◌-◌, ◌^◌, ◌<◌, ◌≡◌, refl, ap, ◌∙◌, inl, inr, Bool, true, false, not, List, [], ◌∷◌, ◌++◌,
  append_assoc, ==_ne, Option, none, some, arith, length, ◌==◌, Bool-cases,
}
use passkey.Link.{Link}
use passkey.Daemon.{Daemon, Request, uhid, devices, withdraw}
use passkey.Hid.{live_links, is_empty, cancel, notify}
use passkey.Hid.Packet.{told, withdraw-told}
use passkey.Links.{publish, publish_loop, sort_by_priority, without}
use passkey.Uhid.{create_uhid, destroy_uhid, sync_uhid, remove, destroy_event}

-- What a cancellation leaves alone.
abbrev SameDevice : Daemon → Daemon → Type 0
SameDevice s t =
    (t.links ≡ s.links)
    × (t.file ≡ s.file)
    × (t.generation ≡ s.generation)
    × (t.next_generation ≡ s.next_generation)
    × (t.next_serial ≡ s.next_serial)

cancel_all :
    (s : Daemon) (r : Request)
    → s.busy ≡ some r
    → cancel s none false ≡ record s { done = s.done ++ told r r.pending }
unfolding cancel
cancel_all s r e = ground (arith, withdraw-told s r r.pending)

withdraw-SameDevice : (s : Daemon) (r : Request) (ls : List Link) → SameDevice s (withdraw s r ls)
withdraw-SameDevice s r ls = rw (withdraw-told s r ls) (refl, refl, refl, refl, refl)

notify-SameDevice :
    (s : Daemon) (channel : Option ℕ) (r : Option Request) → SameDevice s (notify s channel r)
notify-SameDevice s channel none = (refl, refl, refl, refl, refl)
notify-SameDevice s channel (some r) = ground (arith, withdraw-SameDevice s r r.pending)

cancel-SameDevice : (s : Daemon) → SameDevice s (cancel s none false)
unfolding cancel
cancel-SameDevice s = notify-SameDevice s none s.busy

-- The links are as they were.
pub sync_uhid-links : (opens : Bool) (s : Daemon) → (sync_uhid opens s).links ≡ s.links
unfolding sync_uhid destroy_uhid create_uhid
sync_uhid-links true s = ground (arith, cancel-SameDevice s)
sync_uhid-links false s = ground (arith, cancel-SameDevice s)

-- The open file has a generation, and no file has none; there are generations to come.
pub record IsNumbered (s : Daemon) : Type 0 where
  pub numbered : (s.generation == 0) ≡ not s.file
  pub ahead : (0 < s.next_generation) × (s.next_generation < 2 ^ 64 - 1)

-- The device stands exactly if a phone is connected; where it could not be opened, only if.
abbrev pub Present : Bool → Daemon → Type 0
Present true s = s.file ≡ not (is_empty (live_links s))
Present false s = (s.file && is_empty (live_links s)) ≡ false

-- The two halves of `sync_uhid`.
abbrev SyncedTo : Bool → Daemon → Daemon → Type 0
SyncedTo opens s t =
    Present opens t × ((t.generation == 0) ≡ not t.file) × (live_links t ≡ live_links s)

destroyed :
    (opens : Bool) (s : Daemon)
    → is_empty (live_links s) ≡ true
    → IsNumbered s
    → SyncedTo opens s (destroy_uhid (cancel s none false))
unfolding destroy_uhid live_links
destroyed true s gone n = ground (arith, cancel-SameDevice s)
destroyed false s gone n = ground (arith, cancel-SameDevice s)

created :
    (opens : Bool) (s : Daemon)
    → is_empty (live_links s) ≡ false
    → IsNumbered s
    → SyncedTo opens s (create_uhid opens s)
unfolding create_uhid live_links
created true s some_left n = ground arith
created false s some_left n = ground arith

-- After every `sync_uhid` the virtual device stands exactly if a phone is connected. Where
-- /dev/uhid cannot be opened it stands only if one is. A device that stands has a generation, by
-- which its reader knows it, and one that does not has none.
pub sync_uhid-Present :
    (opens : Bool) (s : Daemon)
    → IsNumbered s
    → let t = sync_uhid opens s in
      Present opens t × ((t.generation == 0) ≡ not t.file) × (live_links t ≡ live_links s)
unfolding sync_uhid
sync_uhid-Present opens s n = elim (Bool-cases (is_empty (live_links s))) [
  | inl gone ↦ rw gone (destroyed opens s gone n)
  | inr some_left ↦ rw some_left (created opens s some_left n)
]

publish_none :
    (s : Daemon) → live_links s ≡ [] → publish s ≡ record s { done = s.done ++ devices [] ∷ [] }
unfolding publish sort_by_priority publish_loop
publish_none s h = rw h

sync_uhid_none :
    (opens : Bool) (s : Daemon) (r : Request)
    → s.busy ≡ some r
    → s.file ≡ true
    → live_links s ≡ []
    → sync_uhid opens s ≡ record s {
      generation = 0;
      file = false;
      done = (s.done ++ told r r.pending) ++ uhid destroy_event ∷ [];
    }
unfolding sync_uhid destroy_uhid
sync_uhid_none opens s r busy file gone = rw (gone, cancel_all s r busy, file)

remove_step :
    (opens : Bool) (s : Daemon) (l : Link)
    → length (without l.serial s.links) < length s.links
    → remove opens s l ≡ sync_uhid opens (publish (record s { links = without l.serial s.links }))
unfolding remove
remove_step opens s l fewer =
    rw (==_ne (length s.links) (length (without l.serial s.links)) (omega arith))

-- When the last live link is removed while a request is in progress, the state file becomes
-- empty, the phones that still have the request are told to drop it, and the virtual device is
-- destroyed, in this order; the request itself stays in progress until its thread ends.
remove_last :
    (opens : Bool) (s : Daemon) (l : Link) (r : Request)
    → s.busy ≡ some r
    → s.file ≡ true
    → length (without l.serial s.links) < length s.links
    → live_links (record s { links = without l.serial s.links }) ≡ []
    → remove opens s l ≡ record s {
      links = without l.serial s.links;
      generation = 0;
      file = false;
      done = s.done ++ devices [] ∷ (told r r.pending ++ uhid destroy_event ∷ []);
    }
unfolding live_links
remove_last opens s l r busy file fewer gone =
    let s' : Daemon = record s { links = without l.serial s.links } in
    let p : Daemon = record s' { done = s.done ++ devices [] ∷ [] } in
    remove_step opens s l fewer
    ∙ ap (sync_uhid opens) (publish_none s' gone)
    ∙ sync_uhid_none opens p r busy file gone
    ∙ ap (λ es. record s' { generation = 0; file = false; done = es })
        (append_assoc (s.done ++ devices [] ∷ []) (told r r.pending) (uhid destroy_event ∷ [])
          ∙ append_assoc s.done (devices [] ∷ []) (told r r.pending ++ uhid destroy_event ∷ []))
