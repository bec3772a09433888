-- ===== src/Tests/Keys.antt =====
-- Registered keys.
use passkey.Base.{◌≡◌, refl, List, [], ◌∷◌, ◌++◌, some, same}
use passkey.Base.Text.{Text, codes, split, lines, strip_prefix, splitn}
use passkey.Base.Split.{Without-check}
use passkey.Base.Lines.{IsLine-check}
use passkey.Registry.{Store, handles_for, names_for}
use passkey.Registry.Stored.{IsUser, IsCredential, IsName, stored, root_store-stored}
use passkey.Registry.History.{
  Command, register, unregister, run, no_files, expected_all, handles_for-run,
}
use passkey.Registry.Names.{names_for-root_store}

abbrev me : Text
me = codes "me"

abbrev you : Text
you = codes "you"

me-IsUser : IsUser me
me-IsUser = record {
  line = IsLine-check me refl refl;
  no_colon = Without-check 58 me refl;
  no_tab = Without-check 9 me refl;
}

you-IsUser : IsUser you
you-IsUser = record {
  line = IsLine-check you refl refl;
  no_colon = Without-check 58 you refl;
  no_tab = Without-check 9 you refl;
}

abbrev old : Text
old = codes "AQ==,Ag==,es256,+presence"

abbrev new : Text
new = codes "Aw==,BA==,es256,+presence"

old-IsCredential : IsCredential old
unfolding split
old-IsCredential = record {
  line = IsLine-check old refl refl;
  no_colon = Without-check 58 old refl;
  no_tab = Without-check 9 old refl;
  handle = refl;
}

new-IsCredential : IsCredential new
unfolding split
new-IsCredential = record {
  line = IsLine-check new refl refl;
  no_colon = Without-check 58 new refl;
  no_tab = Without-check 9 new refl;
  handle = refl;
}

abbrev tablet : Text
tablet = codes "Tablet"

tablet-IsName : IsName tablet
tablet-IsName = record {
  line = IsLine-check tablet refl refl;
  no_tab = Without-check 9 tablet refl;
  full = refl;
}

abbrev history : List Command
history =
    register me old tablet
    ∷ register you old tablet
    ∷ register me new tablet
    ∷ unregister me (codes "AQ==")
    ∷ []

handles_for-run_example : handles_for me (run history no_files) ≡ expected_all me history []
handles_for-run_example = handles_for-run me history me-IsUser (
  (me-IsUser, old-IsCredential, tablet-IsName),
  (
    (you-IsUser, old-IsCredential, tablet-IsName),
    ((me-IsUser, new-IsCredential, tablet-IsName), (me-IsUser, tt)),
  ),
)

-- The user has one key left.
left_over : expected_all me history [] ≡ codes "Aw==" ∷ []
unfolding split same
left_over = refl

abbrev files : Store
files = record {
  keys = some (codes "me:AQ==,Ag==,es256,+presence\n");
  names = some (codes "me\tAQ==\tPixel\n");
}

names_for-root_store_example :
    names_for me (stored me new tablet files) ≡ names_for me files ++ tablet ∷ []
unfolding handles_for lines split strip_prefix same splitn
names_for-root_store_example =
    names_for-root_store me new tablet files (stored me new tablet files) me-IsUser new-IsCredential
      tablet-IsName (Without-check 13 (codes "me:AQ==,Ag==,es256,+presence\n") refl)
      (Without-check 13 (codes "me\tAQ==\tPixel\n") refl) (refl, tt) refl
      (root_store-stored me new tablet files new-IsCredential tablet-IsName)
