-- ===== src/Registry/Lines.antt =====
-- The lines of the two files of the registry: what is read back after a file has been written.
use passkey.Base.{All-filter, ◌≡◌, refl, ap, ◌∙◌, not, List, [], ◌∷◌, ◌++◌, filter, All}
use passkey.Base.Text.{Text, lines}
use passkey.Base.Split.{unlines}
use passkey.Hid.{is_empty}
use passkey.Base.Lines.{IsLine, lines-unlines_lem}
use passkey.Registry.{lines_file}

-- The lines that a file keeps.
abbrev pub written : List Text → List Text
written ls = filter (λ line. not (is_empty line)) ls

pub lines_file-unlines : (ls : List Text) → lines_file ls ≡ unlines (written ls)
unfolding lines_file
lines_file-unlines [] = refl
lines_file-unlines ([] ∷ ls) = lines_file-unlines ls
lines_file-unlines ((c ∷ l) ∷ ls) = ap (λ t. (c ∷ l) ++ 10 ∷ t) (lines_file-unlines ls)

pub lines-lines_file : (ls : List Text) → All IsLine ls → lines (lines_file ls) ≡ written ls
lines-lines_file ls h =
    ap lines (lines_file-unlines ls)
    ∙ lines-unlines_lem (written ls) (All-filter IsLine (λ line. not (is_empty line)) ls h)
