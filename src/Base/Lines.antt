-- ===== src/Base/Lines.antt =====
-- The lines of a text: what `str::lines` and `str::split` can give.
use passkey.Base.{
  ℕ, ◌≡◌, false, List, [], ◌∷◌, ◌++◌, ◌==◌, ne_of_==_false, All, All-both, All-split, Bool-cases,
  inl, inr, any,
}
use passkey.Base.Text.{Text, extend, split, lines, close_lines, strip_return}
use passkey.Base.Split.{Without, Without-append, Without-check, unlines, lines-unlines}

-- Lines that a file gives back: without a line end inside.
abbrev pub IsLine : Text → Type 0
IsLine t = Without 10 t × Without 13 t

pub lines-unlines_lem : (ls : List Text) → All IsLine ls → lines (unlines ls) ≡ ls
lines-unlines_lem ls h =
    let k = All-split (Without 10) (Without 13) ls h in lines-unlines ls k.0 k.1

-- The lines that are read from a file without carriage returns.
pub split-Without : (sep c : ℕ) (t : Text) → Without c t → All (Without c) (split sep t)
unfolding split
split-Without sep c [] h = (tt, tt)
split-Without sep c (d ∷ t) h = elim (Bool-cases (d == sep)) [
  | inl e ↦ rw e (tt, split-Without sep c t h.1)
  | inr e ↦ rw e (extended (split sep t) (split-Without sep c t h.1))
]
  where
    extended : (ts : List Text) → All (Without c) ts → All (Without c) (extend d ts)
    extended [] k = ((h.0, tt), tt)
    extended (u ∷ us) k = ((h.0, k.0), k.1)

pub split_self : (sep : ℕ) (t : Text) → All (Without sep) (split sep t)
unfolding split
split_self sep [] = (tt, tt)
split_self sep (d ∷ t) = elim (Bool-cases (d == sep)) [
  | inl e ↦ rw e (tt, split_self sep t)
  | inr e ↦ rw e (extended e (split sep t) (split_self sep t))
]
  where
    extended :
        (d == sep) ≡ false
        → (ts : List Text) → All (Without sep) ts
        → All (Without sep) (extend d ts)
    extended e [] k = ((ne_of_==_false d sep e, tt), tt)
    extended e (u ∷ us) k = ((ne_of_==_false d sep e, k.0), k.1)

strip_return-keeps : (c : ℕ) (t : Text) → Without c t → Without c (strip_return t)
strip_return-keeps c [] h = tt
strip_return-keeps c (d ∷ []) h = elim (Bool-cases (d == 13)) [
  | inl e ↦ rw e tt
  | inr e ↦ rw e (h.0, tt)
]
strip_return-keeps c (d ∷ e ∷ t) h = (h.0, strip_return-keeps c (e ∷ t) h.1)

close_lines-keeps : (c : ℕ) (ts : List Text) → All (Without c) ts → All (Without c) (close_lines ts)
close_lines-keeps c [] h = tt
close_lines-keeps c ([] ∷ []) h = tt
close_lines-keeps c ((d ∷ t) ∷ []) h = h
close_lines-keeps c ([] ∷ u ∷ us) h = (tt, close_lines-keeps c (u ∷ us) h.1)
close_lines-keeps c ((d ∷ t) ∷ u ∷ us) h =
    (strip_return-keeps c (d ∷ t) h.0, close_lines-keeps c (u ∷ us) h.1)

pub lines-IsLine : (t : Text) → Without 13 t → All IsLine (lines t)
unfolding lines
lines-IsLine t h =
    All-both (Without 10) (Without 13) (lines t)
      (close_lines-keeps 10 (split 10 t) (split_self 10 t))
      (close_lines-keeps 13 (split 10 t) (split-Without 10 13 t h))

pub IsLine-append : (s t : Text) → IsLine s → IsLine t → IsLine (s ++ t)
IsLine-append s t h k = (Without-append 10 s t h.0 k.0, Without-append 13 s t h.1 k.1)

pub IsLine-check :
    (t : Text) → any (λ c. c == 10) t ≡ false → any (λ c. c == 13) t ≡ false → IsLine t
IsLine-check t h k = (Without-check 10 t h, Without-check 13 t k)
