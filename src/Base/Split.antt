-- ===== src/Base/Split.antt =====
-- Laws of the parts of `str` that the program calls.
use passkey.Base.{
  ℕ, zero, suc, ◌≡◌, ◌≢◌, refl, ap, ◌∙◌, false, List, [], ◌∷◌, ◌++◌, some, ◌==◌, ==_ne, ==_self,
  All, any, arith, replicate,
}
use passkey.Base.Text.{
  Text, split, split_once, lines, close_lines, strip_return, strip_prefix, join, trim, trim_start,
  trim_end, is_whitespace,
}

-- `split` undoes `join` where no part has the separator.
abbrev pub Without : ℕ → Text → Type 0
Without sep t = All (λ c. c ≢ sep) t

pub split-nil : (sep : ℕ) (t : Text) → Without sep t → split sep t ≡ t ∷ []
unfolding split
split-nil sep [] h = refl
split-nil sep (c ∷ t) h = rw (==_ne c sep h.0, split-nil sep t h.1)

pub split-append :
    (sep : ℕ) (t rest : Text) → Without sep t → split sep (t ++ sep ∷ rest) ≡ t ∷ split sep rest
unfolding split
split-append sep [] rest h = rw (==_self sep)
split-append sep (c ∷ t) rest h = rw (==_ne c sep h.0, split-append sep t rest h.1)

pub split-join :
    (sep : ℕ) (t : Text) (ts : List Text)
    → All (Without sep) (t ∷ ts)
    → split sep (join (sep ∷ []) (t ∷ ts)) ≡ t ∷ ts
unfolding join
split-join sep t [] h = split-nil sep t h.0
split-join sep t (u ∷ us) h =
    split-append sep t (join (sep ∷ []) (u ∷ us)) h.0 ∙ ap (λ rs. t ∷ rs) (split-join sep u us h.1)

pub Without-append : (sep : ℕ) (s t : Text) → Without sep s → Without sep t → Without sep (s ++ t)
Without-append sep [] t h k = k
Without-append sep (c ∷ s) t h k = (h.0, Without-append sep s t h.1 k)

pub Without-replicate : (sep n c : ℕ) → c ≢ sep → Without sep (replicate n c)
Without-replicate sep zero c h = tt
Without-replicate sep (suc n) c h = (h, Without-replicate sep n c h)

pub Without-join :
    (sep c : ℕ) (ts : List Text) → c ≢ sep → All (Without sep) ts → Without sep (join (c ∷ []) ts)
unfolding join
Without-join sep c [] h k = tt
Without-join sep c (t ∷ []) h k = k.0
Without-join sep c (t ∷ u ∷ ts) h k =
    Without-append sep t (c ∷ join (c ∷ []) (u ∷ ts)) k.0 (h, Without-join sep c (u ∷ ts) h k.1)

pub strip-append : (p s : Text) → strip_prefix p (p ++ s) ≡ some s
unfolding strip_prefix
strip-append [] s = refl
strip-append (c ∷ p) s = rw (==_self c) (strip-append p s)

pub Without-check : (sep : ℕ) (t : Text) → any (λ c. c == sep) t ≡ false → Without sep t
Without-check sep [] h = tt
Without-check sep (c ∷ t) h = ground (arith, Without-check sep t)

-- `split_once` at the first separator.
pub split_once-append :
    (sep : ℕ) (t r : Text) → Without sep t → split_once sep (t ++ sep ∷ r) ≡ some (t, r)
unfolding split_once
split_once-append sep [] r h = rw (==_self sep)
split_once-append sep (c ∷ t) r h = rw (==_ne c sep h.0, split_once-append sep t r h.1)

-- Lines behind each other.
abbrev pub unlines : List Text → Text
unlines [] = []
unlines (l ∷ ls) = l ++ 10 ∷ unlines ls

split-unlines : (ls : List Text) → All (Without 10) ls → split 10 (unlines ls) ≡ ls ++ [] ∷ []
split-unlines [] h = split-nil 10 [] tt
split-unlines (l ∷ ls) h =
    split-append 10 l (unlines ls) h.0 ∙ ap (λ rs. l ∷ rs) (split-unlines ls h.1)

strip_return-Without : (t : Text) → Without 13 t → strip_return t ≡ t
strip_return-Without [] h = refl
strip_return-Without (c ∷ []) h = rw (==_ne c 13 h.0)
strip_return-Without (c ∷ d ∷ t) h = ap (λ r. c ∷ r) (strip_return-Without (d ∷ t) h.1)

close_lines-cons :
    (l m : Text) (ms : List Text) → close_lines (l ∷ m ∷ ms) ≡ strip_return l ∷ close_lines (m ∷ ms)
close_lines-cons [] m ms = refl
close_lines-cons (c ∷ l) m ms = refl

close_lines-append : (ls : List Text) → All (Without 13) ls → close_lines (ls ++ [] ∷ []) ≡ ls
close_lines-append [] h = refl
close_lines-append (l ∷ []) h =
    close_lines-cons l [] [] ∙ ap (λ t. t ∷ []) (strip_return-Without l h.0)
close_lines-append (l ∷ m ∷ ms) h =
    close_lines-cons l m (ms ++ [] ∷ [])
    ∙ ap (λ t. t ∷ close_lines (m ∷ (ms ++ [] ∷ []))) (strip_return-Without l h.0)
    ∙ ap (λ ts. l ∷ ts) (close_lines-append (m ∷ ms) h.1)

-- `str::lines` gives the lines back.
pub lines-unlines :
    (ls : List Text) → All (Without 10) ls → All (Without 13) ls → lines (unlines ls) ≡ ls
unfolding lines
lines-unlines ls h k = ap close_lines (split-unlines ls h) ∙ close_lines-append ls k

-- A text without whitespace is trimmed already.
trim_end-id : (t : Text) → All (λ c. is_whitespace c ≡ false) t → trim_end t ≡ t
unfolding trim_end
trim_end-id [] h = refl
trim_end-id (c ∷ []) h = rw (h.0)
trim_end-id (c ∷ d ∷ t) h = rw (trim_end-id (d ∷ t) h.1, trim_end)

pub trim-id : (t : Text) → All (λ c. is_whitespace c ≡ false) t → trim t ≡ t
unfolding trim trim_start
trim-id [] h = trim_end-id [] h
trim-id (c ∷ t) h = rw (h.0) (trim_end-id (c ∷ t) h)
