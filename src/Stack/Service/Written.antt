-- ===== src/Stack/Service/Written.antt =====
-- The lines that `pam_add` writes are read back as they are.
use passkey.Base.{
  append_assoc, if◌then◌else◌, ◌≡◌, refl, sym, ap, ◌∙◌, Bool, true, false, List, [], ◌∷◌, ◌++◌,
  some, subst, same, All, any, Bool-cases, inl, inr,
}
use passkey.Base.Text.{Text, codes, lines, join}
use passkey.Base.Split.{unlines}
use passkey.Base.Lines.{IsLine, IsLine-append, IsLine-check, lines-unlines_lem}
use passkey.Stack.{mark, keys_path, on_empty, pam_line, add, add_loop, pop_mark, rev_append}
use passkey.Stack.Loop.{Added, add_loop-Added, add_loop_end, has}
use passkey.Stack.Undo.{added_output, has-output}
use passkey.Stack.Service.{joined}

pub joined-unlines : (l : Text) (ls : List Text) → joined (l ∷ ls) ≡ unlines (l ∷ ls)
unfolding join
joined-unlines l [] = refl
joined-unlines l (m ∷ ms) =
    append_assoc l (codes "\n" ++ join (codes "\n") (m ∷ ms)) (codes "\n")
    ∙ ap (λ r. l ++ 10 ∷ r) (joined-unlines m ms)

mark-IsLine : IsLine mark
mark-IsLine = IsLine-check mark refl refl

pub pam_line-IsLine :
    (hostname : Text) (takes_password : Bool) (service : Text)
    → IsLine hostname
    → IsLine (pam_line hostname takes_password service)
unfolding pam_line
pam_line-IsLine hostname takes_password service h = by_module takes_password
  where
    origin : Text
    origin = codes "pam://" ++ hostname

    origin_line : IsLine origin
    origin_line =
        IsLine-append (codes "pam://") hostname (IsLine-check (codes "pam://") refl refl) h

    mode_line : (b : Bool) → IsLine (if b then codes "on-empty" else codes "parallel")
    mode_line true = IsLine-check (codes "on-empty") refl refl
    mode_line false = IsLine-check (codes "parallel") refl refl

    tail : Text
    tail = codes " userverification=1 nouserok"

    appid : Text
    appid = codes " appid=" ++ (origin ++ tail)

    appid_line : IsLine appid
    appid_line =
        IsLine-append (codes " appid=") (origin ++ tail) (IsLine-check (codes " appid=") refl refl)
          (IsLine-append origin tail origin_line (IsLine-check tail refl refl))

    keys : Text
    keys = keys_path ++ (codes " origin=" ++ (origin ++ appid))

    keys_line : IsLine keys
    keys_line =
        IsLine-append keys_path (codes " origin=" ++ (origin ++ appid))
          (IsLine-check keys_path refl refl)
          (IsLine-append (codes " origin=") (origin ++ appid)
            (IsLine-check (codes " origin=") refl refl)
            (IsLine-append origin appid origin_line appid_line))

    u2f : Text
    u2f = codes "authfile=" ++ keys

    u2f_line : IsLine u2f
    u2f_line =
        IsLine-append (codes "authfile=") keys (IsLine-check (codes "authfile=") refl refl)
          keys_line

    mode : Text
    mode = if any (same service) on_empty then codes "on-empty" else codes "parallel"

    start : Text
    start = codes "-auth      sufficient   pam_passkey.so mode="

    start_u2f : Text
    start_u2f = codes "-auth      sufficient   pam_u2f.so "

    cue : Text
    cue =
        codes
          " cue [cue_prompt=Confirm with your fingerprint on your device, or reject there to type your password]"

    by_module : (b : Bool) → IsLine (pam_line hostname b service)
    by_module true =
        IsLine-append start (mode ++ (codes " " ++ u2f)) (IsLine-check start refl refl) (
          IsLine-append mode (codes " " ++ u2f) (mode_line (any (same service) on_empty))
            (IsLine-append (codes " ") u2f (IsLine-check (codes " ") refl refl) u2f_line))
    by_module false =
        IsLine-append start_u2f (u2f ++ cue) (IsLine-check start_u2f refl refl)
          (IsLine-append u2f cue u2f_line (IsLine-check cue refl refl))

-- Every line of the output is one of the input, the mark or the line that is wanted.
pop_mark-All : (output : List Text) → All IsLine output → All IsLine (pop_mark output)
pop_mark-All [] h = tt
pop_mark-All (line ∷ output) h = elim (Bool-cases (same line mark)) [
  | inl e ↦ rw e (h.1)
  | inr e ↦ rw e h
]

add_loop-IsLine :
    (wanted : Text) (input output : List Text) (inserted : Bool)
    → IsLine wanted
    → All IsLine input
    → All IsLine output
    → All IsLine (add_loop wanted output inserted input).0
add_loop-IsLine wanted [] output inserted w h k =
    subst (All IsLine) (sym (add_loop_end wanted output inserted).0) k
add_loop-IsLine wanted (line ∷ input) output inserted w h k =
    let (output', inserted', e, a) = add_loop-Added wanted line output inserted input in
    subst (λ r. All IsLine r.0) (sym e)
      (add_loop-IsLine wanted input output' inserted' w h.1 (added output' inserted' a))
  where
    added :
        (output' : List Text) (inserted' : Bool)
        → Added wanted line output inserted output' inserted'
        → All IsLine output'
    added output' inserted' (Added.copied o i) = subst (All IsLine) (sym o) (h.0, k)
    added output' inserted' (Added.dropped u o i j) = subst (All IsLine) (sym o) k
    added output' inserted' (Added.replaced u o j) = subst (All IsLine) (sym o) (w, k)
    added output' inserted' (Added.placed u o i j) =
        subst (All IsLine) (sym o) (h.0, (w, (mark-IsLine, pop_mark-All output k)))

rev_append-IsLine :
    (xs ys : List Text) → All IsLine xs → All IsLine ys → All IsLine (rev_append xs ys)
rev_append-IsLine [] ys h k = k
rev_append-IsLine (x ∷ xs) ys h k = rev_append-IsLine xs (x ∷ ys) h.1 (h.0, k)

-- A successful addition gives lines, one at least.
add-lines :
    (wanted : Text) (input out : List Text)
    → IsLine wanted
    → All IsLine input
    → add wanted input ≡ some out
    → All IsLine out
add-lines wanted input out w h e =
    let end = added_output wanted input out e in
    subst (All IsLine) end.1 (
      rev_append-IsLine (add_loop wanted [] false input).0 []
        (add_loop-IsLine wanted input [] false w h tt) tt)

-- What is written is read back.
lines-joined : (l : Text) (ls : List Text) → All IsLine (l ∷ ls) → lines (joined (l ∷ ls)) ≡ l ∷ ls
lines-joined l ls h = ap lines (joined-unlines l ls) ∙ lines-unlines_lem (l ∷ ls) h

pub lines-added :
    (wanted : Text) (input out : List Text)
    → IsLine wanted
    → All IsLine input
    → add wanted input ≡ some out
    → lines (joined out) ≡ out
lines-added wanted input [] w h e = absurd (not_nil (has-output wanted input [] e))
  where
    not_nil : has wanted [] ≡ true → ⊥
    not_nil q = cc q
lines-added wanted input (l ∷ ls) w h e = lines-joined l ls (add-lines wanted input (l ∷ ls) w h e)
