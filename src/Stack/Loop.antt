-- ===== src/Stack/Loop.antt =====
-- What the loop of `pam_add` does to the lines.
use passkey.Base.{
  ◌≡◌, refl, sym, ap, ◌∙◌, Bool, true, false, not, ◌&&◌, ◌||◌, List, [], ◌∷◌, same, same_self,
  same→eq, any, filter, arith, Bool-cases, inl, inr,
}
use passkey.Base.Text.{Text, contains}
use passkey.Stack.{mark, is_ours, is_auth, is_guard, pop_mark, add_loop, rev_append, pam_line}

-- The lines that are not ours.
abbrev pub kept : List Text → List Text
kept ls = filter (λ line. not (is_ours line)) ls

mark_ours : is_ours mark ≡ true
unfolding is_ours same
mark_ours = refl

pub line_ours :
    (hostname : Text) (takes_password : Bool) (service : Text)
    → is_ours (pam_line hostname takes_password service) ≡ true
unfolding is_ours pam_line contains same
line_ours hostname true service = ground arith
line_ours hostname false service = ground arith

pub or_true : (a : Bool) → (a || true) ≡ true
or_true true = refl
or_true false = refl

pub or_swap : (a b c : Bool) → (b || (a || c)) ≡ ((a || b) || c)
or_swap true true c = refl
or_swap true false c = refl
or_swap false true c = refl
or_swap false false c = refl

kept-pop_mark : (output : List Text) → kept (pop_mark output) ≡ kept output
kept-pop_mark [] = refl
kept-pop_mark (line ∷ output) = elim (Bool-cases (same line mark)) [
  | inl e ↦ rw (e, ap is_ours (same→eq line mark e) ∙ mark_ours)
  | inr e ↦ rw e
]

kept-ours : (line : Text) (ls : List Text) → is_ours line ≡ true → kept (line ∷ ls) ≡ kept ls
kept-ours line ls h = rw h

pub kept-other :
    (line : Text) (ls : List Text) → is_ours line ≡ false → kept (line ∷ ls) ≡ line ∷ kept ls
kept-other line ls h = rw h

-- What one line does to the output.
pub data Added (wanted line : Text) (output : List Text) (inserted : Bool) (output' : List Text)
    (inserted' : Bool) : Type 0 where
  copied :
      output' ≡ line ∷ output
      → inserted' ≡ inserted
      → Added wanted line output inserted output' inserted'
  dropped :
      is_ours line ≡ true
      → output' ≡ output
      → inserted ≡ true
      → inserted' ≡ true
      → Added wanted line output inserted output' inserted'
  replaced :
      is_ours line ≡ true
      → output' ≡ wanted ∷ output
      → inserted' ≡ true
      → Added wanted line output inserted output' inserted'
  placed :
      is_ours line ≡ false
      → output' ≡ line ∷ wanted ∷ mark ∷ pop_mark output
      → inserted ≡ false
      → inserted' ≡ true
      → Added wanted line output inserted output' inserted'

pub add_loop-Added :
    (wanted line : Text) (output : List Text) (inserted : Bool) (input : List Text)
    → (output' : List Text) × (inserted' : Bool) × (add_loop wanted output inserted (line ∷ input)
        ≡ add_loop wanted output' inserted' input)
      × Added wanted line output inserted output' inserted'
unfolding add_loop
add_loop-Added wanted line output inserted input = elim (Bool-cases (same line mark)) [
  | inl e ↦ (line ∷ output, inserted, at_mark e, copied refl refl)
  | inr e ↦ elim (Bool-cases (is_ours line)) [
    | inl o ↦ elim (Bool-cases inserted) [
      | inl i ↦ (output, true, again e o i, dropped o refl i refl)
      | inr i ↦ (wanted ∷ output, true, first e o i, replaced o refl refl)
    ]
    | inr o ↦ elim (Bool-cases (not inserted && (is_auth line && not (is_guard line)))) [
      | inl a ↦ (
        line ∷ wanted ∷ mark ∷ pop_mark output,
        true,
        before e o a,
        placed o refl (ground arith) refl,
      )
      | inr a ↦ (line ∷ output, inserted, other e o a, copied refl refl)
    ]
  ]
]
  where
    at_mark :
        same line mark ≡ true
        → add_loop wanted output inserted (line ∷ input)
          ≡ add_loop wanted (line ∷ output) inserted input
    at_mark e = rw e

    again :
        same line mark ≡ false
        → is_ours line ≡ true
        → inserted ≡ true
        → add_loop wanted output inserted (line ∷ input) ≡ add_loop wanted output true input
    again e o i = rw (e, o, i)

    first :
        same line mark ≡ false
        → is_ours line ≡ true
        → inserted ≡ false
        → add_loop wanted output inserted (line ∷ input)
          ≡ add_loop wanted (wanted ∷ output) true input
    first e o i = rw (e, o, i)

    before :
        same line mark ≡ false
        → is_ours line ≡ false
        → (not inserted && (is_auth line && not (is_guard line))) ≡ true
        → add_loop wanted output inserted (line ∷ input)
          ≡ add_loop wanted (line ∷ wanted ∷ mark ∷ pop_mark output) true input
    before e o a = rw (e, o, a)

    other :
        same line mark ≡ false
        → is_ours line ≡ false
        → (not inserted && (is_auth line && not (is_guard line))) ≡ false
        → add_loop wanted output inserted (line ∷ input)
          ≡ add_loop wanted (line ∷ output) inserted input
    other e o a = rw (e, o, a)

pub add_loop_end :
    (wanted : Text) (output : List Text) (inserted : Bool)
    → ((add_loop wanted output inserted []).0 ≡ output)
      × ((add_loop wanted output inserted []).1 ≡ inserted)
unfolding add_loop
add_loop_end wanted output inserted = (refl, refl)

-- What is kept of the output is what is kept of the input.
pub kept-add_loop :
    (wanted : Text) (input output : List Text) (inserted : Bool)
    → is_ours wanted ≡ true
    → kept (add_loop wanted output inserted input).0 ≡ rev_append (kept input) (kept output)
kept-add_loop wanted [] output inserted h = ap kept (add_loop_end wanted output inserted).0
kept-add_loop wanted (line ∷ input) output inserted h =
    let (output', inserted', e, a) = add_loop-Added wanted line output inserted input in
    ap (λ r. kept r.0) e
    ∙ kept-add_loop wanted input output' inserted' h
    ∙ added line output output' inserted inserted' a
  where
    added :
        (line : Text) (output output' : List Text) (inserted inserted' : Bool)
        → Added wanted line output inserted output' inserted'
        → rev_append (kept input) (kept output') ≡ rev_append (kept (line ∷ input)) (kept output)
    added line output output' inserted inserted' (copied o i) = elim (Bool-cases (is_ours line)) [
      | inl u ↦ rw (o, kept-ours line output u, kept-ours line input u)
      | inr u ↦ rw (o, kept-other line output u, kept-other line input u)
    ]
    added line output output' inserted inserted' (dropped u o i j) = rw (o, kept-ours line input u)
    added line output output' inserted inserted' (replaced u o j) =
        rw (o, kept-ours wanted output h, kept-ours line input u)
    added line output output' inserted inserted' (placed u o i j) = rw (
      o,
      kept-other line (wanted ∷ mark ∷ pop_mark output) u,
      kept-ours wanted (mark ∷ pop_mark output) h,
      kept-ours mark (pop_mark output) mark_ours,
      kept-pop_mark output,
      kept-other line input u,
    )

abbrev pub has : Text → List Text → Bool
has wanted ls = any (λ line. same line wanted) ls

-- If the line was inserted it is among the output.
pub has-add_loop :
    (wanted : Text) (input output : List Text) (inserted : Bool)
    → (inserted ≡ true → has wanted output ≡ true)
    → (add_loop wanted output inserted input).1 ≡ true
    → has wanted (add_loop wanted output inserted input).0 ≡ true
has-add_loop wanted [] output inserted k h =
    ap (has wanted) (add_loop_end wanted output inserted).0
    ∙ k (sym (add_loop_end wanted output inserted).1 ∙ h)
has-add_loop wanted (line ∷ input) output inserted k h =
    let (output', inserted', e, a) = add_loop-Added wanted line output inserted input in
    ap (λ r. has wanted r.0) e
    ∙ has-add_loop wanted input output' inserted' (added line output output' inserted inserted' k a)
        (sym (ap (λ r. r.1) e) ∙ h)
  where
    added :
        (line : Text) (output output' : List Text) (inserted inserted' : Bool)
        → (inserted ≡ true → has wanted output ≡ true)
        → Added wanted line output inserted output' inserted'
        → inserted' ≡ true
        → has wanted output' ≡ true
    added line output output' inserted inserted' k (copied o i) t =
        rw (o, k (sym i ∙ t)) (or_true (same line wanted))
    added line output output' inserted inserted' k (dropped u o i j) t = rw (o) (k i)
    added line output output' inserted inserted' k (replaced u o j) t =
        rw (o, same_self wanted) refl
    added line output output' inserted inserted' k (placed u o i j) t =
        rw (o, same_self wanted) (or_true (same line wanted))
