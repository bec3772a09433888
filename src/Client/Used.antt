-- ===== src/Client/Used.antt =====
-- The choice that `root_use` writes is the one that the daemon reads.
use passkey.Base.{
  ℕ, ◌^◌, ◌<◌, ◌≡◌, ◌≢◌, refl, sym, ap, ◌∙◌, Bool, true, false, List, [], ◌∷◌, ◌++◌, Option, none,
  some, if◌then◌else◌, append_assoc, append-nil, All, arith,
}
use mathlib.Core.Option.{some-injective}
use passkey.Base.Text.{
  Text, codes, is_whitespace, close_word, words_from, split_whitespace, parse_u32,
}
use passkey.Base.Decimal.{decimal, IsDigit, decimal-digits, decimal-ne-nil, parse_unsigned-decimal}
use passkey.Rounds.{if_running, chosen_fields, chosen_device}
use passkey.Client.{root_use}

abbrev pub IsWord : Text → Type 0
IsWord t = All (λ c. is_whitespace c ≡ false) t

-- A word up to whitespace.
words_from-append :
    (word t : Text) (c : ℕ) (rest : Text)
    → IsWord t
    → is_whitespace c ≡ true
    → words_from word (t ++ c ∷ rest) ≡ close_word (word ++ t) (words_from [] rest)
unfolding words_from
words_from-append word [] c rest h e =
    rw e (ap (λ w. close_word w (words_from [] rest)) (sym (append-nil word)))
words_from-append word (d ∷ t) c rest h e = rw (h.0) (
    words_from-append (word ++ d ∷ []) t c rest h.1 e
    ∙ ap (λ w. close_word w (words_from [] rest)) (append_assoc word (d ∷ []) t))

close_word_full : (t : Text) (ws : List Text) → t ≢ [] → close_word t ws ≡ t ∷ ws
close_word_full [] ws h = absurd (h refl)
close_word_full (c ∷ t) ws h = refl

digit_not_white : (c : ℕ) → IsDigit c → is_whitespace c ≡ false
unfolding is_whitespace
digit_not_white c h = ground arith

digits-IsWord : (t : Text) → All IsDigit t → IsWord t
digits-IsWord [] h = tt
digits-IsWord (c ∷ t) h = (digit_not_white c h.0, digits-IsWord t h.1)

white_space : is_whitespace 32 ≡ true
unfolding is_whitespace
white_space = refl

white_end : is_whitespace 10 ≡ true
unfolding is_whitespace
white_end = refl

no_words : words_from [] [] ≡ []
unfolding words_from
no_words = refl

split_whitespace-line :
    (s t : Text)
    → IsWord s
    → s ≢ []
    → IsWord t
    → t ≢ []
    → split_whitespace (s ++ (codes " " ++ (t ++ codes "\n"))) ≡ s ∷ t ∷ []
unfolding split_whitespace
split_whitespace-line s t h n k m =
    words_from-append [] s 32 (t ++ codes "\n") h white_space
    ∙ close_word_full s (words_from [] (t ++ codes "\n")) n
    ∙ ap (λ ws. s ∷ ws)
        (words_from-append [] t 10 [] k white_end
          ∙ ap (close_word t) no_words
          ∙ close_word_full t [] m)

-- From the file that root writes for a device without whitespace and a process, the daemon takes
-- this device while the process lives, and none when it is gone.
pub chosen_device-root_use :
    (exists : ℕ → Bool) (device : Text) (pid : ℕ) (content : Option Text)
    → IsWord device
    → device ≢ []
    → pid < 2 ^ 32
    → root_use (some device) (some (decimal pid)) ≡ some content
    → chosen_device content exists ≡ (if exists pid then some device else none)
unfolding root_use chosen_device parse_u32
chosen_device-root_use exists device pid none h n k e = cc e
chosen_device-root_use exists device pid (some content) h n k e =
    ap (λ t. chosen_fields exists (split_whitespace t)) (sym (content_is e))
    ∙ ap (chosen_fields exists) (
        split_whitespace-line device (decimal pid) h n
          (digits-IsWord (decimal pid) (decimal-digits pid)) (decimal-ne-nil pid))
    ∙ ap (if_running exists device) (parse_unsigned-decimal (2 ^ 32) pid k)
  where
    content_is :
        root_use (some device) (some (decimal pid)) ≡ some (some content)
        → device ++ (codes " " ++ (decimal pid ++ codes "\n")) ≡ content
    content_is e = some-injective _ content (some-injective _ (some content) e)
