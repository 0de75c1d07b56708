-- ===== src/Console/Tokens.antt =====
-- components/app_console/console.c: the words of a line.
use osdp_reader_test_project.Common.{
  ℕ, zero, suc, ◌≤◌, ◌<◌, ◌≡◌, refl, ap, ap₂, sym, ◌∙◌, false, List, [], ◌∷◌, ◌++◌, length, arith,
  append-nil,
}
use osdp_reader_test_project.Common.Bytes.{All}
use osdp_reader_test_project.Text.{isspace, skip_spaces}
use osdp_reader_test_project.Console.{null, word, after_word, split_args}

-- A word: not empty, and without a space.
abbrev pub IsWord : List ℕ → Type 0
IsWord w = (0 < length w) × All (λ c. isspace c ≡ false) w

-- The words with a space after each but the last.
unfoldable pub join : List (List ℕ) → List ℕ
join [] = []
join (w ∷ []) = w
join (w ∷ ws) = w ++ (32 ∷ join ws)

skip_spaces-word : (w r : List ℕ) → IsWord w → skip_spaces (w ++ r) ≡ w ++ r
unfolding skip_spaces
skip_spaces-word [] r h = absurd (omega (arith, h.0))
skip_spaces-word (c ∷ cs) r h = rw (h.1.0) refl

alone : (c : ℕ) (cs : List ℕ) → IsWord (c ∷ cs) → skip_spaces (c ∷ cs) ≡ c ∷ cs
alone c cs h =
    ap skip_spaces (sym (append-nil (c ∷ cs)))
    ∙ skip_spaces-word (c ∷ cs) [] h
    ∙ append-nil (c ∷ cs)

word-space : (w r : List ℕ) → All (λ c. isspace c ≡ false) w → word (w ++ (32 ∷ r)) ≡ w
unfolding word isspace
word-space [] r h = refl
word-space (c ∷ cs) r h = rw h.0 (ap (λ x. c ∷ x) (word-space cs r h.1))

after_word-space :
    (w r : List ℕ) → All (λ c. isspace c ≡ false) w → after_word (w ++ (32 ∷ r)) ≡ 32 ∷ r
unfolding after_word isspace
after_word-space [] r h = refl
after_word-space (c ∷ cs) r h = rw h.0 (after_word-space cs r h.1)

skip_space : (r : List ℕ) → skip_spaces (32 ∷ r) ≡ skip_spaces r
unfolding skip_spaces isspace
skip_space r = refl

word_alone : (w : List ℕ) → All (λ c. isspace c ≡ false) w → (word w ≡ w) × (after_word w ≡ [])
unfolding word after_word
word_alone [] h = (refl, refl)
word_alone (c ∷ cs) h = let (e, q) = word_alone cs h.1 in rw h.0 (ap (λ x. c ∷ x) e, q)

split_args-space : (n : ℕ) (r : List ℕ) → split_args n (32 ∷ r) ≡ split_args n r
unfolding split_args skip_spaces isspace
split_args-space zero r = refl
split_args-space (suc zero) r = refl
split_args-space (suc (suc n)) r = refl

split_args-nil : (n : ℕ) → split_args n [] ≡ []
unfolding split_args skip_spaces null
split_args-nil zero = refl
split_args-nil (suc zero) = refl
split_args-nil (suc (suc n)) = refl

split_args-word :
    (n : ℕ) (line : List ℕ) (c : ℕ) (cs : List ℕ)
    → skip_spaces line ≡ c ∷ cs
    → split_args (suc (suc n)) line ≡ word (c ∷ cs) ∷ split_args (suc n) (after_word (c ∷ cs))
unfolding split_args null
split_args-word n line c cs e = rw e refl

split_args-last :
    (line : List ℕ) (c : ℕ) (cs : List ℕ)
    → skip_spaces line ≡ c ∷ cs
    → split_args 1 line ≡ (c ∷ cs) ∷ []
unfolding split_args null
split_args-last line c cs e = rw e refl

-- Words that are printed with a space between any two of them are the words of the line, if
-- there are no more of them than there is room for.
pub split_args-join :
    (n : ℕ) (ws : List (List ℕ)) → All IsWord ws → length ws ≤ n → split_args n (join ws) ≡ ws
unfolding join
split_args-join n [] h room = split_args-nil n
split_args-join n ([] ∷ ws) h room = absurd (omega (arith, h.0.0))
split_args-join zero ((c ∷ cs) ∷ ws) h room = absurd (omega arith)
split_args-join (suc zero) ((c ∷ cs) ∷ w ∷ ws) h room = absurd (omega arith)
split_args-join (suc zero) ((c ∷ cs) ∷ []) h room = split_args-last (c ∷ cs) c cs (alone c cs h.0)
split_args-join (suc (suc n)) ((c ∷ cs) ∷ []) h room =
    let (is_word, none_left) = word_alone (c ∷ cs) h.0.1 in
    split_args-word n (c ∷ cs) c cs (alone c cs h.0)
    ∙ ap₂ (λ w ws. w ∷ ws) is_word (ap (split_args (suc n)) none_left ∙ split_args-nil (suc n))
split_args-join (suc (suc n)) ((c ∷ cs) ∷ w ∷ ws) h room =
    let r = join (w ∷ ws) in
    split_args-word n ((c ∷ cs) ++ (32 ∷ r)) c (cs ++ (32 ∷ r))
      (skip_spaces-word (c ∷ cs) (32 ∷ r) h.0)
    ∙ ap₂ (λ w ws. w ∷ ws) (word-space (c ∷ cs) r h.0.1)
        (ap (split_args (suc n)) (after_word-space (c ∷ cs) r h.0.1)
          ∙ split_args-space (suc n) r
          ∙ split_args-join (suc n) (w ∷ ws) h.1 (omega (arith, room)))
