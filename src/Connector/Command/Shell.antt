-- ===== src/Connector/Command/Shell.antt =====
-- How a POSIX shell splits a command line into words, written without the code under test. The
-- reader takes no character outside quotes but small letters, and none inside double quotes that
-- the shell might expand.
use promptlens_v.Prelude.{
  ℕ, Chars, ◌≡◌, refl, sym, ap, ◌∙◌, ◌&&◌, ◌||◌, Option, none, some, List, [], ◌∷◌, ◌++◌, arith,
  ◌==◌, ℕ_eq, nat_eq_iff, leb, if◌then◌else◌,
}
use promptlens_v.Connector.Command.{Platform, replace_all, shell_quote, capture, capture_command}
use mathlib.Core.List.{append_assoc, append-nil}

data Quoting : Type 0 where
  between bare single double broken : Quoting

record Splitting : Type 0 where
  words : List Chars
  word : Chars
  quoting : Quoting

abbrev split_at : List Chars → Chars → Quoting → Splitting
split_at words word quoting = record { words = words; word = word; quoting = quoting }

-- Outside quotes, where a word has begun or not.
abbrev outside : ℕ → Splitting → Splitting → Splitting
outside c s space =
    if c == b'\''
    then split_at s.words s.word Quoting.single
    else if c == b'"'
    then split_at s.words s.word Quoting.double
    else if c == b' '
    then space
    else if leb b'a' c && leb c b'z'
    then split_at s.words (s.word ++ c ∷ []) Quoting.bare
    else split_at s.words s.word Quoting.broken

split_one : Quoting → ℕ → Splitting → Splitting
split_one Quoting.between c s = outside c s s
split_one Quoting.bare c s = outside c s (split_at (s.words ++ s.word ∷ []) [] Quoting.between)
split_one Quoting.single c s =
    if c == b'\''
    then split_at s.words s.word Quoting.bare
    else split_at s.words (s.word ++ c ∷ []) Quoting.single
split_one Quoting.double c s =
    if c == b'"'
    then split_at s.words s.word Quoting.bare
    else if c == b'$' || (c == b'`' || c == b'\\')
    then split_at s.words s.word Quoting.broken
    else split_at s.words (s.word ++ c ∷ []) Quoting.double
split_one Quoting.broken c s = s

split_on : Chars → Splitting → Splitting
split_on [] s = s
split_on (c ∷ t) s = split_on t (split_one s.quoting c s)

abbrev words_of : Quoting → Splitting → Option (List Chars)
words_of Quoting.between s = some s.words
words_of Quoting.bare s = some (s.words ++ s.word ∷ [])
words_of _ s = none

pub shell_words : Chars → Option (List Chars)
unfolding split_on
shell_words t = let s = split_on t (split_at [] [] Quoting.between) in words_of s.quoting s

split_on-append : (t u : Chars) (s : Splitting) → split_on (t ++ u) s ≡ split_on u (split_on t s)
unfolding split_on
split_on-append [] u s = refl
split_on-append (c ∷ t) u s = split_on-append t u (split_one s.quoting c s)

abbrev quote_text : Chars
quote_text = b'\'' ∷ b'"' ∷ b'\'' ∷ b'"' ∷ b'\'' ∷ []

module _ (words : List Chars) where
  split_on_quote :
      (t word : Chars)
      → split_on (quote_text ++ t) (split_at words word Quoting.single)
        ≡ split_on t (split_at words (word ++ b'\'' ∷ []) Quoting.single)
  unfolding split_on split_one
  split_on_quote t word = refl

  split_on-replace_all :
      (value word : Chars)
      → split_on (replace_all b'\'' quote_text value) (split_at words word Quoting.single)
        ≡ split_at words (word ++ value) Quoting.single
  unfolding split_on split_one replace_all
  split_on-replace_all [] word = ap (λ w. split_at words w Quoting.single) (sym (append-nil word))
  split_on-replace_all (c ∷ t) word =
      let e : word ++ c ∷ t ≡ (word ++ c ∷ []) ++ t = sym (append_assoc word (c ∷ []) t) in
      rw e (
        ground (
          arith,
          nat_eq_iff c b'\'',
          split_on-replace_all t (word ++ c ∷ []),
          split_on_quote (replace_all b'\'' quote_text t) word,
        ))

  -- A quoted value is one word, whatever it holds.
  split_on-shell_quote :
      (value : Chars)
      → split_on (shell_quote Platform.posix value) (split_at words [] Quoting.between)
        ≡ split_at words value Quoting.bare
  unfolding split_on split_one shell_quote
  split_on-shell_quote value =
      split_on-append (replace_all b'\'' quote_text value) (b'\'' ∷ [])
        (split_at words [] Quoting.single)
      ∙ ap (split_on (b'\'' ∷ [])) (split_on-replace_all value [])

  split_on_space :
      (t word : Chars)
      → split_on (b' ' ∷ t) (split_at words word Quoting.bare)
        ≡ split_on t (split_at (words ++ word ∷ []) [] Quoting.between)
  unfolding split_on split_one
  split_on_space t word = refl

-- A POSIX shell splits the command into three words, the path of node, the path of the program and
-- `capture`, whatever spaces and quotes the paths hold; nothing in it is expanded.
pub shell_words-capture_command :
    (exec_path cli : Chars)
    → shell_words (capture_command Platform.posix exec_path cli)
      ≡ some (exec_path ∷ cli ∷ capture ∷ [])
unfolding shell_words capture_command split_on split_one
shell_words-capture_command exec_path cli =
    let quoted = shell_quote Platform.posix cli in
    ap (λ s. words_of s.quoting s)
      (split_on-append (shell_quote Platform.posix exec_path) (b' ' ∷ (quoted ++ b' ' ∷ capture))
          (split_at [] [] Quoting.between)
        ∙ ap (split_on (b' ' ∷ (quoted ++ b' ' ∷ capture))) (split_on-shell_quote [] exec_path)
        ∙ split_on_space [] (quoted ++ b' ' ∷ capture) exec_path
        ∙ split_on-append quoted (b' ' ∷ capture) (split_at (exec_path ∷ []) [] Quoting.between)
        ∙ ap (split_on (b' ' ∷ capture)) (split_on-shell_quote (exec_path ∷ []) cli)
        ∙ split_on_space (exec_path ∷ []) capture cli)
