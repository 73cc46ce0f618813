-- ===== src/Service/Quoting.antt =====
-- The words of an `ExecStart=` line, read by a part of systemd's rule, without its expansion of `%`
-- and `$`: between double quotes, a backslash
-- escapes the character after it; a blank separates two words.
use signedpulse.Base.{
  flat-ext, flat-flat, replace_one, flat, ℕ, zero, suc, ◌≡◌, refl, ap, ◌∙◌, Bool, true, false,
  Option, none, some, List, [], ◌∷◌, ◌++◌, map, arith, ◌==◌, if◌then◌else◌, length, drop, Bytes,
  nat_key, bytes_key, ip_key, append_assoc,
}
use signedpulse.Service.{systemd_quote, exec_line, without_control}

-- A character put in front of a word that is read.
abbrev pushed : ℕ → Option (Bytes × Bytes) → Option (Bytes × Bytes)
pushed c none = none
pushed c (some (word, rest)) = some (c ∷ word, rest)

-- The rest of a quoted word, after a backslash or not, and what follows its closing quote.
read_quoted : Bool → Bytes → Option (Bytes × Bytes)
read_quoted escaped [] = none
read_quoted true (c ∷ cs) = pushed c (read_quoted false cs)
read_quoted false (c ∷ cs) =
    let after_backslash = read_quoted true cs in
    let next = read_quoted false cs in
    if c == 34 then some ([], cs) else if c == 92 then after_backslash else pushed c next

abbrev open_word : Bytes → Option (Bytes × Bytes)
open_word [] = none
open_word (c ∷ cs) = if c == 34 then read_quoted false cs else none

-- The words, where `rest` follows the first of them and `more` are those after a blank.
abbrev joined : Bytes → Bytes → Option (List Bytes) → Option (List Bytes)
joined word [] more = some (word ∷ [])
joined word (c ∷ rest) none = none
joined word (c ∷ rest) (some more) = if c == 32 then some (word ∷ more) else none

-- At most `n` words.
unfoldable pub parse_words : ℕ → Bytes → Option (List Bytes)
unfolding read_quoted
parse_words zero text = none
parse_words (suc n) text = elim (open_word text) [
  | none ↦ none
  | some (word, rest) ↦ joined word rest (parse_words n (drop 1 rest))
]

abbrev pub escaped : ℕ → Bytes
escaped c = if c == 92 then 92 ∷ 92 ∷ [] else if c == 34 then 92 ∷ 34 ∷ [] else c ∷ []

twice :
    (c : ℕ)
    → flat
        (λ d. if 34 == d then 92 ∷ 34 ∷ [] else d ∷ [])
        (if 92 == c then 92 ∷ 92 ∷ [] else c ∷ [])
      ≡ escaped c
unfolding flat
twice c = ground arith

pub quote_lem : (s : Bytes) → systemd_quote s ≡ 34 ∷ flat escaped (without_control s) ++ 34 ∷ []
unfolding systemd_quote
quote_lem s = rw (replace_one 92 (92 ∷ 92 ∷ []) (without_control s)) (
    rw
      (replace_one 34 (92 ∷ 34 ∷ [])
        (flat (λ c. if 92 == c then 92 ∷ 92 ∷ [] else c ∷ []) (without_control s)))
      (ap (λ x. 34 ∷ x ++ 34 ∷ [])
        (flat-flat (λ c. if 92 == c then 92 ∷ 92 ∷ [] else c ∷ [])
            (λ d. if 34 == d then 92 ∷ 34 ∷ [] else d ∷ []) (without_control s)
          ∙ flat-ext _ escaped (without_control s) twice)))

read_escaped : (s rest : Bytes) → read_quoted false (flat escaped s ++ 34 ∷ rest) ≡ some (s, rest)
unfolding read_quoted flat
read_escaped [] rest = refl
read_escaped (c ∷ cs) rest = ground (arith, read_escaped cs rest)

open_quoted :
    (s rest : Bytes) → open_word (systemd_quote s ++ rest) ≡ some (without_control s, rest)
open_quoted s rest = rw (quote_lem s) (
    rw (append_assoc (flat escaped (without_control s)) (34 ∷ []) rest)
      (read_escaped (without_control s) rest))

parse_step :
    (n : ℕ) (text word rest : Bytes)
    → open_word text ≡ some (word, rest)
    → parse_words (suc n) text ≡ joined word rest (parse_words n (drop 1 rest))
unfolding parse_words
parse_step n text word rest h = ground (arith, h)

-- Read by the rule for double quotes and backslashes alone, before systemd expands any `%` or `$`
-- in the words, the `ExecStart=` line splits into exactly the path and the arguments, each without
-- its control characters.
pub exec_line_words :
    (exec_path : Bytes) (args : List Bytes)
    → parse_words (suc (length args)) (exec_line exec_path args)
      ≡ some (map without_control (exec_path ∷ args))
unfolding exec_line
exec_line_words path [] =
    parse_step 0 (exec_line path []) (without_control path) [] (open_quoted path [])
exec_line_words path (a ∷ more) =
    parse_step (suc (length more)) (exec_line path (a ∷ more)) (without_control path)
      (32 ∷ exec_line a more) (open_quoted path (32 ∷ exec_line a more))
    ∙ ap (joined (without_control path) (32 ∷ exec_line a more)) (exec_line_words a more)
