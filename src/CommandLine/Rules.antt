-- ===== src/CommandLine/Rules.antt =====
-- How a Windows program splits its command line into arguments, by the documented rules: blanks and
-- tabs separate arguments outside quotes; an even run of backslashes before a quote stands for half as
-- many and the quote is a delimiter, an odd run for half as many and the quote itself; other
-- backslashes stand for themselves. Two quotes in a row inside quotes, which the controller never
-- writes, have no rule of their own here.
use hook_nt.Prelude.{ℕ, ◌+◌, ◌/◌, ◌%◌, Bool, false, not, ◌&&◌, ◌||◌}
use hook_nt.Prelude.{Option, none, some, List, [], ◌∷◌, ◌++◌, ◌==◌, if◌then◌else◌, replicate}

abbrev pub text_of : Option (List ℕ) → List ℕ
text_of none = []
text_of (some word) = word

-- The argument that ends here, if one has begun, with the backslashes before its end.
abbrev pub finish_word : Option (List ℕ) → ℕ → List (List ℕ)
finish_word none backslashes = []
finish_word (some word) backslashes = (word ++ replicate backslashes 92) ∷ []

-- The argument so far, if one has begun, the backslashes since, and whether a quote is open.
unfoldable pub split_from : Option (List ℕ) → ℕ → Bool → List ℕ → List (List ℕ)
split_from word backslashes quoted [] = finish_word word backslashes
split_from word backslashes quoted (c ∷ cs) =
    let slash = split_from (some (text_of word)) (backslashes + 1) quoted cs in
    let half = text_of word ++ replicate (backslashes / 2) 92 in
    let delimiter = split_from (some half) 0 (not quoted) cs in
    let literal = split_from (some (half ++ (34 ∷ []))) 0 quoted cs in
    let next = split_from none 0 false cs in
    let plain =
      split_from (some ((text_of word ++ replicate backslashes 92) ++ (c ∷ []))) 0 quoted cs in
    if c == 92
    then slash
    else if c == 34
    then (if backslashes % 2 == 0 then delimiter else literal)
    else if not quoted && (c == 32 || c == 9)
    then finish_word word backslashes ++ next
    else plain

unfoldable pub split_arguments : List ℕ → List (List ℕ)
split_arguments command_line = split_from none 0 false command_line
