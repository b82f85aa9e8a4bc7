-- ===== src/Grep/Tests.antt =====
-- Patterns on short texts: a is 97, b is 98.
use learn_os.Base.{true, false, [], ◌∷◌, ◌≡◌, ◌↔◌, refl}
use learn_os.Grep.{Text, match, match_loop, matchhere, matchstar, match_one}
use learn_os.Grep.Language.{Contains, pattern_of, has_caret, behind_caret}
use learn_os.Grep.Matcher.{match_lem}

-- ^a*b$
abbrev pattern : Text
pattern = 94 ∷ 97 ∷ 42 ∷ 98 ∷ 36 ∷ []

abbrev aab : Text
aab = 97 ∷ 97 ∷ 98 ∷ []

matches : match pattern aab ≡ true
unfolding match match_loop matchhere matchstar match_one
matches = refl

not_at_start : match pattern (98 ∷ aab) ≡ false
unfolding match match_loop matchhere matchstar match_one
not_at_start = refl

-- a.$
inside : match (97 ∷ 46 ∷ 36 ∷ []) (98 ∷ aab) ≡ true
unfolding match match_loop matchhere matchstar match_one
inside = refl

match_lem_example :
    (match pattern aab ≡ true)
    ↔ Contains (pattern_of (behind_caret pattern)) (has_caret pattern) aab
match_lem_example = match_lem pattern aab
