-- ===== src/Grep.antt =====
-- user/grep.c: the matcher of patterns with ^ . * $.
-- A string is its bytes before the 0 that ends it.
mod Language
mod Matcher
mod Tests
use learn_os.Base.{ℕ, Bool, true, false, List, [], ◌∷◌, ◌==◌, ◌&&◌, ◌||◌, if◌then◌else◌}

abbrev pub Text : Type 0
Text = List ℕ

abbrev pub dollar : ℕ
dollar = 36

abbrev pub star : ℕ
star = 42

abbrev pub dot : ℕ
dot = 46

abbrev pub caret : ℕ
caret = 94

abbrev pub is_end : Text → Bool
is_end [] = true
is_end (x ∷ text) = false

-- The loop of `matchstar`, where `here` is `matchhere` of what follows the star.
unfoldable pub matchstar : (here : Text → Bool) → (c : ℕ) → Text → Bool
matchstar here c [] = here []
matchstar here c (x ∷ text) =
    let rest = matchstar here c text in
    if here (x ∷ text) then true else if x == c || c == dot then rest else false

-- The last two returns of `matchhere`.
unfoldable pub match_one : (c : ℕ) → (here : Text → Bool) → Text → Bool
match_one c here [] = false
match_one c here (x ∷ text) = if c == dot || c == x then here text else false

unfoldable pub matchhere : (re text : Text) → Bool
matchhere [] text = true
matchhere (c ∷ []) text = if c == dollar then is_end text else match_one c (matchhere []) text
matchhere (c ∷ d ∷ re) text =
    if d == star then matchstar (matchhere re) c text else match_one c (matchhere (d ∷ re)) text

-- The loop of `match`.
unfoldable pub match_loop : (re text : Text) → Bool
match_loop re [] = matchhere re []
match_loop re (x ∷ text) =
    let rest = match_loop re text in if matchhere re (x ∷ text) then true else rest

unfoldable pub match : (re text : Text) → Bool
match [] text = match_loop [] text
match (c ∷ re) text = if c == caret then matchhere re text else match_loop (c ∷ re) text
