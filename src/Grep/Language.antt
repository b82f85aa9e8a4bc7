-- ===== src/Grep/Language.antt =====
-- What a pattern means: a list of single characters and repeated ones, which a word is in the language
-- of, and two anchors.
use learn_os.Base.{ℕ, Bool, true, false, List, [], ◌∷◌, ◌++◌, ◌==◌, if◌then◌else◌, ◌≡◌, ◌⊎◌}
use learn_os.Grep.{Text, dollar, star, dot, caret}

-- A character of a pattern stands for itself, and a dot for every character.
abbrev pub Fits : (c x : ℕ) → Type 0
Fits c x = (c ≡ dot) ⊎ (c ≡ x)

pub data Item : Type 0 where
  once many : ℕ → Item

abbrev pub All : (ℕ → Type 0) → Text → Type 0
All p [] = Unit
All p (x ∷ w) = p x × All p w

-- A word in the language of a list of items.
abbrev pub InLanguage : List Item → Text → Type 0
InLanguage [] w = w ≡ []
InLanguage (once c ∷ is) w = (x : ℕ) × (v : Text) × (w ≡ x ∷ v) × Fits c x × InLanguage is v
InLanguage (many c ∷ is) w = (u v : Text) × (w ≡ u ++ v) × All (Fits c) u × InLanguage is v

-- A pattern behind its caret.
pub record Pattern : Type 0 where
  pub items : List Item
  pub at_end : Bool

abbrev pub add : Item → Pattern → Pattern
add i p = record { items = i ∷ p.items; at_end = p.at_end }

abbrev pub pattern_of : Text → Pattern
pattern_of [] = record { items = []; at_end = false }
pattern_of (c ∷ []) =
    if c == dollar
    then record { items = []; at_end = true }
    else record { items = once c ∷ []; at_end = false }
pattern_of (c ∷ d ∷ re) =
    if d == star then add (many c) (pattern_of re) else add (once c) (pattern_of (d ∷ re))

-- A text begins with a word of the pattern, and is that word if the pattern ends in a dollar sign.
pub record Begins (p : Pattern) (text : Text) : Type 0 where
  pub word : Text
  pub rest : Text
  pub parts : text ≡ word ++ rest
  pub in_language : InLanguage p.items word
  pub ends : p.at_end ≡ true → rest ≡ []

-- A text has a word of the pattern; with a caret it begins with one.
pub record Contains (p : Pattern) (at_start : Bool) (text : Text) : Type 0 where
  pub before : Text
  pub after : Text
  pub parts : text ≡ before ++ after
  pub begins : Begins p after
  pub starts : at_start ≡ true → before ≡ []

abbrev pub has_caret : Text → Bool
has_caret [] = false
has_caret (c ∷ re) = c == caret

abbrev pub behind_caret : Text → Text
behind_caret [] = []
behind_caret (c ∷ re) = if c == caret then re else c ∷ re
