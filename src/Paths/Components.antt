-- ===== src/Paths/Components.antt =====
-- The walk of a path goes through the names between its slashes.
use mathlib.Core.List.{append_assoc}
use learn_os.Base.{
  ℕ, zero, suc, ◌<◌, ◌≤◌, ◌≡◌, refl, sym, ap, ◌∙◌, Bool, false, Option, none, some, List, [], ◌∷◌,
  ◌++◌, length, ◌==◌, ◌&&◌, not, Bool-cases, Option-cases, inl, inr, if◌then◌else◌, arith,
}
use learn_os.Paths.{
  slash, is_last, skip_slashes, split_name, copied_name, first_name, skipelem, namex_loop, namex,
  starts_at,
}

-- The names of a path: the longest parts without a slash that are not empty.
abbrev flush : List ℕ → List (List ℕ) → List (List ℕ)
flush [] ws = ws
flush (x ∷ xs) ws = (x ∷ xs) ∷ ws

abbrev words : (current path : List ℕ) → List (List ℕ)
words current [] = flush current []
words current (c ∷ path) =
    if c == slash then flush current (words [] path) else words (current ++ c ∷ []) path

abbrev pub components : List ℕ → List (List ℕ)
components path = words [] path

abbrev pub walk_into : (ℕ → Option (ℕ × List ℕ)) → Option ℕ → Option (ℕ × List ℕ)
walk_into k none = none
walk_into k (some next) = k next

module _ (is_dir : ℕ → Bool) (dirlookup : ℕ → List ℕ → Option ℕ) where
  -- The walk through a list of names; with `nameiparent` it ends before the last one.
  abbrev pub walk :
      (nameiparent : Bool) (name : List ℕ) → List (List ℕ) → (ip : ℕ) → Option (ℕ × List ℕ)
  walk nameiparent name [] ip = if nameiparent then none else some (ip, name)
  walk nameiparent name (elem ∷ elems) ip =
      if not (is_dir ip)
      then none
      else if nameiparent && is_last elems
      then some (ip, copied_name elem)
      else walk_into (λ next. walk nameiparent (copied_name elem) elems next)
          (dirlookup ip (copied_name elem))

append-nil : (xs : List ℕ) → xs ++ [] ≡ xs
append-nil [] = refl
append-nil (x ∷ xs) = rw (append-nil xs) refl

words-skip_slashes : (path : List ℕ) → words [] (skip_slashes path) ≡ words [] path
words-skip_slashes [] = refl
words-skip_slashes (c ∷ path) = elim (Bool-cases (c == slash)) [
  | inl y ↦ rw y (words-skip_slashes path)
  | inr n ↦ rw n (rw n refl)
]

words-split_name :
    (current path : List ℕ)
    → words current path ≡ flush (current ++ (split_name path).0) (words [] (split_name path).1)
words-split_name current [] = rw (append-nil current) refl
words-split_name current (c ∷ path) = elim (Bool-cases (c == slash)) [
  | inl y ↦ rw y (rw (y, append-nil current) refl)
  | inr n ↦ rw n (
      words-split_name (current ++ c ∷ []) path
      ∙ ap (λ l. flush l (words [] (split_name path).1))
          (append_assoc current (c ∷ []) (split_name path).0))
]

skip_slashes-shorter : (path : List ℕ) → length (skip_slashes path) ≤ length path
skip_slashes-shorter [] = omega arith
skip_slashes-shorter (c ∷ path) = elim (Bool-cases (c == slash)) [
  | inl y ↦ rw y (let le = skip_slashes-shorter path in omega arith)
  | inr n ↦ rw n (omega arith)
]

split_name-shorter : (path : List ℕ) → length (split_name path).1 ≤ length path
split_name-shorter [] = omega arith
split_name-shorter (c ∷ path) = elim (Bool-cases (c == slash)) [
  | inl y ↦ rw y (omega arith)
  | inr n ↦ rw n (let le = split_name-shorter path in omega arith)
]

-- What is left behind slashes.
data Skips (path : List ℕ) : Type 0 where
  at_end : skip_slashes path ≡ [] → Skips path
  at_name :
      (c : ℕ) (rest : List ℕ) → skip_slashes path ≡ c ∷ rest → (c == slash) ≡ false → Skips path

skips : (path : List ℕ) → Skips path
skips [] = at_end refl
skips (c ∷ path) = elim (Bool-cases (c == slash)) [
  | inr n ↦ at_name c path (rw n refl) n
  | inl y ↦ elim (skips path) [
    | at_end e ↦ at_end (rw y e)
    | at_name d rest e n ↦ at_name d rest (rw y e) n
  ]
]

name-components :
    (c : ℕ) (path : List ℕ)
    → (c == slash) ≡ false
    → components (c ∷ path) ≡ (c ∷ (split_name path).0) ∷ components (split_name path).1
name-components c path n = rw n (words-split_name (c ∷ []) path)

is_last-components :
    (path : List ℕ) → is_last (skip_slashes path) ≡ is_last (components (skip_slashes path))
is_last-components path = elim (skips path) [
  | at_end e ↦ rw e refl
  | at_name c rest e n ↦ rw (e, name-components c rest n) refl
]

-- What `skipelem` does with the names of a path.
data Elem (path : List ℕ) : Type 0 where
  no_elem : skipelem path ≡ none → components path ≡ [] → Elem path
  one_elem :
      (elem rest : List ℕ)
      → skipelem path ≡ some (copied_name elem, rest)
      → components path ≡ elem ∷ components rest
      → length rest < length path
      → is_last rest ≡ is_last (components rest)
      → Elem path

skipelem-Elem : (path : List ℕ) → Elem path
unfolding skipelem
skipelem-Elem path = elim (skips path) [
  | at_end e ↦ no_elem (rw e refl) (sym (words-skip_slashes path) ∙ ap (words []) e)
  | at_name c rest e n ↦
      let parts = split_name rest in
      let shorter : length (skip_slashes parts.1) ≤ length rest =
        (let a = skip_slashes-shorter parts.1 in let b = split_name-shorter rest in omega arith) in
      let whole : suc (length rest) ≤ length path =
        (let a = skip_slashes-shorter path in let b = ap length e in omega arith) in
      one_elem (c ∷ parts.0) (skip_slashes parts.1) (ap first_name e ∙ rw n refl)
        (sym (words-skip_slashes path)
          ∙ ap (words []) e
          ∙ name-components c rest n
          ∙ ap (λ l. (c ∷ parts.0) ∷ l) (sym (words-skip_slashes parts.1)))
        (omega arith) (is_last-components parts.1)
]

module _ (is_dir : ℕ → Bool) (dirlookup : ℕ → List ℕ → Option ℕ) where
  loop-walk :
      (left : ℕ) (nameiparent : Bool) (name path : List ℕ) (ip : ℕ)
      → length path < left
      → namex_loop is_dir dirlookup left nameiparent name path ip
        ≡ some (walk is_dir dirlookup nameiparent name (components path) ip)
  unfolding namex_loop
  loop-walk zero nameiparent name path ip enough = absurd (omega arith)
  loop-walk (suc left) nameiparent name path ip enough = elim (skipelem-Elem path) [
    | no_elem s c ↦
        rw (s, c) (elim (Bool-cases nameiparent) [ inl y ↦ rw y refl | inr n ↦ rw n refl ])
    | one_elem elem rest s c shorter same ↦
        let fewer : length rest < left = omega arith in
        rw (s, c)
          (elim (Bool-cases (is_dir ip)) [
            | inr n ↦ rw n refl
            | inl y ↦
                rw (y, same)
                  (elim (Bool-cases (nameiparent && is_last (components rest))) [
                    | inl stop ↦ rw stop refl
                    | inr go ↦ rw go (elim (Option-cases (dirlookup ip (copied_name elem))) [
                      | inl missing ↦ rw missing refl
                      | inr (next, is) ↦
                          rw is (loop-walk left nameiparent (copied_name elem) rest next fewer)
                    ])
                  ])
          ])
  ]

  -- `namex` walks from the root or the current directory through the names between the slashes of the path,
  -- each cut at DIRSIZ bytes: it fails at the first inode that is not a directory or does not hold the next
  -- name, and for the parent of the last name it stops before that, and fails for a path without a name. The
  -- rounds are more than the bytes of the path.
  pub namex-walk :
      (left : ℕ) (root cwd : ℕ) (nameiparent : Bool) (name path : List ℕ)
      → length path < left
      → namex is_dir dirlookup left root cwd nameiparent name path
        ≡ some (walk is_dir dirlookup nameiparent name (components path) (starts_at root cwd path))
  unfolding namex
  namex-walk left root cwd nameiparent name path enough =
      loop-walk left nameiparent name path (starts_at root cwd path) enough
