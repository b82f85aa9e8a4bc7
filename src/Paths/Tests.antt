-- ===== src/Paths/Tests.antt =====
-- A small tree: inode 1 is the root and holds `a` as 2, and that holds `bb` as 3, which is a file.
use learn_os.Base.{
  ℕ, ◌≡◌, refl, arith, Bool, true, false, Option, none, some, List, [], ◌∷◌, ◌==◌, ltb, ◌&&◌,
  if◌then◌else◌,
}
use learn_os.Paths.{skipelem, namex, namex_loop, starts_at}
use learn_os.Paths.Components.{components, walk, namex-walk}

abbrev dirs : ℕ → Bool
dirs ip = ltb ip 3

abbrev entries : ℕ → List ℕ → Option ℕ
entries ip [] = none
entries ip (c ∷ name) =
    if ip == 1 && c == 97 then some 2 else if ip == 2 && c == 98 then some 3 else none

-- `///a//bb`
abbrev path : List ℕ
path = 47 ∷ 47 ∷ 47 ∷ 97 ∷ 47 ∷ 47 ∷ 98 ∷ 98 ∷ []

first_elem : skipelem path ≡ some (97 ∷ [], 98 ∷ 98 ∷ [])
unfolding skipelem
first_elem = refl

no_name : skipelem (47 ∷ 47 ∷ 47 ∷ 47 ∷ []) ≡ none
unfolding skipelem
no_name = refl

finds_file : namex dirs entries 9 1 5 false [] path ≡ some (some (3, 98 ∷ 98 ∷ []))
unfolding namex namex_loop skipelem
finds_file = refl

finds_parent : namex dirs entries 9 1 5 true [] path ≡ some (some (2, 98 ∷ 98 ∷ []))
unfolding namex namex_loop skipelem
finds_parent = refl

namex-walk_example :
    namex dirs entries 9 1 5 true [] path
    ≡ some (walk dirs entries true [] (components path) (starts_at 1 5 path))
namex-walk_example = namex-walk dirs entries 9 1 5 true [] path (omega arith)
