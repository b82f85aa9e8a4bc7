-- ===== src/Paths.antt =====
-- kernel/fs.c: path names, with `skipelem` and the walk of `namex`. A string is the list of its bytes before
-- the end, and the name that is copied is what a reader of at most DIRSIZ bytes sees. The inodes are numbers:
-- whether one is a directory and what `dirlookup` finds in it are parameters, and their locks and reference
-- counts are left out.
pub mod Components
mod Tests
use learn_os.Base.{
  ℕ, zero, suc, Bool, true, false, Option, none, some, List, [], ◌∷◌, length, leb, ◌==◌, ◌&&◌, not,
  if◌then◌else◌,
}

abbrev pub slash : ℕ
slash = 47

abbrev pub dirsiz : ℕ
dirsiz = 14

abbrev pub is_last {ℓ} : {A : Type ℓ} → List A → Bool
is_last [] = true
is_last (x ∷ xs) = false

abbrev pub take : ℕ → List ℕ → List ℕ
take zero xs = []
take (suc n) [] = []
take (suc n) (x ∷ xs) = x ∷ take n xs

abbrev pub skip_slashes : List ℕ → List ℕ
skip_slashes [] = []
skip_slashes (c ∷ path) = if c == slash then skip_slashes path else c ∷ path

-- The bytes before the next slash, and the rest.
abbrev pub split_name : List ℕ → List ℕ × List ℕ
split_name [] = ([], [])
split_name (c ∷ path) =
    let rest = split_name path in if c == slash then ([], c ∷ path) else (c ∷ rest.0, rest.1)

abbrev pub copied_name : List ℕ → List ℕ
copied_name s = if leb dirsiz (length s) then take dirsiz s else s

abbrev pub first_name : List ℕ → Option (List ℕ × List ℕ)
first_name [] = none
first_name (c ∷ path) =
    let parts = split_name (c ∷ path) in some (copied_name parts.0, skip_slashes parts.1)

-- The name and the rest of the path; `none` is NULL.
unfoldable pub skipelem : List ℕ → Option (List ℕ × List ℕ)
skipelem path = first_name (skip_slashes path)

abbrev pub starts_at : (root cwd : ℕ) → List ℕ → ℕ
starts_at root cwd [] = cwd
starts_at root cwd (c ∷ path) = if c == slash then root else cwd

module _ (is_dir : ℕ → Bool) (dirlookup : ℕ → List ℕ → Option ℕ) where
  abbrev pub go_into : (ℕ → Option (Option (ℕ × List ℕ))) → Option ℕ → Option (Option (ℕ × List ℕ))
  go_into k none = some none
  go_into k (some next) = k next

  -- One round of the loop of `namex`, where `k` is the rest of it.
  abbrev pub namex_round :
      (k : List ℕ → List ℕ → ℕ → Option (Option (ℕ × List ℕ))) (nameiparent : Bool) (name : List ℕ)
      (ip : ℕ)
      → Option (List ℕ × List ℕ)
      → Option (Option (ℕ × List ℕ))
  namex_round k nameiparent name ip none = if nameiparent then some none else some (some (ip, name))
  namex_round k nameiparent name ip (some (elem, rest)) =
      let deeper = go_into (k elem rest) (dirlookup ip elem) in
      if not (is_dir ip)
      then some none
      else if nameiparent && is_last rest
      then some (some (ip, elem))
      else deeper

  -- The loop: the inode and the contents of `name`, or NULL; and `none` at the end of the rounds.
  unfoldable pub namex_loop :
      (left : ℕ) (nameiparent : Bool) (name path : List ℕ) (ip : ℕ) → Option (Option (ℕ × List ℕ))
  namex_loop zero nameiparent name path ip = none
  namex_loop (suc left) nameiparent name path ip =
      namex_round (λ elem rest next. namex_loop left nameiparent elem rest next) nameiparent name ip
        (skipelem path)

  unfoldable pub namex :
      (left : ℕ) (root cwd : ℕ) (nameiparent : Bool) (name path : List ℕ)
      → Option (Option (ℕ × List ℕ))
  namex left root cwd nameiparent name path =
      namex_loop left nameiparent name path (starts_at root cwd path)
