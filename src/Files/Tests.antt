-- ===== src/Files/Tests.antt =====
-- A file that is opened, dupped and closed.
use learn_os.Base.{refl, arith, false, none, some, Option, [], ◌∷◌}
use learn_os.Proc.{first}
use learn_os.Files.{File, FileTable, fd_none, filealloc, filealloc_at, filedup}
use learn_os.Files.References.{Open, Reach, start, next, opens, dups, IsStart, IsKept, Reach-IsKept}

abbrev empty : File
empty = record {
  kind = fd_none;
  ref = 0;
  readable = false;
  writable = false;
  pipe = 0;
  ip = 0;
  off = 0;
  major = 0;
}

abbrev no_files : Open
no_files = record { files = λ f. empty; owners = [] }

abbrev one_file : Open
one_file = record { files = (filealloc no_files.files).1; owners = 0 ∷ [] }

abbrev table_of : Option FileTable → FileTable
table_of none = no_files.files
table_of (some t) = t

abbrev two_refs : Open
two_refs = record { files = table_of (filedup one_file.files 0); owners = 0 ∷ 0 ∷ [] }

history : Reach no_files two_refs
unfolding filealloc filealloc_at first filedup
history =
    next (next start (opens 0 one_file.files refl (omega arith)))
      (dups 0 two_refs.files refl refl (omega arith))

no_files-IsStart : IsStart no_files
no_files-IsStart = record { no_refs = λ f. refl; no_owners = refl }

Reach-IsKept_example : IsKept two_refs 0
Reach-IsKept_example = Reach-IsKept no_files-IsStart history 0 refl
