-- ===== src/String/Tests.antt =====
-- The functions of kernel/string.c on a small memory.
use learn_os.Base.{ℕ, ◌+◌, ◌<◌, ◌≡◌, ◌↔◌, refl, ◌==◌, if◌then◌else◌, some}
use learn_os.String.{
  ℤ, memset, memcmp, memmove, move_down, strncmp, strncpy, safestrcpy, strlen, minus,
}
use learn_os.String.Copy.{moved, memmove_lem}
use learn_os.String.Compare.{Copied, memcmp_lem, safestrcpy-Copied}

-- From address 100 on: 1, 2, 3, 4, 0.
abbrev memory : ℕ → ℕ
memory a =
    if a == 100
    then 1
    else if a == 101
    then 2
    else if a == 102
    then 3
    else if a == 103
    then 4
    else 0

memmove_overlap : memmove memory 101 100 4 104 ≡ 4
unfolding memmove move_down
memmove_overlap = refl

strlen_runs : strlen 10 memory 101 ≡ some 3
unfolding strlen
strlen_runs = refl

strncmp_runs : strncmp memory 100 101 4 ≡ ℤ.negsuc 0
unfolding strncmp minus
strncmp_runs = refl

strncpy_pads : strncpy memory 50 102 4 53 ≡ 0
unfolding strncpy memset
strncpy_pads = refl

memmove_lem_example : memmove memory 101 100 4 104 ≡ moved memory 101 100 4 104
memmove_lem_example = memmove_lem memory 101 100 4 104

memcmp_lem_example :
    (memcmp memory 100 101 3 ≡ ℤ.pos 0) ↔ ((i : ℕ) → i < 3 → memory (100 + i) ≡ memory (101 + i))
memcmp_lem_example = memcmp_lem memory 100 101 3

safestrcpy-Copied_example : (k : ℕ) × Copied memory 50 100 3 (safestrcpy memory 50 100 4) k
safestrcpy-Copied_example = safestrcpy-Copied memory 50 100 3 refl
