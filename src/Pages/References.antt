-- ===== src/Pages/References.antt =====
-- References to a page that come and go.
use learn_os.Base.{ℕ, zero, suc, Option, some, ◌>>=◌}
use learn_os.Buddy.Layout.{Linker}
use learn_os.Pages.{Memory, kfree, kaddrefcnt}

-- So many calls of `kaddrefcnt`, and of `kfree`, for one page.
abbrev pub add_refs : Linker → (pa n : ℕ) → Memory → Memory
add_refs l pa zero m = m
add_refs l pa (suc n) m = add_refs l pa n (kaddrefcnt l m pa).1

abbrev pub drop_refs : Linker → (pa n : ℕ) → Memory → Option Memory
drop_refs l pa zero m = some m
drop_refs l pa (suc n) m = drop_refs l pa n m >>= λ m'. kfree l m' pa
