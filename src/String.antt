-- ===== src/String.antt =====
-- kernel/string.c. Memory is a function from addresses to bytes; a pointer is its address.
pub mod Copy
pub mod Compare
mod Tests
use learn_os.Base.{
  ℕ, zero, suc, ◌+◌, ◌-◌, ◌%◌, ◌^◌, Option, none, some, ltb, ◌&&◌, ◌==◌, ◌>>=◌, update,
  if◌then◌else◌,
}

-- An `int` that a comparison returns.
pub data ℤ : Type 0 where
  pos negsuc : ℕ → ℤ

-- The difference of two bytes, as an `int`.
unfoldable pub minus : ℕ → ℕ → ℤ
minus a b = if ltb a b then ℤ.negsuc (b - a - 1) else ℤ.pos (a - b)

-- The `int` that counts the bytes does not overflow below 2^31 of them.
unfoldable pub memset : (ℕ → ℕ) → (dst c n : ℕ) → ℕ → ℕ
memset m dst c zero = m
memset m dst c (suc n) = memset (update m dst (c % 2 ^ 8)) (dst + 1) c n

unfoldable pub memcmp : (ℕ → ℕ) → (s1 s2 n : ℕ) → ℤ
memcmp m s1 s2 zero = ℤ.pos 0
memcmp m s1 s2 (suc n) =
    let rest = memcmp m (s1 + 1) (s2 + 1) n in if m s1 == m s2 then rest else minus (m s1) (m s2)

-- The two loops of `memmove`: down from the ends, and up from the starts.
unfoldable pub move_down : (ℕ → ℕ) → (d s n : ℕ) → ℕ → ℕ
move_down m d s zero = m
move_down m d s (suc n) = move_down (update m (d - 1) (m (s - 1))) (d - 1) (s - 1) n

unfoldable pub move_up : (ℕ → ℕ) → (d s n : ℕ) → ℕ → ℕ
move_up m d s zero = m
move_up m d s (suc n) = move_up (update m d (m s)) (d + 1) (s + 1) n

unfoldable pub memmove : (ℕ → ℕ) → (dst src n : ℕ) → ℕ → ℕ
memmove m dst src n =
    if n == 0
    then m
    else if ltb src dst && ltb dst (src + n)
    then move_down m (dst + n) (src + n) n
    else move_up m dst src n

unfoldable pub strncmp : (ℕ → ℕ) → (p q n : ℕ) → ℤ
strncmp m p q zero = ℤ.pos 0
strncmp m p q (suc n) =
    let rest = strncmp m (p + 1) (q + 1) n in
    if m p == 0 then minus (m p) (m q) else if m p == m q then rest else minus (m p) (m q)

-- The two loops of `strncpy`, the second for the rest of the buffer.
unfoldable pub strncpy : (ℕ → ℕ) → (s t n : ℕ) → ℕ → ℕ
unfolding memset
strncpy m s t zero = m
strncpy m s t (suc n) =
    let copied = update m s (m t) in
    let rest = strncpy copied (s + 1) (t + 1) n in
    if m t == 0 then memset copied (s + 1) 0 n else rest

-- `safestrcpy`'s loop, with `n` counted after the test `--n > 0`, and its last `*s = 0`.
unfoldable pub safe_loop : (ℕ → ℕ) → (s t n : ℕ) → ℕ → ℕ
safe_loop m s t zero = update m s 0
safe_loop m s t (suc n) =
    let copied = update m s (m t) in
    let rest = safe_loop copied (s + 1) (t + 1) n in
    if m t == 0 then update copied (s + 1) 0 else rest

unfoldable pub safestrcpy : (ℕ → ℕ) → (s t n : ℕ) → ℕ → ℕ
safestrcpy m s t zero = m
safestrcpy m s t (suc n) = safe_loop m s t n

-- For at most the given number of rounds; `none` if the string is longer.
unfoldable pub strlen : ℕ → (ℕ → ℕ) → ℕ → Option ℕ
strlen zero m s = none
strlen (suc f) m s =
    let rest = (do n ← strlen f m (s + 1); some (n + 1)) in if m s == 0 then some 0 else rest
