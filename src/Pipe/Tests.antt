-- ===== src/Pipe/Tests.antt =====
-- A pipe whose counters are about to wrap.
use learn_os.Base.{
  ℕ, ◌-◌, ◌^◌, ◌≡◌, refl, true, false, Option, none, some, [], ◌∷◌, ◌==◌, ltb, arith, if◌then◌else◌,
}
use learn_os.Pipe.{Pipe, Outcome, pipewrite, write_loop, push}
use learn_os.Pipe.Ring.{IsRing, contents, items}
use learn_os.Pipe.Stream.{Wrote, pipewrite-Wrote}
use learn_os.Pipe.Drain.{Read, piperead-Read}

-- One byte, 7, is in the pipe.
abbrev wrapping : Pipe
wrapping = record {
  data_at = λ i. if i == 510 then 7 else 0;
  nread = 2 ^ 32 - 2;
  nwrite = 2 ^ 32 - 1;
  readopen = true;
  writeopen = true;
}

wrapping-IsRing : IsRing wrapping
wrapping-IsRing = (omega arith, omega arith, omega arith)

-- User memory of four bytes from address 1000 on.
abbrev four_bytes : ℕ → Option ℕ
four_bytes a = if ltb a 1004 then some (a - 999) else none

abbrev pipe_of : Outcome → Pipe
pipe_of (Outcome.returned i p) = p
pipe_of (Outcome.failed p) = p
pipe_of (Outcome.asleep i p) = p

writes_over_the_wrap :
    contents (pipe_of (pipewrite false four_bytes wrapping 1000 3)) ≡ 7 ∷ 1 ∷ 2 ∷ 3 ∷ []
unfolding pipewrite write_loop push contents items
writes_over_the_wrap = refl

pipewrite-Wrote_example :
    Wrote false four_bytes 1000 0 6 wrapping (pipewrite false four_bytes wrapping 1000 6)
pipewrite-Wrote_example = pipewrite-Wrote false four_bytes wrapping 1000 6 wrapping-IsRing

piperead-Read_example : Read false (λ a c. true) wrapping 2000 5
piperead-Read_example = piperead-Read false (λ a c. true) wrapping 2000 5 wrapping-IsRing
