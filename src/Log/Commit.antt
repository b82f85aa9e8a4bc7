-- ===== src/Log/Commit.antt =====
-- A crash while a transaction is committed.
use mathlib.Core.List.{append_assoc}
use learn_os.Base.{
  ℕ, zero, suc, ◌+◌, ◌-◌, ◌<◌, ◌≡◌, inl, inr, refl, ◌∙◌, ap, arith, true, false, List, [], ◌∷◌,
  ◌++◌, ltb, leb, ◌==◌, ◌&&◌, update, Bool-cases, lt→ltb, ltb→lt,
}
use learn_os.Log.{
  Log, Block, Blocks, write_all, header, write_head, write_log, install_loop, install_trans, commit,
}
use learn_os.Log.Install.{
  install_loop_lem, install_loop-All, write_log_loop_lem, write_log_loop_cache, write_log_loop-All,
}
use learn_os.Log.Phases.{
  Before, During, After, Before-update, Before→During, erase-After, Throughout, Throughout-All,
  Throughout-mono, Throughout-append, Throughout-last, Throughout-take, take, write_all-append,
  During-new,
}
use learn_os.Log.Recover.{
  IsLog, Phase, before, during, Atomic, Phase-Atomic, finish, Boots, Boots-Phase,
}

header_zero : (l : Log) (old : Block) → header (record l { n = 0 }) old 0 ≡ 0
unfolding header
header_zero l old = refl

module _ (l : Log) (g : IsLog l) (d c : Blocks) (clean : d l.start 0 ≡ 0) where
  start_Before : Before l d c d
  start_Before = record { empty = clean; same = λ b h. refl }

  -- the disk and the cache once the log blocks are written
  abbrev logged_disk : Blocks
  logged_disk = write_all (write_log l c).0 d

  log_Before : Throughout (Before l d c) (write_log l c).0 d
  unfolding write_log
  log_Before =
      Throughout-All (Before l d c) _ (λ e b x q. Before-update l d c e b x q) (write_log l c).0 d
        (write_log_loop-All l l.n g.fits g.away l.n 0 c (omega arith)) start_Before

  copied :
      (e : Blocks) (i : ℕ)
      → i < l.n
      → write_all (write_log l c).0 e (l.start + i + 1) ≡ c (l.block i)
  unfolding write_log
  copied e i h =
      write_log_loop_lem l l.n g.fits g.away l.n 0 c e (l.start + i + 1) (omega arith)
      ∙ rw (within, index) refl
    where
      within :
          (leb (l.start + 0 + 1) (l.start + i + 1) && leb (l.start + i + 1) (l.start + l.n)) ≡ true
      within = ground arith

      index : l.start + i + 1 - (l.start + 1) ≡ i
      index = omega arith

  cached : (i : ℕ) → i < l.n → (write_log l c).1 (l.start + i + 1) ≡ c (l.block i)
  unfolding write_log
  cached i h = ap (λ w. w (l.start + i + 1)) (write_log_loop_cache l l.n c 0) ∙ copied c i h

  -- the header that commits, and the cache after it
  abbrev head_block : Block
  head_block = header l ((write_log l c).1 l.start)

  abbrev head_cache : Blocks
  head_cache = update (write_log l c).1 l.start head_block

  committed : During l d c (update logged_disk l.start head_block)
  committed =
      Before→During l d c logged_disk
        (Throughout-last (Before l d c) (write_log l c).0 d log_Before) (copied d) g.fits
        ((write_log l c).1 l.start)

  in_head_cache : (j : ℕ) → j < l.n → head_cache (l.start + j + 1) ≡ c (l.block j)
  in_head_cache j h = rw (above j) (cached j h)
    where
      above : (i : ℕ) → (l.start + i + 1 == l.start) ≡ false
      above i = ground arith

  head_Phase : Throughout (Phase l d c) ((write_log l c).0 ++ ((l.start, head_block) ∷ [])) d
  head_Phase =
      Throughout-append (Phase l d c) (write_log l c).0 ((l.start, head_block) ∷ []) d
        (Throughout-mono (Before l d c) (Phase l d c) (λ e. before) (write_log l c).0 d log_Before)
        (before (Throughout-last (Before l d c) (write_log l c).0 d log_Before), during committed)

  at_head :
      (ws : List (ℕ × Block))
      → ws ≡ (write_log l c).0 ++ ((l.start, head_block) ∷ [])
      → During l d c (write_all ws d)
  at_head ws e = rw (e, write_all-append (write_log l c).0 ((l.start, head_block) ∷ []) d) committed

  -- every write of `commit`
  commit-Phase : 0 < l.n → Throughout (Phase l d c) (commit l c).0.0 d
  unfolding commit write_head install_trans
  commit-Phase some_blocks = rw (lt→ltb 0 l.n some_blocks) (
      rw
        (append_assoc ((write_log l c).0 ++ ((l.start, head_block) ∷ []))
          (install_loop l l.n head_cache 0).0 _)
        (Throughout-append (Phase l d c) ((write_log l c).0 ++ ((l.start, head_block) ∷ [])) _ d
          head_Phase
          (finish l d c l l.n head_cache _ _ g (at_head _ refl)
            (install_loop-All l l.n g.fits g.away c l.n 0 head_cache (omega arith)
              (λ j _ h. in_head_cache j h))
            (λ b.
              install_loop_lem l l.n g.fits g.away c l.n 0 head_cache _ b (omega arith)
                (λ j _ h. in_head_cache j h))
            (header_zero l _))))

  commit-After' : 0 < l.n → After l d c (write_all (commit l c).0.0 d)
  unfolding commit write_head install_trans
  commit-After' some_blocks = rw (lt→ltb 0 l.n some_blocks) (
      rw
        (
          write_all-append
              (((write_log l c).0 ++ ((l.start, head_block) ∷ []))
                ++ (install_loop l l.n head_cache 0).0)
              _ d,
          write_all-append ((write_log l c).0 ++ ((l.start, head_block) ∷ []))
              (install_loop l l.n head_cache 0).0 d,
        )
        (erase-After l d c _
          (λ b h.
            install_loop_lem l l.n g.fits g.away c l.n 0 head_cache _ b (omega arith)
              (λ j _ k. in_head_cache j k)
            ∙ During-new l d c _ b h (at_head _ refl))
          (omega (arith, g.fits)) _ (header_zero l _)))

  no_blocks : l.n ≡ 0 → (commit l c).0.0 ≡ []
  unfolding commit
  no_blocks z = rw z refl

  take_none : (k : ℕ) → write_all (take k []) d ≡ d
  take_none zero = refl
  take_none (suc k) = refl

  commit_point : (k : ℕ) → Phase l d c (write_all (take k (commit l c).0.0) d)
  commit_point k = elim (Bool-cases (ltb 0 l.n)) [
    | inl some_blocks ↦
        Throughout-take (Phase l d c) (commit l c).0.0 d k (commit-Phase (ltb→lt _ _ some_blocks))
    | inr none_left ↦ rw (no_blocks (ground (arith, none_left)), take_none k) (before start_Before)
  ]

-- Let the log be one that can be committed, and empty on disk. However many of the writes of `commit`
-- reach the disk before a crash, and however many crashes interrupt recovery after it, a recovery that
-- completes leaves outside the log either the disk as it was before `commit`, or the disk with the cached
-- contents of every block of the transaction.
pub commit-Atomic :
    (l : Log) (c d : Blocks) (k : ℕ) {e : Blocks}
    → IsLog l
    → d l.start 0 ≡ 0
    → Boots l d c (write_all (take k (commit l c).0.0) d) e
    → Atomic l d c e
commit-Atomic l c d k {e} g clean b =
    Phase-Atomic l d c g e (Boots-Phase l d c _ g (commit_point l g d c clean k) b)

-- When all the writes of `commit` have reached the disk, the log on disk is empty, and outside the log the
-- disk has the cached contents of every block of the transaction and is otherwise unchanged.
pub commit-After :
    (l : Log) (c d : Blocks)
    → IsLog l
    → d l.start 0 ≡ 0
    → 0 < l.n
    → After l d c (write_all (commit l c).0.0 d)
commit-After l c d g clean h = commit-After' l g d c clean h
