-- ===== src/Log/Recover.antt =====
-- Recovery keeps a disk in one of three phases, so that it may crash as well.
use learn_os.Base.{
  ℕ, ◌<◌, ◌≡◌, ◌⊎◌, inl, inr, refl, ◌∙◌, sym, arith, true, false, List, [], ◌∷◌, ◌++◌, update,
  if◌then◌else◌, eq→==,
}
use learn_os.Log.{
  Log, Block, Blocks, write_all, header, write_head, read_head, install_loop, install_trans,
  recover_from_log,
}
use learn_os.Log.Install.{All, logged-ext, in_log, logged, install_loop-All}
use learn_os.Log.Phases.{
  Before, During, After, During-update, erase-After, new, recovered, recovered_empty,
  recovered-During, read_block, read_installed, Throughout, Throughout-All, Throughout-mono,
  Throughout-append, Throughout-last, Throughout-take, take, During-new, outside_start,
}

-- The log can be committed: it has room, and its blocks lie outside it.
pub record IsLog (l : Log) : Type 0 where
  pub fits : l.n < l.size
  pub away : (i : ℕ) → i < l.n → in_log l (l.block i) ≡ false

module _ (l : Log) (old v : Blocks) where
  pub data Phase (d : Blocks) : Type 0 where
    before : Before l old v d → Phase d
    during : During l old v d → Phase d
    after : After l old v d → Phase d

  -- Recovery gives all of the old contents or all of the new.
  abbrev pub Atomic : Blocks → Type 0
  Atomic d =
      ((b : ℕ) → in_log l b ≡ false → recovered l d b ≡ old b)
      ⊎ ((b : ℕ) → in_log l b ≡ false → recovered l d b ≡ new l old v b)

  pub Phase-Atomic : IsLog l → (d : Blocks) → Phase d → Atomic d
  Phase-Atomic g d (before p) =
      inl (λ b a. recovered_empty l old v d b (omega (arith, g.fits)) p.empty a ∙ p.same b a)
  Phase-Atomic g d (during p) = inr (λ b a. recovered-During l old v d b g.fits g.away p a)
  Phase-Atomic g d (after p) =
      inr (λ b a. recovered_empty l old v d b (omega (arith, g.fits)) p.empty a ∙ p.done b a)

  -- Installing a committed log and erasing it, with the log that recovery has read or with the log itself.
  pub finish :
      (l' : Log) (n : ℕ) (c d : Blocks) (x : Block)
      → IsLog l
      → During l old v d
      → All (λ b _. (in_log l b ≡ false) × (logged l l.n 0 b ≡ true)) (install_loop l' n c 0).0
      → ((b : ℕ)
          → write_all (install_loop l' n c 0).0 d b ≡ (if logged l l.n 0 b then v b else d b))
      → x 0 ≡ 0
      → Throughout Phase ((install_loop l' n c 0).0 ++ ((l.start, x) ∷ [])) d
  finish l' n c d x g p a done z =
      Throughout-append Phase (install_loop l' n c 0).0 ((l.start, x) ∷ []) d
        (Throughout-mono (During l old v) Phase (λ d. during) (install_loop l' n c 0).0 d kept)
        (
          during (Throughout-last (During l old v) (install_loop l' n c 0).0 d kept),
          after (
              erase-After l old v (write_all (install_loop l' n c 0).0 d)
                (λ b h. done b ∙ During-new l old v d b h p) (omega (arith, g.fits)) x z),
        )
    where
      kept : Throughout (During l old v) (install_loop l' n c 0).0 d
      kept =
          Throughout-All (During l old v) _ (λ d b x q. During-update l old v d b x g.fits q)
            (install_loop l' n c 0).0 d a p

  Before-erase :
      (d : Blocks) (x : Block)
      → IsLog l
      → x 0 ≡ 0
      → Before l old v d
      → Before l old v (update d l.start x)
  Before-erase d x g z p = record {
    empty = rw (eq→== l.start l.start refl) z;
    same = λ a h. rw (outside_start l old v (omega (arith, g.fits)) a h) (p.same a h);
  }

  All-mono :
      (P Q : ℕ → Block → Type 0)
      → ((b : ℕ) (x : Block) → P b x → Q b x)
      → (ws : List (ℕ × Block)) → All P ws
      → All Q ws
  All-mono P Q sub [] a = tt
  All-mono P Q sub ((b, x) ∷ ws) a = (sub b x a.0, All-mono P Q sub ws a.1)

  -- Without a committed log, only the header is written.
  recover_empty :
      (P : Blocks → Type 0) (d : Blocks)
      → d l.start 0 ≡ 0
      → P d
      → ((x : Block) → x 0 ≡ 0 → P (update d l.start x))
      → Throughout P (recover_from_log l d).0.0 d
  unfolding recover_from_log read_head install_trans install_loop write_head header
  recover_empty P d z p q = rw z (p, q _ refl)

  read_All :
      (d : Blocks) (n : ℕ)
      → n ≡ l.n
      → IsLog l
      → During l old v d
      → All
          (λ b _. (in_log l b ≡ false) × (logged l l.n 0 b ≡ true))
          (install_loop (read_head l d) n d 0).0
  unfolding read_head
  read_All d n e g p = rw e (
      All-mono _ _
        (λ b x q. (
          q.0,
          sym (
                logged-ext l (read_head l d) l.n 0 b
                  (λ i _ h. read_block l old v d i p (omega (arith, h))))
              ∙ q.1,
        ))
        _
        (install_loop-All (read_head l d) l.n g.fits
          (λ i h. rw (read_block l old v d i p h) (g.away i h)) v l.n 0 d (omega arith)
          (λ j _ h. rw (read_block l old v d j p h) (p.contents j h))))

  -- Recovery keeps to the phases, so it may crash as well.
  recover-Phase : (d : Blocks) → IsLog l → Phase d → Throughout Phase (recover_from_log l d).0.0 d
  unfolding recover_from_log install_trans write_head read_head header
  recover-Phase d g (before p) =
      recover_empty Phase d p.empty (before p) (λ x z. before (Before-erase d x g z p))
  recover-Phase d g (after p) =
      recover_empty Phase d p.empty (after p)
        (λ x z. after (erase-After l old v d p.done (omega (arith, g.fits)) x z))
  recover-Phase d g (during p) =
      finish (read_head l d) (d l.start 0) d d _ g p (read_All d (d l.start 0) p.count g p)
        (λ b. read_installed l old v d b (d l.start 0) p.count g.fits g.away p) refl

  -- A disk that is left by any number of crashes of recovery.
  pub data Boots (d : Blocks) : Blocks → Type 0 where
    first : Boots d d
    crash :
        {e : Blocks} (k : ℕ) → Boots d e → Boots d (write_all (take k (recover_from_log l e).0.0) e)

  pub Boots-Phase : (d : Blocks) {e : Blocks} → IsLog l → Phase d → Boots d e → Phase e
  Boots-Phase d g p first = p
  Boots-Phase d g p (crash {e} k b) =
      Throughout-take Phase (recover_from_log l e).0.0 e k (recover-Phase e g (Boots-Phase d g p b))
