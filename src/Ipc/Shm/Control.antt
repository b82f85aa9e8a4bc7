-- ===== src/Ipc/Shm/Control.antt =====
-- `shmctl` on a well-formed table.
use learn_os.Base.{
  ℕ, ◌≡◌, ◌<◌, refl, ◌∙◌, ap, inl, inr, arith, true, false, none, some, Bool-cases, Option-cases,
  ◌==◌, ==→eq, eq→==, leb, update,
}
use learn_os.Ipc.{IpcState, is_unused}
use learn_os.Ipc.Shm.{
  Allocator, ShmBlock, Shm, shmmax, Command, CtlResult, reinitialised, shm_reinit, shmctl,
}
use learn_os.Ipc.Shm.Get.{IsTable, update-IsTable, at_place}

module _ {S : Type 0} (a : Allocator S) where
  -- How `shmctl` may end.
  pub data Controlled (m : Shm S) (shmid : ℕ) (cmd : Command) : Type 0 where
    keeps :
        (r : CtlResult) (m' : Shm S)
        → shmctl a m shmid cmd ≡ some (r, m')
        → IsTable m'.pool
        → m'.heap ≡ m.heap
        → Controlled m shmid cmd
    frees :
        (m' : Shm S)
        → shmctl a m shmid cmd ≡ some (CtlResult.done, m')
        → IsTable m'.pool
        → cmd ≡ Command.ipc_rmid
        → (m.pool shmid).ref_count ≡ 0
        → a.kmfree (m.pool shmid).ptr (m.pool shmid).sz m.heap ≡ some m'.heap
        → is_unused (m'.pool shmid).state ≡ true
        → Controlled m shmid cmd
    fails :
        shmctl a m shmid cmd ≡ none
        → cmd ≡ Command.ipc_rmid
        → (m.pool shmid).ref_count ≡ 0
        → a.kmfree (m.pool shmid).ptr (m.pool shmid).sz m.heap ≡ none
        → Controlled m shmid cmd

  below_max : {i : ℕ} → i < shmmax → leb shmmax i ≡ false
  below_max h = ground arith

  -- A block that stays used with its key keeps the table well formed.
  restate-IsTable :
      (pool : ℕ → ShmBlock) (i : ℕ) (b : ShmBlock)
      → IsTable pool
      → i < shmmax
      → is_unused (pool i).state ≡ false
      → b.key ≡ (pool i).key
      → is_unused b.state ≡ false
      → IsTable (update pool i b)
  restate-IsTable pool i b t h used same u =
      update-IsTable pool i b t (λ z. absurd (ground (arith, z, u)))
        (λ _ j hj ne uj e. ne (t.distinct j i hj h uj used (e ∙ same)))

  abbrev as_zombie : Shm S → ℕ → Shm S
  as_zombie m i = record m {
    pool = update m.pool i (record (m.pool i) { state = IpcState.zombie });
  }

  module _ (m : Shm S) (i : ℕ) (t : IsTable m.pool) (h : i < shmmax)
      (used : is_unused (m.pool i).state ≡ false) where
    zombie-IsTable : IsTable (as_zombie m i).pool
    zombie-IsTable = restate-IsTable m.pool i _ t h used refl refl

    removed : (m.pool i).ref_count ≡ 0 → Controlled m i Command.ipc_rmid
    unfolding shmctl shm_reinit
    removed z =
        let no_ref = eq→== (m.pool i).ref_count 0 z in
        let here = at_place m.pool i (record (m.pool i) { state = IpcState.zombie }) i refl in
        elim (Option-cases (a.kmfree (m.pool i).ptr (m.pool i).sz m.heap)) [
          | inl n ↦ fails (rw (below_max h, used, no_ref, here, no_ref, n) refl) refl z n
          | inr (heap, f) ↦
              frees
                (record {
                  pool = update (as_zombie m i).pool i (reinitialised ((as_zombie m i).pool i));
                  heap = heap;
                })
                (rw (below_max h, used, no_ref, here, no_ref, f) refl)
                (update-IsTable (as_zombie m i).pool i (reinitialised ((as_zombie m i).pool i))
                  zombie-IsTable (λ _. refl) (λ u. absurd (ground arith)))
                refl z f
                (ap (λ b. is_unused b.state)
                  (at_place (as_zombie m i).pool i (reinitialised ((as_zombie m i).pool i)) i refl))
        ]

    used_cases : (cmd : Command) → Controlled m i cmd
    unfolding shmctl
    used_cases (Command.ipc_set flag) =
        keeps CtlResult.done
          (record m { pool = update m.pool i (record (m.pool i) { flag = flag }) })
          (rw (below_max h, used) refl) (restate-IsTable m.pool i _ t h used refl used) refl
    used_cases Command.ipc_rmid = elim (Bool-cases ((m.pool i).ref_count == 0)) [
      | inl z ↦ removed (==→eq _ _ z)
      | inr referenced ↦
          keeps CtlResult.done (as_zombie m i) (rw (below_max h, used, referenced) refl)
            zombie-IsTable refl
    ]
    used_cases Command.ipc_stat =
        keeps (CtlResult.unknown_copied (m.pool i)) m (rw (below_max h, used) refl) t refl
    used_cases Command.other = keeps CtlResult.unknown m (rw (below_max h, used) refl) t refl

  -- On a well-formed table, `shmctl` leaves a well-formed table. It gives memory back only for IPC_RMID of
  -- a segment without references: exactly that segment's memory, with its slot unused afterwards; and it
  -- fails only there, if `kmfree` does.
  pub shmctl-Controlled :
      (m : Shm S) (shmid : ℕ) (cmd : Command) → IsTable m.pool → Controlled m shmid cmd
  unfolding shmctl
  shmctl-Controlled m shmid cmd t = elim (Bool-cases (leb shmmax shmid)) [
    | inl out ↦ keeps CtlResult.invalid m (rw out refl) t refl
    | inr in_range ↦ elim (Bool-cases (is_unused (m.pool shmid).state)) [
      | inl free ↦ keeps CtlResult.invalid m (rw (in_range, free) refl) t refl
      | inr used ↦ used_cases m shmid t (ground arith) used cmd
    ]
  ]
