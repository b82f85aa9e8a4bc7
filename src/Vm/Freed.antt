-- ===== src/Vm/Freed.antt =====
-- The calls of `kfree` in `uvmunmap`.
use learn_os.Base.{
  ℕ, zero, suc, ◌+◌, ◌*◌, ◌<◌, ◌≡◌, refl, sym, ap, ◌∙◌, Bool, arith, fun_ext, ◌&&◌, if◌then◌else◌,
  Option, some, ◌>>=◌,
}
use learn_os.Vm.{PageAllocator, is_valid, pte2pa}
use learn_os.Vm.Tables.{entry}

module _ {S : Type 0} (k : PageAllocator S) (root : ℕ) (do_free : Bool) where
  -- `kfree` of the page of a valid entry, with `do_free`.
  abbrev pub freed_entry : (entry : ℕ) → S → Option S
  freed_entry e h = if do_free && is_valid e then k.kfree (pte2pa e) h else some h

  -- The same for the entries of `n` pages, one after the other.
  unfoldable pub freed : (n : ℕ) → (ℕ → ℕ) → (va : ℕ) → S → Option S
  freed zero mem va h = some h
  freed (suc n) mem va h = do t ← freed_entry (entry mem root va) h; freed n mem (va + 4096) t

  -- The calls depend on these entries only.
  pub freed_same :
      (n : ℕ) (mem mem' : ℕ → ℕ) (va : ℕ) (h : S)
      → ((j : ℕ) → j < n → entry mem root (va + j * 4096) ≡ entry mem' root (va + j * 4096))
      → freed n mem va h ≡ freed n mem' va h
  unfolding freed
  freed_same zero mem mem' va h same = refl
  freed_same (suc n) mem mem' va h same =
      let at : va + 0 * 4096 ≡ va = omega arith in
      let here : entry mem root va ≡ entry mem' root va =
        sym (ap (entry mem root) at) ∙ same 0 (omega arith) ∙ ap (entry mem' root) at in
      rw here (
        ap (λ f. freed_entry (entry mem' root va) h >>= f)
          (fun_ext (λ t. freed_same n mem mem' (va + 4096) t (λ j l.
            let next : va + suc j * 4096 ≡ va + 4096 + j * 4096 = omega arith in
            sym (ap (entry mem root) next)
            ∙ same (suc j) (omega (arith, l))
            ∙ ap (entry mem' root) next))))
