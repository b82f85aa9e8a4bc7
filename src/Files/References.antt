-- ===== src/Files/References.antt =====
-- The reference counts of the open files, under every order of the operations.
use native.Mathlib.Decide.{ℕ_discrete}
use mathlib.Core.Path.{subst}
use learn_os.Base.{
  ℕ, ◌+◌, ◌-◌, ◌%◌, ◌^◌, ◌≤◌, ◌<◌, ◌≡◌, ◌≢◌, refl, sym, ap, ◌∙◌, true, Option, none, some, List, [],
  ◌∷◌, ◌==◌, has, erase, length, ltb, ltb→lt, Bool-cases, inl, inr, ne→==, eq→==, ==→eq, arith,
  update, some-inj,
}
use learn_os.Proc.Table.{First, absent, found, first-First}
use learn_os.Files.{
  nfile, File, FileTable, fd_none, referenced, filealloc, filealloc_at, filedup, fileclose, Closing,
  still_open, closing,
}
use learn_os.Files.Counts.{count, count_le, count-has, count-erase, count-erase_other, length-erase}

-- The table, and the references to files that processes and their descriptors have.
pub record Open : Type 0 where
  pub files : FileTable
  pub owners : List ℕ

pub data Step (u : Open) : Open → Type 0 where
  opens :
      (f : ℕ) (t : FileTable)
      → filealloc u.files ≡ (some f, t)
      → length u.owners + 1 < 2 ^ 31
      → Step u (record { files = t; owners = f ∷ u.owners })
  sets :
      (f : ℕ) (x : File)
      → x.ref ≡ (u.files f).ref
      → Step u (record u { files = update u.files f x })
  dups :
      (f : ℕ) (t : FileTable)
      → has f u.owners ≡ true
      → filedup u.files f ≡ some t
      → length u.owners + 1 < 2 ^ 31
      → Step u (record { files = t; owners = f ∷ u.owners })
  closes :
      (f : ℕ) (c : Closing) (t : FileTable)
      → has f u.owners ≡ true
      → fileclose u.files f ≡ some (c, t)
      → Step u (record { files = t; owners = erase f u.owners })

pub data Reach (u : Open) : Open → Type 0 where
  start : Reach u u
  next : {v w : Open} → Reach u v → Step v w → Reach u w

pub record IsCounted (u : Open) : Type 0 where
  pub refs : (f : ℕ) → (u.files f).ref ≡ count f u.owners
  pub small : length u.owners < 2 ^ 31

referenced_lem :
    (u : Open) (f : ℕ) → IsCounted u → has f u.owners ≡ true → referenced (u.files f) ≡ true
referenced_lem u f g h =
    let some_ref : 0 < count f u.owners = count-has f u.owners h in
    let few : count f u.owners ≤ length u.owners = count_le f u.owners in
    let limit = g.small in rw (g.refs f) (ground arith)

-- The table after the count of one file is changed.
counted :
    (u : Open) (f : ℕ) (x : File) (l : List ℕ)
    → IsCounted u
    → x.ref ≡ count f l
    → ((k : ℕ) → k ≢ f → count k l ≡ count k u.owners)
    → length l < 2 ^ 31
    → IsCounted (record { files = update u.files f x; owners = l })
counted u f x l g e others s = record {
  refs = λ k. elim (ℕ_discrete k f) [
    | yes same ↦ rw (eq→== k f same, same) e
    | no ne ↦ rw (ne→== k f ne) (g.refs k ∙ sym (others k ne))
  ];
  small = s;
}

count_cons : (f : ℕ) (l : List ℕ) → count f (f ∷ l) ≡ count f l + 1
count_cons f l = rw (eq→== f f refl) (omega arith)

count_cons_other : (f k : ℕ) (l : List ℕ) → k ≢ f → count k (f ∷ l) ≡ count k l
count_cons_other f k l ne = rw (ne→== f k (λ e. ne (sym e))) refl

-- What `filedup` and `fileclose` do with a file that is referenced: the object of the file is given up
-- with the last reference, and not before.
pub data Closes (u : Open) (f : ℕ) : Type 0 where
  stays :
      1 < count f u.owners
      → fileclose u.files f
        ≡ some (still_open, update u.files f (record (u.files f) { ref = (u.files f).ref - 1 }))
      → Closes u f
  gives_up :
      count f u.owners ≡ 1
      → fileclose u.files f
        ≡ some (
          closing (u.files f).kind (u.files f),
          update u.files f (record (u.files f) { ref = 0; kind = fd_none }),
        )
      → Closes u f

fileclose-Closes : (u : Open) (f : ℕ) → IsCounted u → has f u.owners ≡ true → Closes u f
unfolding fileclose
fileclose-Closes u f g h =
    let r = referenced_lem u f g h in
    let n = g.refs f in
    let pos = count-has f u.owners h in
    elim (Bool-cases (ltb 0 ((u.files f).ref - 1))) [
      | inl y ↦ stays (omega (arith, ltb→lt 0 _ y)) (rw (r, y) refl)
      | inr z ↦ gives_up (ground arith) (rw (r, z) refl)
    ]

filedup_lem :
    (u : Open) (f : ℕ)
    → IsCounted u
    → has f u.owners ≡ true
    → filedup u.files f
      ≡ some (update u.files f (record (u.files f) { ref = ((u.files f).ref + 1) % 2 ^ 32 }))
unfolding filedup
filedup_lem u f g h = rw (referenced_lem u f g h) refl

opened :
    (u : Open) (o : Option ℕ) (f : ℕ) (t : FileTable)
    → IsCounted u
    → First nfile 0 (λ f. (u.files f).ref == 0) o
    → filealloc_at u.files o ≡ (some f, t)
    → length u.owners + 1 < 2 ^ 31
    → IsCounted (record { files = t; owners = f ∷ u.owners })
unfolding filealloc_at
opened u o f t g (absent n _) e s =
    let there : filealloc_at u.files none ≡ (some f, t) = rw n at e in
    let none_there : none ≡ some f = ap (λ p. p.0) there in absurd cc
opened u o f t g (found k n _ _ z _) e s =
    let there : filealloc_at u.files (some k) ≡ (some f, t) = rw n at e in
    let same_file : k ≡ f = some-inj (ap (λ p. p.0) there) in
    let same : update u.files k (record (u.files k) { ref = 1 }) ≡ t = ap (λ p. p.1) there in
    let unused : count k u.owners ≡ 0 = sym (g.refs k) ∙ ==→eq _ _ z in
    subst (λ t. IsCounted (record { files = t; owners = f ∷ u.owners })) same
      (rw⁻¹ same_file (
        counted u k (record (u.files k) { ref = 1 }) (k ∷ u.owners) g
          (sym (count_cons k u.owners ∙ rw unused refl)) (λ j ne. count_cons_other k j u.owners ne)
          (omega (arith, s))))

Step-IsCounted : {u v : Open} → IsCounted u → Step u v → IsCounted v
unfolding filealloc filedup fileclose
Step-IsCounted {u} g (opens f t e s) =
    opened u _ f t g (first-First nfile 0 (λ f. (u.files f).ref == 0)) e s
Step-IsCounted {u} g (sets f x e) = counted u f x u.owners g (e ∙ g.refs f) (λ k ne. refl) g.small
Step-IsCounted {u} g (dups f t h e s) =
    let same = some-inj (sym (filedup_lem u f g h) ∙ e) in
    let few : count f u.owners ≤ length u.owners = count_le f u.owners in
    let limit = g.small in
    let n = g.refs f in
    let plus_one : ((u.files f).ref + 1) % 2 ^ 32 ≡ count f u.owners + 1 = ground arith in
    subst (λ t. IsCounted (record { files = t; owners = f ∷ u.owners })) same
      (counted u f (record (u.files f) { ref = ((u.files f).ref + 1) % 2 ^ 32 }) (f ∷ u.owners) g
        (plus_one ∙ sym (count_cons f u.owners)) (λ j ne. count_cons_other f j u.owners ne)
        (omega (arith, s)))
Step-IsCounted {u} g (closes f c t h e) =
    let n = g.refs f in
    let fewer = count-erase f u.owners h in
    let shorter : length (erase f u.owners) < 2 ^ 31 =
      omega (arith, g.small, length-erase f u.owners) in
    elim (fileclose-Closes u f g h) [
      | stays more d ↦
          let same = ap (λ p. p.1) (some-inj (sym d ∙ e)) in
          subst (λ t. IsCounted (record { files = t; owners = erase f u.owners })) same
            (counted u f (record (u.files f) { ref = (u.files f).ref - 1 }) (erase f u.owners) g
              (omega arith) (λ j ne. count-erase_other f j u.owners ne) shorter)
      | gives_up one d ↦
          let same = ap (λ p. p.1) (some-inj (sym d ∙ e)) in
          subst (λ t. IsCounted (record { files = t; owners = erase f u.owners })) same
            (counted u f (record (u.files f) { ref = 0; kind = fd_none }) (erase f u.owners) g
              (omega arith) (λ j ne. count-erase_other f j u.owners ne) shorter)
    ]

pub record IsStart (u : Open) : Type 0 where
  pub no_refs : (f : ℕ) → (u.files f).ref ≡ 0
  pub no_owners : u.owners ≡ []

Reach-IsCounted : {u v : Open} → IsStart u → Reach u v → IsCounted v
Reach-IsCounted {u} s start = record {
  refs = λ f. s.no_refs f ∙ rw s.no_owners refl;
  small = rw s.no_owners (omega arith);
}
Reach-IsCounted s (next r st) = Step-IsCounted (Reach-IsCounted s r) st

-- What the table promises to who has a reference to a file.
pub record IsKept (u : Open) (f : ℕ) : Type 0 where
  pub counts : (u.files f).ref ≡ count f u.owners
  pub closes_it : Closes u f
  pub dups_it : (t : FileTable) × (filedup u.files f ≡ some t)
  pub not_allocated : (t : FileTable) → filealloc u.files ≢ (some f, t)

fresh :
    (u : Open) (o : Option ℕ) (f : ℕ) (t : FileTable)
    → First nfile 0 (λ f. (u.files f).ref == 0) o
    → filealloc_at u.files o ≡ (some f, t)
    → (u.files f).ref ≡ 0
unfolding filealloc_at
fresh u o f t (absent n _) e =
    let there : filealloc_at u.files none ≡ (some f, t) = rw n at e in
    let none_there : none ≡ some f = ap (λ p. p.0) there in absurd cc
fresh u o f t (found k n _ _ z _) e =
    let there : filealloc_at u.files (some k) ≡ (some f, t) = rw n at e in
    let same_file : k ≡ f = some-inj (ap (λ p. p.0) there) in rw⁻¹ same_file (==→eq _ _ z)

-- From a table without references, after any opens, settings of fields, dups and closes, with fewer than
-- 2^31 references at once: `ref` of a file that is referenced is the number of its references; `filedup`
-- of it succeeds; `fileclose` of it succeeds, gives its object up if this was the last reference and only
-- counts down if not; and `filealloc` does not return it.
pub Reach-IsKept :
    {u v : Open} → IsStart u → Reach u v → (f : ℕ) → has f v.owners ≡ true → IsKept v f
unfolding filealloc
Reach-IsKept {u} {v} s r f h =
    let g = Reach-IsCounted s r in
    record {
      counts = g.refs f;
      closes_it = fileclose-Closes v f g h;
      dups_it = (_, filedup_lem v f g h);
      not_allocated = λ t e.
          let zero_refs = fresh v _ f t (first-First nfile 0 (λ f. (v.files f).ref == 0)) e in
          let n = g.refs f in let some_refs = count-has f v.owners h in omega arith;
    }
