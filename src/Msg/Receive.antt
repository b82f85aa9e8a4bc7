-- ===== src/Msg/Receive.antt =====
-- `msgrcv` takes the first message of a type out of a queue.
pub mod Ends
use mathlib.Core.Bool.{true≢false}
use mathlib.Core.Path.{subst}
use learn_os.Base.{
  ℕ, suc, ◌+◌, ◌-◌, ◌<◌, ◌≡◌, ◌≢◌, ◌⊎◌, refl, sym, ap, ◌∙◌, Bool, true, false, Option, none, some,
  List, [], ◌∷◌, length, ◌==◌, ==→eq, has, Bool-cases, Option-cases, inl, inr, ne→==, eq→==, update,
  if◌then◌else◌, arith,
}
use learn_os.Chain.{IsChain, IsLast, Apart, contents, remove_first, before}
use learn_os.Chain.Append.{update-IsChain, IsLast-has, contents-update, contents-link}
use learn_os.Chain.Unlink.{
  before-has, has-remove_first, Apart-remove_first, contents-remove_first, unlinked-IsChain,
  unlinked-IsLast,
}
use learn_os.Chain.Find.{find, IsTaken, first-IsTaken, later-IsTaken, before-IsTaken}
use learn_os.Chain.Family.{outside_one, appended-IsFrom}
use learn_os.Msg.{msgmax, MsgBuf, MsgMsg, MsgQueue, Msgs, wanted, unlink_wanted, wanted_node}
use learn_os.Msg.Queues.{next_of, link, content_of, holds, IsMsq, IsMsqs, IsLeft, changed-IsMsqs}

abbrev pub matches : (msgtype : ℕ) → Msgs → ℕ → Bool
matches msgtype m x = wanted msgtype (content_of (m.msgs x))

-- The first message of the type has left queue `id`, in `node`, which is in no queue then.
pub record IsReceived (m m' : Msgs) (q : ℕ → List ℕ) (id msgtype node : ℕ) : Type 0 where
  pub is_first : find (wanted msgtype) (holds m (q id)) ≡ some (m.msgs node).content
  pub queues : IsMsqs m' (update q id (remove_first (matches msgtype m) (q id)))
  pub rest :
      holds m' (remove_first (matches msgtype m) (q id))
      ≡ remove_first (wanted msgtype) (holds m (q id))
  pub others : (j : ℕ) → j < msgmax → j ≢ id → holds m' (q j) ≡ holds m (q j)
  pub gone : has node (remove_first (matches msgtype m) (q id)) ≡ false
  pub was_there : has node (q id) ≡ true

module _ (m : Msgs) (q : ℕ → List ℕ) (v : IsMsqs m q) (id msgtype : ℕ) (low : id < msgmax) where
  abbrev test : ℕ → Bool
  test = matches msgtype m

  -- What the cases of the code have in common: the changes of the queue itself.
  taken :
      (msgs : ℕ → MsgMsg) (q' : MsgQueue) (node : ℕ)
      → IsTaken next_of content_of m.msgs (wanted msgtype) (q id) node
      → ((j : ℕ) → j < msgmax → j ≢ id → IsLeft m msgs j (q j))
      → IsChain next_of msgs q'.first (remove_first test (q id))
      → IsLast q'.last (remove_first test (q id))
      → q'.msg_count ≡ (m.pool id).msg_count - 1
      → ((ns : List ℕ) → contents content_of msgs ns ≡ contents content_of m.msgs ns)
      → (id ≡ 0 → remove_first test (q id) ≡ [] → q'.last ≡ 0)
      → IsReceived m (record { msgs = msgs; pool = update m.pool id q' }) q id msgtype node
  taken msgs q' node t left chain last count kept zero_last = record {
    is_first = t.finds;
    queues =
        changed-IsMsqs m q v id low msgs q' (remove_first test (q id)) left
          (record {
            chain = chain;
            last = last;
            apart = Apart-remove_first test (q id) (v.each id low).apart;
            count = omega (arith, count, (v.each id low).count, t.shorter);
          })
          (λ a x. inl (has-remove_first test a (q id) x)) zero_last;
    rest =
        kept (remove_first test (q id))
        ∙ contents-remove_first content_of m.msgs (wanted msgtype) (q id);
    others = λ j h ne. (left j h ne).kept;
    gone = t.gone;
    was_there = t.inside;
  }

  module _ (a : ℕ) (ns : List ℕ) (e : q id ≡ a ∷ ns) where
    at_first : (m.pool id).first ≡ a
    at_first = (subst (λ l. IsChain next_of m.msgs (m.pool id).first l) e (v.each id low).chain).0

    not_null : a ≢ 0
    not_null = (subst (λ l. IsChain next_of m.msgs (m.pool id).first l) e (v.each id low).chain).1

    all-IsChain : IsChain next_of m.msgs (m.pool id).first (a ∷ ns)
    all-IsChain = subst (λ l. IsChain next_of m.msgs (m.pool id).first l) e (v.each id low).chain

    all-IsLast : IsLast (m.pool id).last (a ∷ ns)
    all-IsLast = subst (λ l. IsLast (m.pool id).last l) e (v.each id low).last

    all-Apart : Apart (a ∷ ns)
    all-Apart = subst (λ l. Apart l) e (v.each id low).apart

    -- `msqid_pool->last` is the first message of this queue only if this is queue 0.
    is_zero : (m.pool 0).last ≡ a → id ≡ 0
    is_zero s = by (q 0) refl
      where
        by : (l : List ℕ) → q 0 ≡ l → id ≡ 0
        by [] z = absurd (not_null (sym s ∙ v.zero_last z))
        by (b ∷ l) z =
            let last : IsLast (m.pool 0).last (b ∷ l) =
              subst (λ l. IsLast (m.pool 0).last l) z (v.each 0 (omega arith)).last in
            let there : has (m.pool 0).last (q 0) ≡ true =
              subst (λ l. has (m.pool 0).last l ≡ true) (sym z)
                (IsLast-has (m.pool 0).last b l last) in
            let here : has a (q id) ≡ true = rw (e, eq→== a a refl) refl in
            v.share id 0 a low (omega arith) here (rw s at there)

    only_one : (t : ℕ) (l : List ℕ) → t ≡ a → IsLast t (a ∷ l) → l ≡ []
    only_one t [] s w = refl
    only_one t (c ∷ l) s (ne, w) = absurd (ne s)

    behind-IsChain : IsChain next_of m.msgs (m.msgs a).next ns
    behind-IsChain = all-IsChain.2

    untouched : (j : ℕ) → j < msgmax → j ≢ id → IsLeft m m.msgs j (q j)
    untouched j h ne = record { chain = (v.each j h).chain; kept = refl }

    pub takes_first :
        test a ≡ true → IsReceived m (unlink_wanted id none m) q id msgtype (wanted_node id none m)
    unfolding unlink_wanted
    takes_first y =
        let t : IsTaken next_of content_of m.msgs (wanted msgtype) (q id) a =
          subst (λ l. IsTaken next_of content_of m.msgs (wanted msgtype) l a) (sym e)
            (first-IsTaken next_of content_of m.msgs (wanted msgtype) a ns all-Apart y) in
        let t' : IsTaken next_of content_of m.msgs (wanted msgtype) (q id) (m.pool id).first =
          subst (λ x. IsTaken next_of content_of m.msgs (wanted msgtype) (q id) x) (sym at_first)
            t in
        let rests : remove_first test (q id) ≡ ns = rw (e, y) refl in
        elim (Bool-cases ((m.pool id).first == (m.pool 0).last)) [
          | inl same ↦
              let s : (m.pool 0).last ≡ a =
                sym (==→eq (m.pool id).first (m.pool 0).last same) ∙ at_first in
              let z : id ≡ 0 = is_zero s in
              let none_left : ns ≡ [] =
                only_one (m.pool id).last ns (ap (λ i. (m.pool i).last) z ∙ s) all-IsLast in
              rw same (
                taken m.msgs _ (m.pool id).first t' untouched (rw (rests, none_left) refl)
                  (rw (rests, none_left) tt) refl (λ l. refl) (λ z r. refl))
          | inr other ↦ rw other (
              taken m.msgs _ (m.pool id).first t' untouched (rw (rests, at_first) behind-IsChain)
                (rw rests (left-IsLast ns all-IsLast)) refl (λ l. refl)
                (λ z r.
                  let single : (m.pool id).last ≡ a = last_one ns (sym rests ∙ r) all-IsLast in
                  let same : (m.pool id).first ≡ (m.pool 0).last =
                    at_first ∙ sym single ∙ ap (λ i. (m.pool i).last) z in
                  absurd (true≢false (sym (eq→== (m.pool id).first (m.pool 0).last same) ∙ other))))
        ]
      where
        left-IsLast : (l : List ℕ) → IsLast (m.pool id).last (a ∷ l) → IsLast (m.pool id).last l
        left-IsLast [] w = tt
        left-IsLast (c ∷ l) w = w.1

        last_one : (l : List ℕ) → l ≡ [] → IsLast (m.pool id).last (a ∷ l) → (m.pool id).last ≡ a
        last_one [] s w = w
        last_one (c ∷ l) s w = cc

    pub takes_later :
        (p : ℕ)
        → test a ≡ false
        → before test a ns ≡ some p
        → IsReceived m (unlink_wanted id (some p) m) q id msgtype (wanted_node id (some p) m)
    unfolding unlink_wanted
    takes_later p n w =
        let inner =
          before-IsTaken next_of content_of m.msgs (wanted msgtype) a p ns all-Apart.1
            behind-IsChain w in
        let t : IsTaken next_of content_of m.msgs (wanted msgtype) (q id) (m.msgs p).next =
          subst (λ l. IsTaken next_of content_of m.msgs (wanted msgtype) l (m.msgs p).next) (sym e)
            (later-IsTaken next_of content_of m.msgs (wanted msgtype) a (m.msgs p).next ns all-Apart
              n inner) in
        let inside : has p (q id) ≡ true = rw e (before-has test a p ns w) in
        let rests : remove_first test (q id) ≡ a ∷ remove_first test ns = rw (e, n) refl in
        taken _ _ (m.msgs p).next t
          (λ j h ne.
            let out = outside_one msgmax q v.share id low j p h ne inside in
            record {
              chain =
                  update-IsChain next_of m.msgs (m.pool j).first p _ (q j) out (v.each j h).chain;
              kept = contents-update content_of m.msgs p _ (q j) out;
            })
          (rw rests (
            unlinked-IsChain next_of link (λ n x. refl) m.msgs test (m.pool id).first a p ns
              all-Apart all-IsChain w))
          (rw rests (
            unlinked-IsLast next_of link (λ n x. refl) m.msgs test (m.pool id).first
              (m.pool id).last a p ns all-Apart all-IsChain all-IsLast w))
          refl (λ l. contents-link content_of m.msgs p _ l refl)
          (λ z r. let s : a ∷ remove_first test ns ≡ [] = sym rests ∙ r in cc)
