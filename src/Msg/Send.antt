-- ===== src/Msg/Send.antt =====
-- `msgsnd` puts a message behind a queue.
use mathlib.Core.Bool.{true≢false}
use mathlib.Core.Path.{subst}
use learn_os.Base.{
  ℕ, ◌+◌, ◌<◌, ◌≤◌, ◌≡◌, ◌≢◌, refl, sym, ap, ap₂, ◌∙◌, Bool, true, false, List, [], ◌∷◌, ◌++◌,
  length, length-append, leb, leb→le, has, Bool-cases, inl, inr, ne→==, eq→==, update,
  if◌then◌else◌, arith,
}
use learn_os.Ipc.{is_unused}
use learn_os.Chain.{IsChain, IsLast, contents}
use learn_os.Chain.Append.{
  update-IsChain, linked-IsChain, IsLast-has, IsLast-appended, has-append_last, contents-update,
  contents-link, contents-append, Apart-append,
}
use learn_os.Chain.Family.{outside_one}
use learn_os.Msg.{
  msgmax, MsgBuf, MsgMsg, MsgQueue, Msgs, SndResult, put_last, mtype_positive, snd_section, msgsnd,
}
use learn_os.Msg.Queues.{
  next_of, link, content_of, holds, IsMsqs, IsLeft, changed-IsMsqs, update_swap,
}

-- The queues after a message is put behind queue `id`.
pub record IsSent (m m' : Msgs) (q : ℕ → List ℕ) (id newmsg : ℕ) (copied : MsgBuf) : Type 0 where
  pub queues : IsMsqs m' (update q id (q id ++ newmsg ∷ []))
  pub behind : holds m' (q id ++ newmsg ∷ []) ≡ holds m (q id) ++ copied ∷ []
  pub others : (j : ℕ) → j < msgmax → j ≢ id → holds m' (q j) ≡ holds m (q j)

module _ (m : Msgs) (q : ℕ → List ℕ) (v : IsMsqs m q) (id newmsg : ℕ) (low : id < msgmax)
    (real : newmsg ≢ 0) (fresh : (j : ℕ) → j < msgmax → has newmsg (q j) ≡ false) where
  abbrev ended : ℕ → MsgMsg
  ended = update m.msgs newmsg (link (m.msgs newmsg) 0)

  ended-IsLeft : (j : ℕ) → j < msgmax → IsLeft m ended j (q j)
  ended-IsLeft j h = record {
    chain =
        update-IsChain next_of m.msgs (m.pool j).first newmsg _ (q j) (fresh j h)
          (v.each j h).chain;
    kept = contents-update content_of m.msgs newmsg _ (q j) (fresh j h);
  }

  -- What the two branches of the code have in common.
  appended :
      (msgs : ℕ → MsgMsg) (q' : MsgQueue)
      → ((j : ℕ) → j < msgmax → j ≢ id → IsLeft m msgs j (q j))
      → IsChain next_of msgs q'.first (q id ++ newmsg ∷ [])
      → contents content_of msgs (q id) ≡ holds m (q id)
      → (msgs newmsg).content ≡ (m.msgs newmsg).content
      → q'.last ≡ newmsg
      → q'.msg_count ≡ (m.pool id).msg_count + 1
      → IsSent m
          (record { msgs = msgs; pool = update m.pool id q' })
          q
          id
          newmsg
          (m.msgs newmsg).content
  appended msgs q' left chain kept same last count = record {
    queues =
        changed-IsMsqs m q v id low msgs q' (q id ++ newmsg ∷ []) left
          (record {
            chain = chain;
            last = rw last (IsLast-appended newmsg (q id) (fresh id low));
            apart = Apart-append newmsg (q id) (fresh id low) (v.each id low).apart;
            count = omega (arith, count, (v.each id low).count, length-append (q id) (newmsg ∷ []));
          })
          (λ a x. elim (has-append_last a newmsg (q id) x) [
            | inl old ↦ inl old
            | inr new ↦ inr (λ j h. subst (λ y. has y (q j) ≡ false) new (fresh j h))
          ])
          (λ z e. absurd (no_end (q id) e));
    behind = contents-append content_of msgs newmsg (q id) ∙ ap₂ (λ l x. l ++ x ∷ []) kept same;
    others = λ j h ne. (left j h ne).kept;
  }
    where
      no_end : (l : List ℕ) → l ++ newmsg ∷ [] ≡ [] → ⊥
      no_end [] e = cc
      no_end (a ∷ l) e = cc

  put_empty : q id ≡ [] → IsSent m (put_last id newmsg m) q id newmsg (m.msgs newmsg).content
  unfolding put_last
  put_empty e =
      let empty : (m.pool id).first ≡ 0 =
        subst (λ l. IsChain next_of m.msgs (m.pool id).first l) e (v.each id low).chain in
      let node : ended newmsg ≡ link (m.msgs newmsg) 0 = rw (eq→== newmsg newmsg refl) refl in
      rw (eq→== (m.pool id).first 0 empty) (
        appended ended _ (λ j h ne. ended-IsLeft j h) (rw e (refl, real, ap next_of node))
          (ended-IsLeft id low).kept (ap content_of node) refl refl)

  put_full :
      (a : ℕ) (ns : List ℕ)
      → q id ≡ a ∷ ns
      → IsSent m (put_last id newmsg m) q id newmsg (m.msgs newmsg).content
  unfolding put_last
  put_full a ns e =
      let t = (m.pool id).last in
      let c : IsChain next_of m.msgs (m.pool id).first (a ∷ ns) =
        subst (λ l. IsChain next_of m.msgs (m.pool id).first l) e (v.each id low).chain in
      let l : IsLast t (a ∷ ns) = subst (λ l. IsLast t l) e (v.each id low).last in
      let f : has newmsg (a ∷ ns) ≡ false = subst (λ l. has newmsg l ≡ false) e (fresh id low) in
      let k : IsChain next_of ended (m.pool id).first (a ∷ ns) =
        subst (λ l. IsChain next_of ended (m.pool id).first l) e (ended-IsLeft id low).chain in
      let inside : has t (q id) ≡ true =
        subst (λ l. has t l ≡ true) (sym e) (IsLast-has t a ns l) in
      let differ : t ≢ newmsg =
        (λ s. true≢false (sym inside ∙ subst (λ y. has y (q id) ≡ false) (sym s) (fresh id low))) in
      let linked = update ended t (link (ended t) newmsg) in
      let at_last : ended t ≡ m.msgs t = rw (ne→== t newmsg differ) refl in
      let at_new : update m.msgs t (link (m.msgs t) newmsg) newmsg ≡ m.msgs newmsg =
        rw (ne→== newmsg t (λ s. differ (sym s))) refl in
      let node : linked newmsg ≡ link (m.msgs newmsg) 0 =
        rw (ne→== newmsg t (λ s. differ (sym s)), eq→== newmsg newmsg refl) refl in
      let orders : linked
          ≡ update (update m.msgs t (link (m.msgs t) newmsg)) newmsg
              (link (update m.msgs t (link (m.msgs t) newmsg) newmsg) 0) =
        ap (λ n. update ended t (link n newmsg)) at_last
        ∙ sym (update_swap m.msgs t newmsg (link (m.msgs t) newmsg) (link (m.msgs newmsg) 0) differ)
        ∙ ap (λ n. update (update m.msgs t (link (m.msgs t) newmsg)) newmsg (link n 0))
            (sym at_new) in
      rw (ne→== (m.pool id).first 0 (λ z. c.1 (sym c.0 ∙ z)), sym orders)
        (appended linked _
          (λ j h ne.
            let out = outside_one msgmax q v.share id low j t h ne inside in
            record {
              chain =
                  update-IsChain next_of ended (m.pool j).first t _ (q j) out
                    (ended-IsLeft j h).chain;
              kept = contents-update content_of ended t _ (q j) out ∙ (ended-IsLeft j h).kept;
            })
          (rw e (
            linked-IsChain next_of link (λ n x. refl) ended (m.pool id).first t newmsg a ns f real
              (let n : ended newmsg ≡ link (m.msgs newmsg) 0 = rw (eq→== newmsg newmsg refl) refl in
                ap next_of n)
              l k))
          (contents-link content_of ended t _ (q id) refl ∙ (ended-IsLeft id low).kept)
          (ap content_of node) refl refl)

  pub put_last-IsSent : IsSent m (put_last id newmsg m) q id newmsg (m.msgs newmsg).content
  put_last-IsSent = by (q id) refl
    where
      by :
          (l : List ℕ)
          → q id ≡ l
          → IsSent m (put_last id newmsg m) q id newmsg (m.msgs newmsg).content
      by [] e = put_empty e
      by (a ∷ ns) e = put_full a ns e

-- Queues that hold the same.
pub record IsSame (m m' : Msgs) (q : ℕ → List ℕ) : Type 0 where
  pub queues : IsMsqs m' q
  pub holds_same : (j : ℕ) → j < msgmax → holds m' (q j) ≡ holds m (q j)

-- Every way in which `msgsnd` ends. With `filled` the new message has the contents, in no queue yet.
pub data SndEnds (nowait : Bool) (m : Msgs) (q : ℕ → List ℕ) (id newmsg : ℕ) (copied : MsgBuf)
    (filled : Msgs) : Type 0 where
  no_queue :
      msgmax ≤ id
      → msgsnd nowait id newmsg copied m ≡ SndResult.failed 1 m
      → SndEnds nowait m q id newmsg copied filled
  not_used :
      id < msgmax
      → is_unused (m.pool id).state ≡ true
      → msgsnd nowait id newmsg copied m ≡ SndResult.failed 2 m
      → SndEnds nowait m q id newmsg copied filled
  wrong_type :
      id < msgmax
      → is_unused (m.pool id).state ≡ false
      → mtype_positive copied.mtype ≡ false
      → msgsnd nowait id newmsg copied m ≡ SndResult.failed 3 filled
      → IsSame m filled q
      → SndEnds nowait m q id newmsg copied filled
  full :
      id < msgmax
      → is_unused (m.pool id).state ≡ false
      → mtype_positive copied.mtype ≡ true
      → (m.pool id).maxlen ≤ length (q id)
      → msgsnd nowait id newmsg copied m
        ≡ (if nowait then SndResult.failed 1 filled else SndResult.sleeping filled)
      → IsSame m filled q
      → SndEnds nowait m q id newmsg copied filled
  put :
      (m' : Msgs)
      → id < msgmax
      → is_unused (m.pool id).state ≡ false
      → length (q id) < (m.pool id).maxlen
      → mtype_positive copied.mtype ≡ true
      → msgsnd nowait id newmsg copied m ≡ SndResult.sent m'
      → IsSent m m' q id newmsg copied
      → SndEnds nowait m q id newmsg copied filled

abbrev pub filled_with : (newmsg : ℕ) → MsgBuf → Msgs → Msgs
filled_with newmsg copied m = record m {
  msgs = update m.msgs newmsg (record (m.msgs newmsg) { content = copied });
}

module _ (m : Msgs) (q : ℕ → List ℕ) (v : IsMsqs m q) (id newmsg : ℕ) (copied : MsgBuf)
    (real : newmsg ≢ 0) (fresh : (j : ℕ) → j < msgmax → has newmsg (q j) ≡ false) where
  filled_holds : (j : ℕ) → j < msgmax → holds (filled_with newmsg copied m) (q j) ≡ holds m (q j)
  filled_holds j h = contents-update content_of m.msgs newmsg _ (q j) (fresh j h)

  filled-IsMsqs : IsMsqs (filled_with newmsg copied m) q
  filled-IsMsqs = record {
    each = λ j h.
        let w = v.each j h in
        record {
          chain = update-IsChain next_of m.msgs (m.pool j).first newmsg _ (q j) (fresh j h) w.chain;
          last = w.last;
          apart = w.apart;
          count = w.count;
        };
    share = v.share;
    zero_last = v.zero_last;
  }

  filled-IsSame : IsSame m (filled_with newmsg copied m) q
  filled-IsSame = record { queues = filled-IsMsqs; holds_same = filled_holds }

  filled-IsSent :
      id < msgmax → IsSent m (put_last id newmsg (filled_with newmsg copied m)) q id newmsg copied
  filled-IsSent low =
      let s =
        put_last-IsSent (filled_with newmsg copied m) q filled-IsMsqs id newmsg low real fresh in
      let node : (filled_with newmsg copied m).msgs newmsg
          ≡ record (m.msgs newmsg) { content = copied } =
        rw (eq→== newmsg newmsg refl) refl in
      record {
        queues = s.queues;
        behind = s.behind ∙ ap₂ (λ l x. l ++ x ∷ []) (filled_holds id low) (ap content_of node);
        others = λ j h ne. s.others j h ne ∙ filled_holds j h;
      }

  -- `msgsnd` puts the message behind those of the queue, if that is in use and holds less than `maxlen`
  -- messages, and leaves the other queues; in every other case the queues stay as they are, and a full queue
  -- ends the call at once exactly with `IPC_NOWAIT`. The queues share no message, and the new one is not NULL
  -- and in none of them.
  pub msgsnd-SndEnds :
      (nowait : Bool) → SndEnds nowait m q id newmsg copied (filled_with newmsg copied m)
  unfolding msgsnd snd_section
  msgsnd-SndEnds nowait = elim (Bool-cases (leb msgmax id)) [
    | inl y ↦ no_queue (leb→le msgmax id y) (rw y refl)
    | inr n ↦ elim (Bool-cases (is_unused (m.pool id).state)) [
      | inl free ↦ not_used (ground arith) free (rw (n, free) refl)
      | inr used ↦ elim (Bool-cases (mtype_positive copied.mtype)) [
        | inr wrong ↦ wrong_type (ground arith) used wrong (rw (n, used, wrong) refl) filled-IsSame
        | inl right ↦
            let low : id < msgmax = ground arith in
            let holds_all = (v.each id low).count in
            elim (Bool-cases (leb (m.pool id).maxlen (m.pool id).msg_count)) [
              | inl much ↦
                  full low used right
                    (let le = leb→le (m.pool id).maxlen (m.pool id).msg_count much in omega arith)
                    (rw (n, used, right, much) refl) filled-IsSame
              | inr few ↦
                  put (put_last id newmsg (filled_with newmsg copied m)) low used (ground arith)
                    right (rw (n, used, right, few) refl) (filled-IsSent low)
            ]
      ]
    ]
  ]
