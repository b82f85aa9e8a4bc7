-- ===== src/Msg/Receive/Ends.antt =====
-- Every way in which `msgrcv` ends.
use mathlib.Core.Path.{subst}
use learn_os.Base.{
  ℕ, suc, zero, ◌<◌, ◌≤◌, ◌≡◌, ◌≢◌, refl, sym, ap, ◌∙◌, Bool, true, false, Option, none, some, List,
  [], ◌∷◌, length, leb, leb→le, Bool-cases, Option-cases, inl, inr, ne→==, eq→==, if◌then◌else◌,
  arith,
}
use learn_os.Ipc.{is_unused}
use learn_os.Chain.{IsChain, before}
use learn_os.Chain.Find.{find, find-none-before}
use learn_os.Msg.{
  msgmax, MsgMsg, Msgs, RcvResult, Search, wanted, search_loop, unlink_wanted, cut_text,
  take_wanted, rcv_found, rcv_round, msgrcv,
}
use learn_os.Msg.Queues.{next_of, content_of, holds, IsMsqs}
use learn_os.Msg.Receive.{matches, IsReceived, takes_first, takes_later}

abbrev found : Option ℕ → Search
found none = Search.missing
found (some p) = Search.behind p

-- With a round for each message the search is that in the list.
search_loop-before :
    (left msgtype a : ℕ) (msgs : ℕ → MsgMsg) (ns : List ℕ)
    → IsChain next_of msgs (msgs a).next ns
    → length ns < left
    → search_loop left msgtype a msgs
      ≡ found (before (λ x. wanted msgtype (content_of (msgs x))) a ns)
unfolding search_loop
search_loop-before zero msgtype a msgs ns c enough = absurd (omega arith)
search_loop-before (suc left) msgtype a msgs [] c enough = rw (eq→== (msgs a).next 0 c) refl
search_loop-before (suc left) msgtype a msgs (b ∷ ns) (e, z, c) enough =
    let rest = search_loop-before left msgtype b msgs ns c (omega arith) in
    rw (e, ne→== b 0 z)
      (elim (Bool-cases (wanted msgtype (content_of (msgs b)))) [
        | inl y ↦ rw y refl
        | inr n ↦ rw n rest
      ])

-- How one round ends.
pub data RoundEnds (nowait : Bool) (msgsz msgtype id : ℕ) (m : Msgs) (q : ℕ → List ℕ)
    (r : RcvResult) : Type 0 where
  faults : q id ≡ [] → r ≡ RcvResult.fault → RoundEnds nowait msgsz msgtype id m q r
  missing :
      q id ≢ []
      → find (wanted msgtype) (holds m (q id)) ≡ none
      → r ≡ (if nowait then RcvResult.failed 1 else RcvResult.sleeping true)
      → RoundEnds nowait msgsz msgtype id m q r
  receives :
      (node : ℕ) (m' : Msgs)
      → r ≡ RcvResult.received (cut_text msgsz (m.msgs node).content) node m'
      → IsReceived m m' q id msgtype node
      → RoundEnds nowait msgsz msgtype id m q r

pub data RcvEnds (nowait : Bool) (msgsz msgtype id : ℕ) (m : Msgs) (q : ℕ → List ℕ) (r : RcvResult)
    : Type 0 where
  no_queue : msgmax ≤ id → r ≡ RcvResult.failed 1 → RcvEnds nowait msgsz msgtype id m q r
  not_used :
      id < msgmax
      → is_unused (m.pool id).state ≡ true
      → r ≡ RcvResult.failed 2
      → RcvEnds nowait msgsz msgtype id m q r
  empty :
      id < msgmax
      → is_unused (m.pool id).state ≡ false
      → q id ≡ []
      → r ≡ (if nowait then RcvResult.failed 1 else RcvResult.sleeping false)
      → RcvEnds nowait msgsz msgtype id m q r
  full :
      id < msgmax
      → is_unused (m.pool id).state ≡ false
      → q id ≢ []
      → RoundEnds nowait msgsz msgtype id m q r
      → RcvEnds nowait msgsz msgtype id m q r

module _ (m : Msgs) (q : ℕ → List ℕ) (v : IsMsqs m q) (id msgtype msgsz left : ℕ) (nowait : Bool)
    (low : id < msgmax) (enough : length (q id) ≤ left) where
  round_full :
      (a : ℕ) (ns : List ℕ)
      → q id ≡ a ∷ ns
      → RoundEnds nowait msgsz msgtype id m q (rcv_round nowait left msgsz msgtype id m)
  unfolding rcv_round take_wanted rcv_found
  round_full a ns e =
      let c : IsChain next_of m.msgs (m.pool id).first (a ∷ ns) =
        subst (λ l. IsChain next_of m.msgs (m.pool id).first l) e (v.each id low).chain in
      let test = matches msgtype m in
      let rounds : length ns < left =
        (let many : length (q id) ≡ suc (length ns) = ap length e in omega arith) in
      let searched = search_loop-before left msgtype a m.msgs ns c.2 rounds in
      elim (Bool-cases (test a)) [
        | inl y ↦
            receives (m.pool id).first (unlink_wanted id none m) (rw (c.0, ne→== a 0 c.1, y) refl)
              (takes_first m q v id msgtype low a ns e y)
        | inr n ↦ elim (Option-cases (before test a ns)) [
          | inl z ↦
              missing (λ z. let s : a ∷ ns ≡ [] = sym e ∙ z in cc)
                (rw (e, n) (find-none-before content_of m.msgs (wanted msgtype) a ns z))
                (rw (c.0, ne→== a 0 c.1, n, searched, z) refl)
          | inr (p, z) ↦
              receives (m.msgs p).next (unlink_wanted id (some p) m)
                (rw (c.0, ne→== a 0 c.1, n, searched, z) refl)
                (takes_later m q v id msgtype low a ns e p n z)
        ]
      ]

  -- A process that goes on with the search takes the first message of the type, which 0 stands for every
  -- type, out of the queue, with its text cut at `msgsz`; it fails or sleeps if there is none; but on a queue
  -- that is empty by now it reads through NULL. The rounds of the search are no fewer than the messages.
  pub rcv_round-RoundEnds :
      RoundEnds nowait msgsz msgtype id m q (rcv_round nowait left msgsz msgtype id m)
  unfolding rcv_round
  rcv_round-RoundEnds = by (q id) refl
    where
      by :
          (l : List ℕ)
          → q id ≡ l
          → RoundEnds nowait msgsz msgtype id m q (rcv_round nowait left msgsz msgtype id m)
      by [] e =
          let none_first : (m.pool id).first ≡ 0 =
            subst (λ l. IsChain next_of m.msgs (m.pool id).first l) e (v.each id low).chain in
          faults e (rw (eq→== (m.pool id).first 0 none_first) refl)
      by (a ∷ ns) e = round_full a ns e

module _ (m : Msgs) (q : ℕ → List ℕ) (v : IsMsqs m q) (id msgtype msgsz left : ℕ) (nowait : Bool)
    (enough : length (q id) ≤ left) where
  -- `msgrcv` takes the first message of the type out of a queue in use, fails or sleeps if there is none, and
  -- leaves the other queues; the message that is given back is in the queue no more. It does not fault, and
  -- the search ends. The rounds are no fewer than the messages of the queue.
  pub msgrcv-RcvEnds : RcvEnds nowait msgsz msgtype id m q (msgrcv nowait left msgsz msgtype id m)
  unfolding msgrcv
  msgrcv-RcvEnds = elim (Bool-cases (leb msgmax id)) [
    | inl y ↦ no_queue (leb→le msgmax id y) (rw y refl)
    | inr n ↦ elim (Bool-cases (is_unused (m.pool id).state)) [
      | inl free ↦ not_used (ground arith) free (rw (n, free) refl)
      | inr used ↦ let low : id < msgmax = ground arith in by low n used (q id) refl
    ]
  ]
    where
      by :
          id < msgmax
          → leb msgmax id ≡ false
          → is_unused (m.pool id).state ≡ false
          → (l : List ℕ) → q id ≡ l
          → RcvEnds nowait msgsz msgtype id m q (msgrcv nowait left msgsz msgtype id m)
      by low n used [] e =
          let none_first : (m.pool id).first ≡ 0 =
            subst (λ l. IsChain next_of m.msgs (m.pool id).first l) e (v.each id low).chain in
          empty low used e (rw (n, used, eq→== (m.pool id).first 0 none_first) refl)
      by low n used (a ∷ ns) e =
          let c : IsChain next_of m.msgs (m.pool id).first (a ∷ ns) =
            subst (λ l. IsChain next_of m.msgs (m.pool id).first l) e (v.each id low).chain in
          let same : msgrcv nowait left msgsz msgtype id m
              ≡ rcv_round nowait left msgsz msgtype id m =
            rw (n, used, ne→== (m.pool id).first 0 (λ z. c.1 (sym c.0 ∙ z))) refl in
          full low used (λ z. let s : a ∷ ns ≡ [] = sym e ∙ z in cc)
            (subst (λ r. RoundEnds nowait msgsz msgtype id m q r) (sym same)
              (rcv_round-RoundEnds m q v id msgtype msgsz left nowait low enough))
