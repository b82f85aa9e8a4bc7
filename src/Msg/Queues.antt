-- ===== src/Msg/Queues.antt =====
-- The queues of messages as lists: when the nodes in memory form them, and changes of one queue.
use native.Mathlib.Decide.{ℕ_discrete}
use learn_os.Base.{
  ℕ, ◌<◌, ◌≡◌, ◌≢◌, refl, sym, ◌∙◌, fun_ext, List, [], length, ne→==, eq→==, update,
}
use learn_os.Chain.{IsChain, IsLast, Apart, contents}
use learn_os.Chain.Family.{Disjoint, IsFrom, update-Disjoint}
use learn_os.Msg.{msgmax, MsgBuf, MsgMsg, MsgQueue, Msgs}

abbrev pub next_of : MsgMsg → ℕ
next_of n = n.next

abbrev pub link : MsgMsg → ℕ → MsgMsg
link n x = record n { next = x }

abbrev pub content_of : MsgMsg → MsgBuf
content_of n = n.content

-- What queue `i` holds, in order.
abbrev pub holds : Msgs → List ℕ → List MsgBuf
holds m ns = contents content_of m.msgs ns

-- The messages of one queue.
pub record IsMsq (msgs : ℕ → MsgMsg) (q : MsgQueue) (ns : List ℕ) : Type 0 where
  pub chain : IsChain next_of msgs q.first ns
  pub last : IsLast q.last ns
  pub apart : Apart ns
  pub count : q.msg_count ≡ length ns

-- All queues: they share no message, and the last one of queue 0 is NULL if it is empty.
pub record IsMsqs (m : Msgs) (q : ℕ → List ℕ) : Type 0 where
  pub each : (i : ℕ) → i < msgmax → IsMsq m.msgs (m.pool i) (q i)
  pub share : Disjoint msgmax q
  pub zero_last : q 0 ≡ [] → (m.pool 0).last ≡ 0

-- What a change leaves of a queue.
pub record IsLeft (m : Msgs) (msgs : ℕ → MsgMsg) (i : ℕ) (ns : List ℕ) : Type 0 where
  pub chain : IsChain next_of msgs (m.pool i).first ns
  pub kept : contents content_of msgs ns ≡ holds m ns

module _ (m : Msgs) (q : ℕ → List ℕ) (v : IsMsqs m q) (i : ℕ) (low : i < msgmax) (msgs : ℕ → MsgMsg)
    (q' : MsgQueue) (ns : List ℕ) where
  -- One queue has changed, to messages of its own.
  pub changed-IsMsqs :
      ((j : ℕ) → j < msgmax → j ≢ i → IsLeft m msgs j (q j))
      → IsMsq msgs q' ns
      → IsFrom msgmax q i ns
      → (i ≡ 0 → ns ≡ [] → q'.last ≡ 0)
      → IsMsqs (record { msgs = msgs; pool = update m.pool i q' }) (update q i ns)
  changed-IsMsqs left now origin zero_last = record {
    each = λ j h. elim (ℕ_discrete j i) [
      | yes e ↦ rw (eq→== j i e) now
      | no ne ↦
          let w = v.each j h in
          rw (ne→== j i ne) (record {
            chain = (left j h ne).chain;
            last = w.last;
            apart = w.apart;
            count = w.count;
          })
    ];
    share = update-Disjoint msgmax q v.share i low ns origin;
    zero_last = λ e. elim (ℕ_discrete 0 i) [
      | yes z ↦ rw (eq→== 0 i z) (zero_last (sym z) (let t : ns ≡ [] = rw (eq→== 0 i z) at e in t))
      | no ne ↦ rw (ne→== 0 i ne) (v.zero_last (let t : q 0 ≡ [] = rw (ne→== 0 i ne) at e in t))
    ];
  }

-- Two updates in either order.
pub update_swap {ℓ} :
    {A : Type ℓ} (f : ℕ → A) (a b : ℕ) (x y : A)
    → a ≢ b
    → update (update f a x) b y ≡ update (update f b y) a x
update_swap f a b x y ne = fun_ext (λ c. elim (ℕ_discrete c a) [
  | yes e ↦ rw (eq→== c a e, ne→== c b (λ s. ne (sym e ∙ s))) refl
  | no other ↦ rw (ne→== c a other) refl
])
