-- ===== src/Msg.antt =====
-- kernel/msg.c: the message queues, `msgsnd` and `msgrcv`. A process that sleeps gives the queue's lock away:
-- it runs again from the critical section that it left. The address that `kmalloc` returns for a message and
-- what `copyin` writes there are arguments.
pub mod Queues
pub mod Send
pub mod Receive
mod Tests
use learn_os.Base.{
  ℕ, zero, suc, ◌+◌, ◌-◌, ◌^◌, Bool, true, false, Option, none, some, ltb, leb, ◌==◌, ◌&&◌, ◌||◌,
  not, update, if◌then◌else◌,
}
use learn_os.Ipc.{IpcState, is_unused}

abbrev pub msgmax : ℕ
msgmax = 16

-- `struct msgbuf`; `mtype` is a 32-bit pattern.
pub record MsgBuf : Type 0 where
  pub mtype : ℕ
  pub length : ℕ
  pub mtext : ℕ → ℕ

-- `struct msg_msg`
pub record MsgMsg : Type 0 where
  pub content : MsgBuf
  pub next : ℕ

-- `struct msg_queue`, without its lock and its number.
pub record MsgQueue : Type 0 where
  pub first : ℕ
  pub last : ℕ
  pub flag : ℕ
  pub key : ℕ
  pub msg_count : ℕ
  pub maxlen : ℕ
  pub ref_count : ℕ
  pub state : IpcState

-- The messages in memory and `msqid_pool`.
pub record Msgs : Type 0 where
  pub msgs : ℕ → MsgMsg
  pub pool : ℕ → MsgQueue

abbrev pub no_queue : MsgQueue
no_queue = record {
  first = 0;
  last = 0;
  flag = 0;
  key = 0;
  msg_count = 0;
  maxlen = 16;
  ref_count = 0;
  state = IpcState.unused;
}

unfoldable pub msqinit : Msgs → Msgs
msqinit m = record m { pool = λ i. if ltb i msgmax then no_queue else m.pool i }

-- How a call ends: with the negative code, or with 0; or the process sleeps on the queue's channel.
pub data SndResult : Type 0 where
  failed : (minus : ℕ) → Msgs → SndResult
  sleeping : Msgs → SndResult
  sent : Msgs → SndResult

-- The message is put behind the last one.
unfoldable pub put_last : (msqid newmsg : ℕ) → Msgs → Msgs
put_last msqid newmsg m =
    let q = m.pool msqid in
    let ended = record (m.msgs newmsg) { next = 0 } in
    if q.first == 0
    then record {
      msgs = update m.msgs newmsg ended;
      pool =
          update m.pool msqid
            (record q { first = newmsg; last = newmsg; msg_count = q.msg_count + 1 });
    }
    else record {
      msgs =
          update (update m.msgs q.last (record (m.msgs q.last) { next = newmsg })) newmsg
            (record (update m.msgs q.last (record (m.msgs q.last) { next = newmsg }) newmsg) {
              next = 0;
            });
      pool = update m.pool msqid (record q { last = newmsg; msg_count = q.msg_count + 1 });
    }

-- The second critical section of `msgsnd`, where a sleeping process goes on.
unfoldable pub snd_section : (nowait : Bool) (msqid newmsg : ℕ) → Msgs → SndResult
snd_section nowait msqid newmsg m =
    if leb (m.pool msqid).maxlen (m.pool msqid).msg_count
    then if nowait then SndResult.failed 1 m else SndResult.sleeping m
    else SndResult.sent (put_last msqid newmsg m)

-- `mtype <= 0` for a signed number of 32 bits.
abbrev pub mtype_positive : ℕ → Bool
mtype_positive t = ltb 0 t && ltb t (2 ^ 31)

-- `msgsnd`, where no other process changes the queue between the critical sections.
unfoldable pub msgsnd : (nowait : Bool) (msqid newmsg : ℕ) (copied : MsgBuf) → Msgs → SndResult
msgsnd nowait msqid newmsg copied m =
    let made = record m {
      msgs = update m.msgs newmsg (record (m.msgs newmsg) { content = copied });
    } in
    if leb msgmax msqid
    then SndResult.failed 1 m
    else if is_unused (m.pool msqid).state
    then SndResult.failed 2 m
    else if not (mtype_positive copied.mtype)
    then SndResult.failed 3 made
    else snd_section nowait msqid newmsg made

-- The result of `msgrcv` on success is what is copied out, and the message that is given back. A process that
-- sleeps for a queue with a message looks at its first message when it goes on, without a test for NULL: this
-- is a fault on an empty queue.
pub data RcvResult : Type 0 where
  failed : (minus : ℕ) → RcvResult
  sleeping : (for_type : Bool) → RcvResult
  fault : RcvResult
  out_of_rounds : RcvResult
  received : (out : MsgBuf) (wantednode : ℕ) → Msgs → RcvResult

-- `msgtype == 0 || content.mtype == msgtype`
abbrev pub wanted : (msgtype : ℕ) → MsgBuf → Bool
wanted msgtype b = msgtype == 0 || b.mtype == msgtype

pub data Search : Type 0 where
  stopped : Search
  missing : Search
  behind : ℕ → Search

-- The `while` loop, from `prev` on.
unfoldable pub search_loop : (left : ℕ) (msgtype prev : ℕ) → (ℕ → MsgMsg) → Search
search_loop zero msgtype prev msgs = Search.stopped
search_loop (suc left) msgtype prev msgs =
    let rest = search_loop left msgtype (msgs prev).next msgs in
    if (msgs prev).next == 0
    then Search.missing
    else if wanted msgtype (msgs (msgs prev).next).content
    then Search.behind prev
    else rest

-- The message leaves the queue; `none` is a `prev` that is NULL.
unfoldable pub unlink_wanted : (msqid : ℕ) → Option ℕ → Msgs → Msgs
unlink_wanted msqid none m =
    let q = m.pool msqid in
    record m {
      pool = update m.pool msqid (
          if q.first == (m.pool 0).last
          then record q { first = 0; last = 0; msg_count = q.msg_count - 1 }
          else record q { first = (m.msgs q.first).next; msg_count = q.msg_count - 1 });
    }
unlink_wanted msqid (some prev) m =
    let q = m.pool msqid in
    let after = (m.msgs prev).next in
    record {
      msgs = update m.msgs prev (record (m.msgs prev) { next = (m.msgs after).next });
      pool = update m.pool msqid (record q {
        last = if q.last == after then prev else q.last;
        msg_count = q.msg_count - 1;
      });
    }

abbrev pub wanted_node : (msqid : ℕ) → Option ℕ → Msgs → ℕ
wanted_node msqid none m = (m.pool msqid).first
wanted_node msqid (some prev) m = (m.msgs prev).next

-- The text ends at `msgsz`.
abbrev pub cut_text : (msgsz : ℕ) → MsgBuf → MsgBuf
cut_text msgsz b =
    if ltb 0 msgsz && ltb msgsz 496 then record b { mtext = update b.mtext msgsz 0 } else b

unfoldable pub take_wanted : (msgsz msqid : ℕ) → Option ℕ → Msgs → RcvResult
take_wanted msgsz msqid prev m =
    let node = wanted_node msqid prev m in
    RcvResult.received (cut_text msgsz (m.msgs node).content) node (unlink_wanted msqid prev m)

unfoldable pub rcv_found : (nowait : Bool) (msgsz msqid : ℕ) → Search → Msgs → RcvResult
rcv_found nowait msgsz msqid Search.stopped m = RcvResult.out_of_rounds
rcv_found nowait msgsz msqid Search.missing m =
    if nowait then RcvResult.failed 1 else RcvResult.sleeping true
rcv_found nowait msgsz msqid (Search.behind prev) m = take_wanted msgsz msqid (some prev) m

-- One round of the loop that looks for a message, where a process that sleeps for a type goes on.
unfoldable pub rcv_round : (nowait : Bool) (left msgsz msgtype msqid : ℕ) → Msgs → RcvResult
rcv_round nowait left msgsz msgtype msqid m =
    let prev = (m.pool msqid).first in
    if prev == 0
    then RcvResult.fault
    else if wanted msgtype (m.msgs prev).content
    then take_wanted msgsz msqid none m
    else rcv_found nowait msgsz msqid (search_loop left msgtype prev m.msgs) m

-- `msgrcv`
unfoldable pub msgrcv : (nowait : Bool) (left msgsz msgtype msqid : ℕ) → Msgs → RcvResult
msgrcv nowait left msgsz msgtype msqid m =
    if leb msgmax msqid
    then RcvResult.failed 1
    else if is_unused (m.pool msqid).state
    then RcvResult.failed 2
    else if (m.pool msqid).first == 0
    then if nowait then RcvResult.failed 1 else RcvResult.sleeping false
    else rcv_round nowait left msgsz msgtype msqid m
