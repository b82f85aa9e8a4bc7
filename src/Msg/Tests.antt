-- ===== src/Msg/Tests.antt =====
-- Three messages through queue 2.
use mathlib.Core.Bool.{true≢false}
use learn_os.Base.{ℕ, ◌≡◌, refl, sym, arith, true, false, List, [], ◌∷◌, update}
use learn_os.Ipc.{IpcState}
use learn_os.Msg.{
  MsgBuf, Msgs, no_queue, SndResult, RcvResult, msgsnd, msgrcv, rcv_round, put_last, snd_section,
  rcv_found, search_loop, take_wanted, unlink_wanted,
}
use learn_os.Msg.Queues.{IsMsqs, holds}
use learn_os.Msg.Send.{SndEnds, msgsnd-SndEnds, put_last-IsSent, IsSent, filled_with}
use learn_os.Msg.Receive.Ends.{RcvEnds, RoundEnds, msgrcv-RcvEnds, rcv_round-RoundEnds}

abbrev text : ℕ → MsgBuf
text t = record { mtype = t; length = 0; mtext = λ i. 7 }

abbrev quiet : Msgs
quiet = record {
  msgs = λ a. record { content = text 0; next = 0 };
  pool = λ i. record no_queue { state = IpcState.used };
}

abbrev empty_lists : ℕ → List ℕ
empty_lists i = []

quiet-IsMsqs : IsMsqs quiet empty_lists
quiet-IsMsqs = record {
  each = λ i h. record { chain = refl; last = tt; apart = tt; count = refl };
  share = λ i j a h k x. absurd (true≢false (sym x));
  zero_last = λ e. refl;
}

abbrev state_of : Msgs → SndResult → Msgs
state_of m (SndResult.failed c m') = m'
state_of m (SndResult.sleeping m') = m'
state_of m (SndResult.sent m') = m'

-- Messages of types 3, 5 and 5 at 100, 200 and 300.
abbrev three : Msgs
three =
    let one = state_of quiet (msgsnd true 2 100 (text 3) quiet) in
    let two = state_of one (msgsnd true 2 200 (text 5) one) in
    state_of two (msgsnd true 2 300 (text 5) two)

in_order : holds three (100 ∷ 200 ∷ 300 ∷ []) ≡ text 3 ∷ text 5 ∷ text 5 ∷ []
unfolding msgsnd snd_section put_last
in_order = refl

abbrev node_and_rest : RcvResult → ℕ × ℕ × ℕ
node_and_rest (RcvResult.failed c) = (0, 0, c)
node_and_rest (RcvResult.sleeping t) = (0, 0, 0)
node_and_rest RcvResult.fault = (0, 0, 100)
node_and_rest RcvResult.out_of_rounds = (0, 0, 200)
node_and_rest (RcvResult.received out node m) = (node, (m.msgs 100).next, (m.pool 2).msg_count)

middle_leaves : node_and_rest (msgrcv true 3 0 5 2 three) ≡ (200, 300, 2)
unfolding msgsnd snd_section put_last msgrcv rcv_round rcv_found search_loop take_wanted
    unlink_wanted
middle_leaves = refl

no_such_type : node_and_rest (msgrcv true 3 0 4 2 three) ≡ (0, 0, 1)
unfolding msgsnd snd_section put_last msgrcv rcv_round rcv_found search_loop take_wanted
    unlink_wanted
no_such_type = refl

msgsnd-SndEnds_example :
    SndEnds true quiet empty_lists 2 100 (text 3) (filled_with 100 (text 3) quiet)
msgsnd-SndEnds_example =
    msgsnd-SndEnds quiet empty_lists quiet-IsMsqs 2 100 (text 3) (λ e. absurd (omega arith))
      (λ j h. refl) true

abbrev one_message : Msgs
one_message = put_last 2 100 (filled_with 100 (text 3) quiet)

one-IsSent : IsSent (filled_with 100 (text 3) quiet) one_message empty_lists 2 100 (text 3)
one-IsSent =
    put_last-IsSent (filled_with 100 (text 3) quiet) empty_lists
      (record {
        each = λ i h. record { chain = refl; last = tt; apart = tt; count = refl };
        share = λ i j a h k x. absurd (true≢false (sym x));
        zero_last = λ e. refl;
      })
      2 100 (omega arith) (λ e. absurd (omega arith)) (λ j h. refl)

abbrev one_list : ℕ → List ℕ
one_list = update empty_lists 2 (100 ∷ [])

msgrcv-RcvEnds_example : RcvEnds true 10 3 2 one_message one_list (msgrcv true 1 10 3 2 one_message)
msgrcv-RcvEnds_example =
    msgrcv-RcvEnds one_message one_list one-IsSent.queues 2 3 10 1 true (omega arith)

rcv_round-RoundEnds_example :
    RoundEnds false 10 3 2 quiet empty_lists (rcv_round false 1 10 3 2 quiet)
rcv_round-RoundEnds_example =
    rcv_round-RoundEnds quiet empty_lists quiet-IsMsqs 2 3 10 1 false (omega arith) (omega arith)
