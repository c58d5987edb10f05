-- ===== src/Delivery/Tests.antt =====
-- The delivery theorems at work on small outboxes.
use iris_mind_v.Prelude.{
  ◌≡◌, refl, ◌≢◌, Text, text, text_eq, option_eq, none, some, true, false, List, [], ◌∷◌, All, ok,
  raise, arith, ℕ_discrete, List-discrete, Option-discrete, ◌≤◌, elem, count, text_le, sorted,
  IsSorted, decimal,
}
use iris_mind_v.Prelude.Dict.{lookup, insert, values}
use iris_mind_v.Delivery.Types.{
  DeliveryEnvelope, DeliveryReport, delivery_report_conflict, key_error, lease_mismatch,
}
use iris_mind_v.Delivery.Transitions.{is_delivery_due, lease_delivery, complete_delivery}
use iris_mind_v.Delivery.Outbox.{
  new_outbox, lease_name, enqueue, complete, release, lease_due, lease_loop, lease_visit,
  classify_report, has_lease, fingerprint_eq, history_of, result_fingerprint, envelope_key_le,
}
use iris_mind_v.Delivery.Leasing.{eligible}
use iris_mind_v.Delivery.Leasing.Completion.{Served, lease_due_complete}
use iris_mind_v.Delivery.Leasing.Order.{lease_due-IsSorted}
use iris_mind_v.Delivery.Leasing.Evolution.{Granted, lease_due-Granted}
use iris_mind_v.Delivery.Replay.{late_report, lease_due_respects_lease}
use iris_mind_v.Delivery.Repeats.{complete_replayed, complete_contradicted}
use iris_mind_v.Delivery.Depth.{depth, depth-run}
use iris_mind_v.Delivery.Broker.{Broker, broker_error, report_action_result, settle_report}
use iris_mind_v.Delivery.Broker.Once.{later, report_refused}
use iris_mind_v.Delivery.Broker.Repeats.{
  BrokerOp, poll_op, report_op, outbox_op, run_broker, report_replayed,
}
use iris_mind_v.Delivery.Runs.{
  enqueue_op, lease_op, apply, run, run_exclusive, run_terminal, run-enqueue-ne-key_error,
}
use iris_mind_v.Delivery.Samples.{
  envelope, envelope-IsNew, first, second, calls, calls-IsProper, held, calls_held, result,
  other_result, lease, state, done, state_completes, state-IsValid, waiting, waiting-IsValid,
  finished, finished_done, finished-IsValid, short, unseen, meantime,
}

run_exclusive_example : first ≡ first
run_exclusive_example =
    run_exclusive none calls first first (text "lease-1") held held calls-IsProper calls_held
      calls_held refl refl

run_terminal_example :
    lookup first (run (lease_op (text "chat") 90000000 5 60 ∷ []) finished).items ≡ some done
run_terminal_example =
    run_terminal (lease_op (text "chat") 90000000 5 60 ∷ []) finished first done (tt, tt) (tt, tt)
      finished-IsValid refl finished_done

run-enqueue-ne-key_error_example :
    (enqueue (envelope first) (run calls (new_outbox none))).1 ≢ raise key_error
run-enqueue-ne-key_error_example =
    run-enqueue-ne-key_error none calls (envelope first) calls-IsProper

complete_replayed_example :
    let s = run meantime (complete first lease result 20 state).0 in
    (complete first lease result 30 s ≡ (s, ok done))
    × (release first lease 99 result 30 s ≡ (s, ok done))
complete_replayed_example =
    complete_replayed first lease result 20 30 99 state done meantime state-IsValid
      (envelope-IsNew (text "d"), (tt, tt)) ((λ e. cc), (tt, tt)) state_completes refl

complete_contradicted_example :
    let s = run meantime (complete first lease result 20 state).0 in
    (complete first lease other_result 30 s ≡ (s, raise delivery_report_conflict))
    × (release first lease 99 other_result 30 s ≡ (s, raise delivery_report_conflict))
complete_contradicted_example =
    complete_contradicted first lease result other_result 20 30 99 state done meantime
      state_completes unseen

late_report_example :
    ((complete first none result 20 state).0 ≡ state)
    × ((release first none 99 result 20 state).0 ≡ state)
late_report_example = late_report first none result 20 99 state held calls_held (λ h. cc)

lease_due_respects_lease_example :
    lookup first (lease_due (text "chat") 50 5 60 state).0.items ≡ some held
lease_due_respects_lease_example =
    lease_due_respects_lease (text "chat") 50 70 5 60 state first held state-IsValid calls_held refl
      refl (omega arith)

first_waits : lookup first waiting.items ≡ some (envelope first)
unfolding run apply enqueue new_outbox lookup insert values List-discrete ℕ_discrete Option-discrete
    count
first_waits = refl

lease_due_complete_example :
    let (s', due) = lease_due (text "chat") 10 5 60 waiting in
    (after : DeliveryEnvelope) × (lookup first s'.items ≡ some after)
    × (eligible (text "chat") 10 after ≡ false)
    × Served (text "chat") 10 60 due (envelope first) after
lease_due_complete_example =
    lease_due_complete (text "chat") 10 60 5 waiting first (envelope first) waiting-IsValid
      (omega arith) short first_waits

lease_due-IsSorted_example : IsSorted envelope_key_le (lease_due (text "chat") 10 5 60 waiting).1
lease_due-IsSorted_example = lease_due-IsSorted (text "chat") 10 5 60 waiting

depth-run_example : depth (text "chat") (run calls (new_outbox (some 2))).items ≤ 2
depth-run_example = depth-run 2 calls (text "chat") calls-IsProper

lease_due-Granted_example :
    let (s', due) = lease_due (text "chat") 10 5 60 waiting in
    All (Granted (text "chat") 10 60 waiting s'.items) due
lease_due-Granted_example = lease_due-Granted (text "chat") 10 60 5 waiting waiting-IsValid

abbrev broker : Broker
broker = record {
  outbox = state;
  lease_seconds = 60;
  retry_backoff_seconds = 30000000;
  has_hook_runner = true;
  learning_dispatch_store = some [];
  hook_runs = [];
}

abbrev report : DeliveryReport
report = record { delivery_id = first; lease_id = lease; result = result; reported_at = 20 }

-- A report without a lease id.
abbrev bare_report : DeliveryReport
bare_report = record report { lease_id = none }

-- In place of a digest.
abbrev digest : Text → Text
digest material = material

report_accepted : (report_action_result digest report broker).1 ≡ ok done
unfolding run apply enqueue lease_due new_outbox lookup insert values sorted lease_delivery
    is_delivery_due lease_name decimal envelope_key_le lease_loop List-discrete ℕ_discrete text_le
    lease_visit complete classify_report elem history_of has_lease complete_delivery Option-discrete
    count result_fingerprint report_action_result settle_report
report_accepted = refl

report_bare :
    (report_action_result digest bare_report broker).1 ≡ raise (broker_error lease_mismatch)
unfolding run apply enqueue lease_due new_outbox lookup insert values sorted lease_delivery
    is_delivery_due lease_name decimal envelope_key_le lease_loop List-discrete ℕ_discrete text_le
    lease_visit complete classify_report elem history_of has_lease complete_delivery Option-discrete
    count result_fingerprint report_action_result settle_report
report_bare = refl

-- Between the two reports a client polls, and the report is made once before.
abbrev traffic : List BrokerOp
traffic =
    poll_op (text "chat") 50 5 ∷ report_op report ∷ outbox_op (enqueue_op (envelope second)) ∷ []

report_replayed_example :
    let reported = (report_action_result digest report broker).0 in
    let b = run_broker digest traffic reported in
    (lookup first reported.outbox.items ≡ some done)
    × (now_is : DeliveryEnvelope) × (lookup first b.outbox.items ≡ some now_is)
    × (report_action_result digest (later 40 report) b ≡ (b, ok now_is))
report_replayed_example = report_replayed digest report broker done traffic 40 report_accepted

report_refused_example : (report_action_result digest bare_report broker).0 ≡ broker
report_refused_example =
    report_refused digest bare_report broker (broker_error lease_mismatch) report_bare
