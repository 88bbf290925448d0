-- ===== src/Mailbox/Step.antt =====
-- crates/bridge/bridge-runtime/src/desktop/mailbox.rs: the operations of `DesktopWorkerMailbox`
-- under its lock. Waking the worker and waiting for a message are left out.
use steam_controller_bridge.Common.{
  ℕ, ◌+◌, ◌-◌, ◌%◌, ◌^◌, Bool, true, false, not, ◌==◌, if◌then◌else◌, leb, List, [], ◌∷◌, ◌++◌,
  Option, none, some,
}
use steam_controller_bridge.Mailbox.Snapshot.{
  DesktopInputSnapshot, desktop_snapshot_transition_mask,
}
use steam_controller_bridge.Mailbox.State.{
  DesktopWorkerSnapshot, snapshot_message, overflow, Rejection, superseded, stopped,
  can_replace_latest, push_run, empty_run, DesktopWorkerOutputs, invalidate_feedback, Message,
  reject, is_snapshot_or_overflow, is_safety_control, is_replace_profile, DesktopWorkerMailbox,
  desktop_input_mailbox_capacity, desktop_control_mailbox_capacity,
}

pub data DesktopSnapshotPublish : Type 0 where
  published overflowed closed : DesktopSnapshotPublish

module _ (Profile Ack : Type 0) where
  abbrev pub Mailbox : Type 0
  Mailbox = DesktopWorkerMailbox Profile Ack

  abbrev pub Queue : Type 0
  Queue = List (Message Profile Ack)

  -- `retain(|message| !message.is_snapshot_or_overflow())`
  unfoldable pub retain_controls : Queue → Queue
  retain_controls [] = []
  retain_controls (m ∷ ms) =
      if is_snapshot_or_overflow Profile Ack m then retain_controls ms else m ∷ retain_controls ms

  -- Overwrites the snapshot at the back; `none` where there is none, the code's `unreachable!`.
  unfoldable pub replace_back : Queue → DesktopWorkerSnapshot → Option Queue
  replace_back [] s = none
  replace_back (snapshot_message old ∷ []) s = some (snapshot_message s ∷ [])
  replace_back (m ∷ []) s = none
  replace_back (m ∷ m' ∷ ms) s = elim (replace_back (m' ∷ ms) s) [
    | none ↦ none
    | some ms' ↦ some (m ∷ ms')
  ]

  -- The queue without a profile update at its back, and that update.
  unfoldable pub pop_replace_profile : Queue → Option (Queue × Message Profile Ack)
  pop_replace_profile [] = none
  pop_replace_profile (m ∷ []) = if is_replace_profile Profile Ack m then some ([], m) else none
  pop_replace_profile (m ∷ m' ∷ ms) = elim (pop_replace_profile (m' ∷ ms)) [
    | none ↦ none
    | some (front, last) ↦ some (m ∷ front, last)
  ]

  unfoldable pub push_snapshot : Mailbox → DesktopInputSnapshot → ℕ → ℕ → Mailbox
  push_snapshot state snapshot now transition_mask = record state {
    messages =
        state.messages
        ++ (snapshot_message (record {
          snapshot = snapshot;
          now = now;
          generation = state.generation;
          feedback_epoch = state.feedback_epoch;
        })
            ∷ []);
    snapshot_count = state.snapshot_count + 1;
    transition_run = push_run state.transition_run (some transition_mask);
  }

  unfoldable pub reset_snapshots_for_overflow : Mailbox → Mailbox
  reset_snapshots_for_overflow state = record state {
    messages = retain_controls state.messages;
    snapshot_count = 0;
    transition_run = empty_run;
    generation = (state.generation + 1) % 2 ^ 64;
    feedback_epoch = (state.feedback_epoch + 1) % 2 ^ 64;
  }

  -- The reset with the overflow message behind what it keeps.
  unfoldable pub push_overflow : Mailbox → Mailbox
  push_overflow state =
      let reset = reset_snapshots_for_overflow state in
      record reset { messages = reset.messages ++ (overflow ∷ []) }

  -- `none` is the panic of `unreachable!`.
  unfoldable pub publish_snapshot :
      Mailbox
      → DesktopWorkerOutputs
      → DesktopInputSnapshot
      → (now : ℕ) → Option (Mailbox × DesktopWorkerOutputs × DesktopSnapshotPublish)
  publish_snapshot state outputs snapshot now =
      let mask = desktop_snapshot_transition_mask snapshot in
      let overflowing = push_overflow state in
      let latest : DesktopWorkerSnapshot = record {
        snapshot = snapshot;
        now = now;
        generation = state.generation;
        feedback_epoch = state.feedback_epoch;
      } in
      if not state.accepting
      then some (state, outputs, closed)
      else if can_replace_latest state.transition_run mask
      then elim (replace_back state.messages latest) [
        | none ↦ none
        | some messages ↦ some (record state { messages = messages }, outputs, published)
      ]
      else if state.snapshot_count == desktop_input_mailbox_capacity
      then some (
        push_snapshot overflowing snapshot now mask,
        invalidate_feedback outputs overflowing.feedback_epoch,
        overflowed,
      )
      else some (push_snapshot state snapshot now mask, outputs, published)

  unfoldable pub publish_overflow :
      Mailbox → DesktopWorkerOutputs → Mailbox × DesktopWorkerOutputs × Bool
  publish_overflow state outputs =
      let overflowing = push_overflow state in
      if not state.accepting
      then (state, outputs, false)
      else (overflowing, invalidate_feedback outputs overflowing.feedback_epoch, true)

  -- `push_control` behind the profile updates: whether it took the message, and what it rejected.
  unfoldable pub enqueue_control :
      Mailbox
      → DesktopWorkerOutputs
      → Message Profile Ack
      → (feedback_barrier : Bool) → Mailbox × DesktopWorkerOutputs × Bool × List (Ack × Rejection)
  enqueue_control state outputs message feedback_barrier =
      let limit =
        if is_safety_control Profile Ack message
        then desktop_control_mailbox_capacity
        else desktop_control_mailbox_capacity - 1 in
      let epoch =
        if feedback_barrier then (state.feedback_epoch + 1) % 2 ^ 64 else state.feedback_epoch in
      if leb limit state.control_count then (state, outputs, false, []) else (
        record state {
          feedback_epoch = epoch;
          transition_run = empty_run;
          messages = state.messages ++ (message ∷ []);
          control_count = state.control_count + 1;
        },
        if feedback_barrier then invalidate_feedback outputs epoch else outputs,
        true,
        [],
      )

  -- The message is a control message. A profile update replaces one at the back of the queue.
  unfoldable pub push_control :
      Mailbox
      → DesktopWorkerOutputs
      → Message Profile Ack
      → (feedback_barrier : Bool) → Mailbox × DesktopWorkerOutputs × Bool × List (Ack × Rejection)
  push_control state outputs message feedback_barrier =
      let enqueued = enqueue_control state outputs message feedback_barrier in
      if not state.accepting
      then (state, outputs, false, [])
      else if is_replace_profile Profile Ack message
      then elim (pop_replace_profile state.messages) [
        | none ↦ enqueued
        | some (front, previous) ↦ (
          record state { messages = front ++ (message ∷ []) },
          outputs,
          true,
          reject Profile Ack previous superseded,
        )
      ]
      else enqueued

  unfoldable pub reject_all : Queue → List (Ack × Rejection)
  reject_all [] = []
  reject_all (m ∷ ms) = reject Profile Ack m stopped ++ reject_all ms

  -- `take_batch` behind the wait.
  unfoldable pub take_batch : Mailbox → Mailbox × Queue
  take_batch state = (
    record state {
      snapshot_count = 0;
      control_count = 0;
      transition_run = empty_run;
      messages = [];
    },
    state.messages,
  )

  unfoldable pub close : Mailbox → Mailbox × List (Ack × Rejection)
  close state = (
    record state {
      accepting = false;
      messages = [];
      snapshot_count = 0;
      control_count = 0;
      transition_run = empty_run;
    },
    reject_all state.messages,
  )
