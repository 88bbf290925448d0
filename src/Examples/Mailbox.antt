-- ===== src/Examples/Mailbox.antt =====
-- crates/bridge/bridge-runtime/src/desktop/mailbox.rs: the theorems at concrete queues.
use steam_controller_bridge.Common.{
  ℕ, ◌≡◌, Bool, refl, arith, true, false, List, [], ◌∷◌, ◌++◌, none, some,
}
use steam_controller_bridge.Mailbox.Snapshot.{
  DesktopInputSnapshot, buttons_only, high, desktop_snapshot_transition_mask, no_feedback,
  desktop_transition_mask, bindable_mask, bindable_loop,
}
use steam_controller_bridge.Steam.Buttons.{steam_contains}
use steam_controller_bridge.Mailbox.State.{
  Message, replace_profile, enable, disconnect, DesktopWorkerOutputs, new_mailbox,
  invalidate_feedback, is_snapshot_or_overflow, is_safety_control, can_replace_latest, push_run,
}
use steam_controller_bridge.Mailbox.Step.{Mailbox, push_control, publish_snapshot, push_snapshot}
use steam_controller_bridge.Mailbox.Consistent.{IsConsistent}
use steam_controller_bridge.Mailbox.Calls.{
  MailboxCall, call_publish, call_control, call_take, call_overflow, IsRunning, call, calls,
  calls-new_mailbox,
}
use steam_controller_bridge.Mailbox.Delivery.{IsAnswer, publish_snapshot-IsAnswer}
use steam_controller_bridge.Mailbox.Reserve.{push_controls, push_controls-safety}
use steam_controller_bridge.Mailbox.Outputs.{
  take_output, publish_all, publish_all-invalidate_feedback,
}

abbrev quiet : DesktopWorkerOutputs
quiet = record { feedback = no_feedback; discard_pending_feedback = false; feedback_epoch = 0 }

abbrev empty_mailbox : Mailbox ℕ ℕ
empty_mailbox = new_mailbox ℕ ℕ

abbrev grip : DesktopInputSnapshot
grip = buttons_only 0x20000

grip_mask : desktop_snapshot_transition_mask grip ≡ 1
unfolding desktop_snapshot_transition_mask desktop_transition_mask bindable_mask bindable_loop
    steam_contains buttons_only
grip_mask = refl

abbrev session : List (MailboxCall ℕ ℕ)
session =
    call_publish grip 1
    ∷ call_publish grip 2
    ∷ call_publish grip 3
    ∷ call_overflow
    ∷ call_control (enable (some 7)) true
    ∷ call_take
    ∷ []

calls-new_mailbox_example : IsRunning ℕ ℕ (calls ℕ ℕ (some (empty_mailbox, quiet)) session)
unfolding is_snapshot_or_overflow
calls-new_mailbox_example =
    calls-new_mailbox ℕ ℕ quiet session (tt, (tt, (tt, (tt, (refl, (tt, tt))))))

-- Two snapshots with one mask wait; the next one takes the place of the second.
abbrev filled : Mailbox ℕ ℕ
filled = push_snapshot ℕ ℕ (push_snapshot ℕ ℕ empty_mailbox grip 1 1) grip 2 1

filled-IsConsistent : IsConsistent ℕ ℕ filled
unfolding new_mailbox calls call publish_snapshot push_snapshot can_replace_latest push_run
    desktop_snapshot_transition_mask desktop_transition_mask bindable_mask bindable_loop
    steam_contains buttons_only
filled-IsConsistent =
    calls-new_mailbox ℕ ℕ quiet (call_publish grip 1 ∷ call_publish grip 2 ∷ []) (tt, (tt, tt))

publish_snapshot-IsAnswer_example :
    IsAnswer ℕ ℕ filled
      (desktop_snapshot_transition_mask grip)
      (publish_snapshot ℕ ℕ filled quiet grip 3)
publish_snapshot-IsAnswer_example =
    publish_snapshot-IsAnswer ℕ ℕ filled quiet grip 3 filled-IsConsistent

abbrev profiles : List (Message ℕ ℕ × Bool)
profiles = (enable none, false) ∷ (replace_profile (some 3) (some 1), true) ∷ []

push_controls-safety_example :
    let (s, outputs) = push_controls ℕ ℕ empty_mailbox quiet profiles in
    ((push_control ℕ ℕ s outputs (disconnect 9) true).2 ≡ true)
    × ((push_control ℕ ℕ s outputs (disconnect 9) true).0.messages
        ≡ s.messages ++ (disconnect 9 ∷ []))
unfolding new_mailbox is_safety_control
push_controls-safety_example =
    push_controls-safety ℕ ℕ empty_mailbox quiet profiles (disconnect 9) true (refl, (refl, tt))
      refl (refl, omega arith)

publish_all-invalidate_feedback_example :
    (take_output (
      publish_all
        ((0, record { left = some high; right = none }) ∷ [])
        (invalidate_feedback quiet 1))).1
    ≡ (no_feedback, true)
publish_all-invalidate_feedback_example =
    publish_all-invalidate_feedback quiet 1 ((0, record { left = some high; right = none }) ∷ [])
      (λ e. ground arith, tt)
