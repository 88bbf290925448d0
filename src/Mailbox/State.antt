-- ===== src/Mailbox/State.antt =====
-- crates/bridge/bridge-runtime/src/desktop/mailbox.rs: messages, the run of equal transitions, the
-- mailbox and the outputs.
use steam_controller_bridge.Common.{
  ℕ, Bool, true, false, ◌&&◌, ◌==◌, List, [], ◌∷◌, Option, none, some,
}
use steam_controller_bridge.Mailbox.Snapshot.{DesktopInputSnapshot, PadFeedbackRequest, no_feedback}

abbrev pub desktop_input_mailbox_capacity : ℕ
desktop_input_mailbox_capacity = 64

abbrev pub desktop_control_mailbox_capacity : ℕ
desktop_control_mailbox_capacity = 32

pub record DesktopWorkerSnapshot : Type 0 where
  pub snapshot : DesktopInputSnapshot
  pub now : ℕ
  pub generation : ℕ
  pub feedback_epoch : ℕ

-- Over the types of the binding profiles and of the channels that acknowledge a command.
pub data DesktopWorkerMessage (Profile Ack : Type 0) : Type 0 where
  snapshot_message : DesktopWorkerSnapshot → DesktopWorkerMessage Profile Ack
  overflow : DesktopWorkerMessage Profile Ack
  replace_profile : Option Profile → Option Ack → DesktopWorkerMessage Profile Ack
  enable : Option Ack → DesktopWorkerMessage Profile Ack
  disconnect shutdown : Ack → DesktopWorkerMessage Profile Ack

-- The errors that a mailbox sends on the channel of a command that it drops.
pub data Rejection : Type 0 where
  superseded stopped : Rejection

pub record StableTransitionRun : Type 0 where
  pub previous : Option ℕ
  pub latest : Option ℕ

abbrev pub same_mask : Option ℕ → ℕ → Bool
same_mask none mask = false
same_mask (some m) mask = m == mask

-- Of `Some(mask)`, the only argument in the program.
unfoldable pub can_replace_latest : StableTransitionRun → ℕ → Bool
can_replace_latest run mask = same_mask run.latest mask && same_mask run.previous mask

unfoldable pub push_run : StableTransitionRun → Option ℕ → StableTransitionRun
push_run run mask = record { previous = run.latest; latest = mask }

abbrev pub empty_run : StableTransitionRun
empty_run = record { previous = none; latest = none }

pub record DesktopWorkerOutputs : Type 0 where
  pub feedback : PadFeedbackRequest
  pub discard_pending_feedback : Bool
  pub feedback_epoch : ℕ

unfoldable pub invalidate_feedback : DesktopWorkerOutputs → ℕ → DesktopWorkerOutputs
invalidate_feedback outputs epoch = record {
  feedback = no_feedback;
  discard_pending_feedback = true;
  feedback_epoch = epoch;
}

module _ (Profile Ack : Type 0) where
  abbrev pub Message : Type 0
  Message = DesktopWorkerMessage Profile Ack

  unfoldable pub ack_of : Message → Option Ack
  ack_of (snapshot_message s) = none
  ack_of overflow = none
  ack_of (replace_profile profile ack) = ack
  ack_of (enable ack) = ack
  ack_of (disconnect ack) = some ack
  ack_of (shutdown ack) = some ack

  -- What `reject` sends.
  unfoldable pub reject : Message → Rejection → List (Ack × Rejection)
  reject message error = elim (ack_of message) [ none ↦ [] | some ack ↦ (ack, error) ∷ [] ]

  unfoldable pub is_snapshot_or_overflow : Message → Bool
  is_snapshot_or_overflow (snapshot_message s) = true
  is_snapshot_or_overflow overflow = true
  is_snapshot_or_overflow _ = false

  unfoldable pub is_safety_control : Message → Bool
  is_safety_control (disconnect ack) = true
  is_safety_control (shutdown ack) = true
  is_safety_control _ = false

  unfoldable pub is_replace_profile : Message → Bool
  is_replace_profile (replace_profile profile ack) = true
  is_replace_profile _ = false

  pub record DesktopWorkerMailbox : Type 0 where
    pub messages : List Message
    pub snapshot_count : ℕ
    pub control_count : ℕ
    pub transition_run : StableTransitionRun
    pub generation : ℕ
    pub feedback_epoch : ℕ
    pub accepting : Bool

  unfoldable pub new_mailbox : DesktopWorkerMailbox
  new_mailbox = record {
    messages = [];
    snapshot_count = 0;
    control_count = 0;
    transition_run = empty_run;
    generation = 0;
    feedback_epoch = 0;
    accepting = true;
  }
