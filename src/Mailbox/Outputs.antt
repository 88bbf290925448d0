-- ===== src/Mailbox/Outputs.antt =====
-- crates/bridge/bridge-runtime/src/desktop/mailbox.rs: `DesktopWorkerOutputs`, the feedback that
-- the worker hands back.
use steam_controller_bridge.Common.{
  ℕ, ◌≡◌, ◌≢◌, arith, refl, Bool, true, false, not, if◌then◌else◌, ◌==◌, ==→eq, if-cases, if-ind,
  List, [], ◌∷◌, All, Option, none, some,
}
use steam_controller_bridge.Mailbox.Snapshot.{PadFeedbackStrength, PadFeedbackRequest, no_feedback}
use steam_controller_bridge.Mailbox.State.{DesktopWorkerOutputs, invalidate_feedback}

-- `if new.is_some() { old = new }`
abbrev pub newer :
    Option PadFeedbackStrength → Option PadFeedbackStrength → Option PadFeedbackStrength
newer none old = old
newer (some strength) old = some strength

-- `PartialEq` with `PadFeedbackRequest::NONE`.
abbrev pub is_no_feedback : Option PadFeedbackStrength → Option PadFeedbackStrength → Bool
is_no_feedback none none = true
is_no_feedback _ _ = false

unfoldable pub publish_feedback :
    ℕ → PadFeedbackRequest → DesktopWorkerOutputs → DesktopWorkerOutputs
publish_feedback epoch feedback state =
    if is_no_feedback feedback.left feedback.right
    then state
    else if not (epoch == state.feedback_epoch)
    then state
    else record state {
      feedback = record {
        left = newer feedback.left state.feedback.left;
        right = newer feedback.right state.feedback.right;
      };
    }

unfoldable pub discard_feedback : DesktopWorkerOutputs → DesktopWorkerOutputs
discard_feedback state = record state { feedback = no_feedback; discard_pending_feedback = true }

-- `DesktopWorkerOutput`: the two fields that `take` hands out and resets.
abbrev pub DesktopWorkerOutput : Type 0
DesktopWorkerOutput = PadFeedbackRequest × Bool

unfoldable pub take_output : DesktopWorkerOutputs → DesktopWorkerOutputs × DesktopWorkerOutput
take_output state = (
  record state { feedback = no_feedback; discard_pending_feedback = false },
  (state.feedback, state.discard_pending_feedback),
)

-- The feedback that a worker publishes for the reports that it works on.
unfoldable pub publish_all :
    List (ℕ × PadFeedbackRequest) → DesktopWorkerOutputs → DesktopWorkerOutputs
publish_all [] state = state
publish_all ((epoch, feedback) ∷ rest) state =
    publish_all rest (publish_feedback epoch feedback state)

stale :
    (epoch : ℕ) (feedback : PadFeedbackRequest) (state : DesktopWorkerOutputs)
    → epoch ≢ state.feedback_epoch
    → publish_feedback epoch feedback state ≡ state
unfolding publish_feedback
stale epoch feedback state h =
    if-ind (λ r. r ≡ state) (is_no_feedback feedback.left feedback.right) refl
      (if-cases (λ r. r ≡ state) (not (epoch == state.feedback_epoch)) (λ k. refl)
        (λ k. absurd (h (==→eq epoch state.feedback_epoch (ground arith)))))

publish_all-stale :
    (published : List (ℕ × PadFeedbackRequest)) (state : DesktopWorkerOutputs)
    → All (λ (p : ℕ × PadFeedbackRequest). p.0 ≢ state.feedback_epoch) published
    → publish_all published state ≡ state
unfolding publish_all
publish_all-stale [] state h = refl
publish_all-stale ((epoch, feedback) ∷ rest) state (h, hs) =
    rw (stale epoch feedback state h) (publish_all-stale rest state hs)

-- After the feedback is invalidated with an epoch, whatever is published for other epochs, the
-- next output that is taken has no feedback and the flag that discards pending feedback.
pub publish_all-invalidate_feedback :
    (state : DesktopWorkerOutputs) (epoch : ℕ) (published : List (ℕ × PadFeedbackRequest))
    → All (λ (p : ℕ × PadFeedbackRequest). p.0 ≢ epoch) published
    → (take_output (publish_all published (invalidate_feedback state epoch))).1
      ≡ (no_feedback, true)
unfolding take_output invalidate_feedback
publish_all-invalidate_feedback state epoch published h =
    rw (publish_all-stale published (invalidate_feedback state epoch) h) refl
