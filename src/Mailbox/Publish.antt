-- ===== src/Mailbox/Publish.antt =====
-- crates/bridge/bridge-runtime/src/desktop/mailbox.rs: `publish_snapshot` and the invariant.
use steam_controller_bridge.Common.{
  ℕ, ◌≡◌, refl, ap, ◌∙◌, Bool, not, ◌==◌, if-cases, arith, [], ◌∷◌, ◌++◌, Option, none, some,
}
use steam_controller_bridge.Mailbox.Snapshot.{
  DesktopInputSnapshot, desktop_snapshot_transition_mask,
}
use steam_controller_bridge.Mailbox.State.{
  DesktopWorkerSnapshot, snapshot_message, Message, is_snapshot_or_overflow, can_replace_latest,
  DesktopWorkerOutputs,
}
use steam_controller_bridge.Mailbox.Step.{
  Mailbox, Queue, DesktopSnapshotPublish, published, replace_back, push_overflow, publish_snapshot,
  reset_snapshots_for_overflow,
}
use steam_controller_bridge.Mailbox.Queue.{
  count, is_snapshot, is_overflow, is_control, count-append, replace_back-append,
}
use steam_controller_bridge.Mailbox.Consistent.{
  IsConsistent, IsConsistent-push_snapshot, IsConsistent-push_overflow, run-EndsIn,
}

module _ (Profile Ack : Type 0) where
  abbrev pub Published : Type 0
  Published = Mailbox Profile Ack × DesktopWorkerOutputs × DesktopSnapshotPublish

  abbrev pub IsPublished : Option Published → Type 0
  IsPublished none = ⊥
  IsPublished (some (s, outputs, result)) = IsConsistent Profile Ack s

  -- The snapshot that takes the place of the one at the back, which has the same mask.
  IsConsistent-replaced_back :
      (s : Mailbox Profile Ack) (front : Queue Profile Ack) (old new : DesktopWorkerSnapshot)
      (mask : ℕ)
      → s.messages ≡ front ++ (snapshot_message old ∷ [])
      → s.transition_run.latest ≡ some mask
      → desktop_snapshot_transition_mask new.snapshot ≡ mask
      → IsConsistent Profile Ack s
      → IsConsistent Profile Ack (record s { messages = front ++ (snapshot_message new ∷ []) })
  unfolding is_snapshot_or_overflow
  IsConsistent-replaced_back s front old new mask e latest k c =
      let count_old = λ (p : Message Profile Ack → Bool).
        ap (count Profile Ack p) e ∙ count-append Profile Ack p front (snapshot_message old) in
      let count_new = λ (p : Message Profile Ack → Bool).
        count-append Profile Ack p front (snapshot_message new) in
      record {
        snapshots = omega (
          arith,
          c.snapshots,
          count_old (is_snapshot Profile Ack),
          count_new (is_snapshot Profile Ack),
        );
        controls = omega (
          arith,
          c.controls,
          count_old (is_control Profile Ack),
          count_new (is_control Profile Ack),
        );
        overflows = omega (
          arith,
          c.overflows,
          count_old (is_overflow Profile Ack),
          count_new (is_overflow Profile Ack),
        );
        snapshots_max = c.snapshots_max;
        controls_max = c.controls_max;
        run = λ m h. (front, new, refl, cc);
      }

  pub publish_snapshot-IsPublished :
      (s : Mailbox Profile Ack) (outputs : DesktopWorkerOutputs) (snapshot : DesktopInputSnapshot)
      (now : ℕ)
      → IsConsistent Profile Ack s
      → IsPublished (publish_snapshot Profile Ack s outputs snapshot now)
  unfolding publish_snapshot push_overflow reset_snapshots_for_overflow
  publish_snapshot-IsPublished s outputs snapshot now c =
      let mask = desktop_snapshot_transition_mask snapshot in
      if-cases IsPublished (not s.accepting) (λ h. c)
        (λ h.
          if-cases IsPublished (can_replace_latest s.transition_run mask)
            (λ k.
              let (latest, (front, old, e, same)) = run-EndsIn Profile Ack s mask k c in
              replaced (replace_back Profile Ack s.messages (newest s snapshot now)) front old
                (ap (λ ms. replace_back Profile Ack ms (newest s snapshot now)) e
                  ∙ replace_back-append Profile Ack front old (newest s snapshot now))
                (IsConsistent-replaced_back s front old (newest s snapshot now) mask e latest refl
                  c))
            (λ k.
              if-cases IsPublished (s.snapshot_count == 64)
                (λ full.
                  IsConsistent-push_snapshot Profile Ack _ snapshot now
                    (IsConsistent-push_overflow Profile Ack s c) (omega arith))
                (λ room.
                  IsConsistent-push_snapshot Profile Ack s snapshot now c
                    (ground (arith, c.snapshots_max)))))
    where
      newest : Mailbox Profile Ack → DesktopInputSnapshot → ℕ → DesktopWorkerSnapshot
      newest s snapshot now = record {
        snapshot = snapshot;
        now = now;
        generation = s.generation;
        feedback_epoch = s.feedback_epoch;
      }

      replaced :
          (o : Option (Queue Profile Ack)) (front : Queue Profile Ack) (old : DesktopWorkerSnapshot)
          → o ≡ some (front ++ (snapshot_message (newest s snapshot now) ∷ []))
          → IsConsistent Profile Ack
              (record s { messages = front ++ (snapshot_message (newest s snapshot now) ∷ []) })
          → IsPublished (elim o as (λ _. Option Published) [
            | none ↦ none
            | some messages ↦ some (record s { messages = messages }, outputs, published)
          ])
      replaced o front old e h = rw e h
