-- ===== src/Mailbox/Delivery.antt =====
-- crates/bridge/bridge-runtime/src/desktop/mailbox.rs: what the worker gets of what is published.
use steam_controller_bridge.Common.{
  ℕ, ◌≡◌, refl, sym, ap, ◌∙◌, true, false, not, ==→eq, Bool-cases, inl, inr, ◌==◌, if-cases,
  if◌then◌else◌, arith, List, [], ◌∷◌, ◌++◌, append_assoc, Option, none, some,
}
use steam_controller_bridge.Mailbox.Snapshot.{
  DesktopInputSnapshot, desktop_snapshot_transition_mask,
}
use steam_controller_bridge.Mailbox.State.{
  DesktopWorkerSnapshot, snapshot_message, overflow, Message, is_snapshot_or_overflow,
  can_replace_latest, same_mask, DesktopWorkerOutputs,
}
use steam_controller_bridge.Mailbox.Step.{
  Mailbox, Queue, DesktopSnapshotPublish, published, overflowed, closed, retain_controls,
  replace_back, push_snapshot, push_overflow, publish_snapshot, reset_snapshots_for_overflow,
}
use steam_controller_bridge.Mailbox.Queue.{replace_back-append}
use steam_controller_bridge.Mailbox.Consistent.{IsConsistent, run-EndsIn}
use steam_controller_bridge.Mailbox.Publish.{Published}

-- A sequence of masks with barriers, without the masks that repeat the one before.
unfoldable pub compress : Option ℕ → List (Option ℕ) → List (Option ℕ)
compress last [] = []
compress last (none ∷ items) = none ∷ compress none items
compress last (some mask ∷ items) =
    let repeated = compress last items in
    let fresh = compress (some mask) items in
    if same_mask last mask then repeated else some mask ∷ fresh

same_mask_refl : (m : ℕ) → same_mask (some m) m ≡ true
same_mask_refl m = ground arith

compress-repeat :
    (last : Option ℕ) (items : List (Option ℕ)) (m : ℕ)
    → compress last (items ++ (some m ∷ some m ∷ [])) ≡ compress last (items ++ (some m ∷ []))
unfolding compress
compress-repeat last [] m = ground (arith, same_mask_refl m)
compress-repeat last (none ∷ items) m =
    ap (λ (t : List (Option ℕ)). none ∷ t) (compress-repeat none items m)
compress-repeat last (some mask ∷ items) m =
    ground (arith, compress-repeat last items m, compress-repeat (some mask) items m)

module _ (Profile Ack : Type 0) where
  abbrev mask_of : Message Profile Ack → Option ℕ
  mask_of (snapshot_message s) = some (desktop_snapshot_transition_mask s.snapshot)
  mask_of _ = none

  -- The masks of the snapshots, with a barrier for every other message.
  unfoldable pub transitions : Queue Profile Ack → List (Option ℕ)
  transitions [] = []
  transitions (m ∷ ms) = mask_of m ∷ transitions ms

  transitions-append :
      (ms : Queue Profile Ack) (m : Message Profile Ack)
      → transitions (ms ++ (m ∷ [])) ≡ transitions ms ++ (mask_of m ∷ [])
  unfolding transitions
  transitions-append [] m = refl
  transitions-append (m' ∷ ms) m =
      ap (λ (t : List (Option ℕ)). mask_of m' ∷ t) (transitions-append ms m)

  retain_controls-append :
      (ms : Queue Profile Ack) (m : Message Profile Ack)
      → is_snapshot_or_overflow Profile Ack m ≡ true
      → retain_controls Profile Ack (ms ++ (m ∷ [])) ≡ retain_controls Profile Ack ms
  unfolding retain_controls
  retain_controls-append [] m k = rw k refl
  retain_controls-append (m' ∷ ms) m k = ground (arith, retain_controls-append ms m k)

  retain_controls_twice :
      (ms : Queue Profile Ack)
      → retain_controls Profile Ack (retain_controls Profile Ack ms)
        ≡ retain_controls Profile Ack ms
  unfolding retain_controls
  retain_controls_twice [] = refl
  retain_controls_twice (m ∷ ms) = elim (Bool-cases (is_snapshot_or_overflow Profile Ack m)) [
    | inl k ↦ rw k (retain_controls_twice ms)
    | inr k ↦ rw k (rw k (ap (λ (t : Queue Profile Ack). m ∷ t) (retain_controls_twice ms)))
  ]

  -- What an answer of `publish_snapshot` says of the queue.
  pub record IsDelivered (s s' : Mailbox Profile Ack) (mask : ℕ) (result : DesktopSnapshotPublish)
      : Type 0 where
    pub controls : retain_controls Profile Ack s'.messages ≡ retain_controls Profile Ack s.messages
    pub kept :
        result ≡ published
        → compress none (transitions s'.messages)
          ≡ compress none (transitions s.messages ++ (some mask ∷ []))
    pub full : result ≡ overflowed → s.snapshot_count ≡ 64
    pub refused : result ≡ closed → (s.accepting ≡ false) × (s' ≡ s)

  abbrev pub IsAnswer : Mailbox Profile Ack → ℕ → Option (Published Profile Ack) → Type 0
  IsAnswer s mask none = ⊥
  IsAnswer s mask (some (s', outputs, result)) = IsDelivered s s' mask result

  IsDelivered-replaced :
      (s : Mailbox Profile Ack) (front : Queue Profile Ack) (old new : DesktopWorkerSnapshot)
      → s.messages ≡ front ++ (snapshot_message old ∷ [])
      → desktop_snapshot_transition_mask old.snapshot
        ≡ desktop_snapshot_transition_mask new.snapshot
      → IsDelivered s
          (record s { messages = front ++ (snapshot_message new ∷ []) })
          (desktop_snapshot_transition_mask new.snapshot)
          published
  unfolding is_snapshot_or_overflow
  IsDelivered-replaced s front old new e same =
      let mask = desktop_snapshot_transition_mask new.snapshot in
      record {
        controls =
            retain_controls-append front (snapshot_message new) refl
            ∙ sym (retain_controls-append front (snapshot_message old) refl)
            ∙ ap (retain_controls Profile Ack) (sym e);
        kept = λ r.
            ap (compress none) (transitions-append front (snapshot_message new))
            ∙ sym (compress-repeat none (transitions front) mask)
            ∙ ap (compress none) (
                sym (
                  ap (λ ms. transitions ms ++ (some mask ∷ [])) e
                  ∙ ap (λ (t : List (Option ℕ)). t ++ (some mask ∷ []))
                      (transitions-append front (snapshot_message old))
                  ∙ ap (λ (m : ℕ). (transitions front ++ (some m ∷ [])) ++ (some mask ∷ [])) same
                  ∙ append_assoc (transitions front) (some mask ∷ []) (some mask ∷ [])));
        full = λ r. absurd (ground arith);
        refused = λ r. absurd (ground arith);
      }

  IsDelivered-pushed :
      (s : Mailbox Profile Ack) (snapshot : DesktopInputSnapshot) (now : ℕ)
      → IsDelivered s
          (push_snapshot Profile Ack s snapshot now (desktop_snapshot_transition_mask snapshot))
          (desktop_snapshot_transition_mask snapshot)
          published
  unfolding push_snapshot is_snapshot_or_overflow
  IsDelivered-pushed s snapshot now = record {
    controls = retain_controls-append s.messages _ refl;
    kept = λ r. ap (compress none) (transitions-append s.messages _);
    full = λ r. absurd (ground arith);
    refused = λ r. absurd (ground arith);
  }

  IsDelivered-overflowed :
      (s : Mailbox Profile Ack) (snapshot : DesktopInputSnapshot) (now : ℕ)
      → s.snapshot_count ≡ 64
      → IsDelivered s
          (push_snapshot Profile Ack
            (push_overflow Profile Ack s)
            snapshot
            now
            (desktop_snapshot_transition_mask snapshot))
          (desktop_snapshot_transition_mask snapshot)
          overflowed
  unfolding push_snapshot push_overflow reset_snapshots_for_overflow is_snapshot_or_overflow
  IsDelivered-overflowed s snapshot now full = record {
    controls =
        retain_controls-append (retain_controls Profile Ack s.messages ++ (overflow ∷ [])) _ refl
        ∙ retain_controls-append (retain_controls Profile Ack s.messages) overflow refl
        ∙ retain_controls_twice s.messages;
    kept = λ r. absurd (ground arith);
    full = λ r. full;
    refused = λ r. absurd (ground arith);
  }

  -- On a mailbox that meets the invariant, `publish_snapshot` answers and leaves the control
  -- messages in the queue and their order as they were. If it answers published, the masks in the
  -- queue with its barriers, repetitions aside, are those before and the new one; if overflowed,
  -- 64 snapshots were waiting; if closed, the mailbox did not accept and is unchanged.
  pub publish_snapshot-IsAnswer :
      (s : Mailbox Profile Ack) (outputs : DesktopWorkerOutputs) (snapshot : DesktopInputSnapshot)
      (now : ℕ)
      → IsConsistent Profile Ack s
      → IsAnswer s
          (desktop_snapshot_transition_mask snapshot)
          (publish_snapshot Profile Ack s outputs snapshot now)
  unfolding publish_snapshot
  publish_snapshot-IsAnswer s outputs snapshot now c =
      let mask = desktop_snapshot_transition_mask snapshot in
      if-cases (IsAnswer s mask) (not s.accepting)
        (λ h. record {
          controls = refl;
          kept = λ r. absurd (ground arith);
          full = λ r. absurd (ground arith);
          refused = λ r. (ground arith, refl);
        })
        (λ h.
          if-cases (IsAnswer s mask) (can_replace_latest s.transition_run mask)
            (λ k.
              let (latest, (front, old, e, same)) = run-EndsIn Profile Ack s mask k c in
              replaced (replace_back Profile Ack s.messages newest) front
                (ap (λ ms. replace_back Profile Ack ms newest) e
                  ∙ replace_back-append Profile Ack front old newest)
                (IsDelivered-replaced s front old newest e same))
            (λ k.
              if-cases (IsAnswer s mask) (s.snapshot_count == 64)
                (λ full. IsDelivered-overflowed s snapshot now (==→eq s.snapshot_count 64 full))
                (λ room. IsDelivered-pushed s snapshot now)))
    where
      newest : DesktopWorkerSnapshot
      newest = record {
        snapshot = snapshot;
        now = now;
        generation = s.generation;
        feedback_epoch = s.feedback_epoch;
      }

      replaced :
          (o : Option (Queue Profile Ack)) (front : Queue Profile Ack)
          → o ≡ some (front ++ (snapshot_message newest ∷ []))
          → IsDelivered s
              (record s { messages = front ++ (snapshot_message newest ∷ []) })
              (desktop_snapshot_transition_mask snapshot)
              published
          → IsAnswer s
              (desktop_snapshot_transition_mask snapshot)
              (elim o as (λ _. Option (Published Profile Ack)) [
                | none ↦ none
                | some messages ↦ some (record s { messages = messages }, outputs, published)
              ])
      replaced o front e h = rw e h
