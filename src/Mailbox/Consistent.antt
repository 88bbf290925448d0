-- ===== src/Mailbox/Consistent.antt =====
-- crates/bridge/bridge-runtime/src/desktop/mailbox.rs: the invariant of the mailbox.
use steam_controller_bridge.Common.{
  ℕ, ◌≡◌, ◌≤◌, ◌<◌, refl, sym, ap, ◌∙◌, Bool, true, not, ==→eq, if-cases, if-ind, arith, List, [],
  ◌∷◌, ◌++◌, Option, none, some,
}
use steam_controller_bridge.Mailbox.Snapshot.{
  DesktopInputSnapshot, desktop_snapshot_transition_mask,
}
use steam_controller_bridge.Mailbox.State.{
  DesktopWorkerSnapshot, snapshot_message, overflow, Message, is_snapshot_or_overflow,
  is_replace_profile, can_replace_latest, push_run, empty_run, StableTransitionRun,
  DesktopWorkerOutputs, same_mask, superseded, reject, Rejection,
}
use steam_controller_bridge.Mailbox.Step.{
  Mailbox, Queue, retain_controls, pop_replace_profile, push_snapshot, push_overflow,
  reset_snapshots_for_overflow, enqueue_control, push_control,
}
use steam_controller_bridge.Mailbox.Queue.{
  count, is_snapshot, is_overflow, is_control, count-append, count-retain_controls, IsPopped,
  pop_replace_profile-IsPopped, same_back, IsControl, IsControl-replace_profile,
}

same_mask_lem : (o : Option ℕ) (mask : ℕ) → same_mask o mask ≡ true → o ≡ some mask
same_mask_lem none mask k = absurd (ground arith)
same_mask_lem (some m) mask k = ap (λ (m : ℕ). some m) (==→eq m mask k)

module _ (Profile Ack : Type 0) where
  -- A snapshot with this mask stands at the back of the queue.
  abbrev pub EndsIn : Queue Profile Ack → ℕ → Type 0
  EndsIn ms mask =
      (front : Queue Profile Ack) × (latest : DesktopWorkerSnapshot) × (ms
        ≡ front ++ (snapshot_message latest ∷ []))
      × (desktop_snapshot_transition_mask latest.snapshot ≡ mask)

  abbrev pub IsRun : StableTransitionRun → Queue Profile Ack → Type 0
  IsRun run ms = (mask : ℕ) → run.latest ≡ some mask → EndsIn ms mask

  -- The counters are those of the queue and in their bounds, at most one overflow waits, and the
  -- run of transitions describes the back of the queue.
  pub record IsConsistent (s : Mailbox Profile Ack) : Type 0 where
    pub snapshots : s.snapshot_count ≡ count Profile Ack (is_snapshot Profile Ack) s.messages
    pub controls : s.control_count ≡ count Profile Ack (is_control Profile Ack) s.messages
    pub overflows : count Profile Ack (is_overflow Profile Ack) s.messages ≤ 1
    pub snapshots_max : s.snapshot_count ≤ 64
    pub controls_max : s.control_count ≤ 32
    pub run : IsRun s.transition_run s.messages

  pub IsRun-empty : (ms : Queue Profile Ack) → IsRun empty_run ms
  IsRun-empty ms mask e = absurd (ground arith)

  pub IsConsistent-push_snapshot :
      (s : Mailbox Profile Ack) (snapshot : DesktopInputSnapshot) (now : ℕ)
      → IsConsistent s
      → s.snapshot_count < 64
      → IsConsistent
          (push_snapshot Profile Ack s snapshot now (desktop_snapshot_transition_mask snapshot))
  unfolding push_snapshot push_run is_snapshot_or_overflow
  IsConsistent-push_snapshot s snapshot now c h =
      let added = λ (p : Message Profile Ack → Bool). count-append Profile Ack p s.messages (
        snapshot_message (record {
          snapshot = snapshot;
          now = now;
          generation = s.generation;
          feedback_epoch = s.feedback_epoch;
        })) in
      record {
        snapshots = omega (arith, c.snapshots, added (is_snapshot Profile Ack));
        controls = omega (arith, c.controls, added (is_control Profile Ack));
        overflows = omega (arith, c.overflows, added (is_overflow Profile Ack));
        snapshots_max = omega arith;
        controls_max = c.controls_max;
        run = λ mask e. (s.messages, _, refl, cc);
      }

  pub IsConsistent-push_overflow :
      (s : Mailbox Profile Ack) → IsConsistent s → IsConsistent (push_overflow Profile Ack s)
  unfolding push_overflow reset_snapshots_for_overflow is_snapshot_or_overflow
  IsConsistent-push_overflow s c =
      let kept = count-retain_controls Profile Ack s.messages in
      let added = λ (p : Message Profile Ack → Bool).
        count-append Profile Ack p (retain_controls Profile Ack s.messages) overflow in
      record {
        snapshots = omega (arith, kept.0, added (is_snapshot Profile Ack));
        controls = omega (arith, kept.2, c.controls, added (is_control Profile Ack));
        overflows = omega (arith, kept.1, added (is_overflow Profile Ack));
        snapshots_max = omega arith;
        controls_max = c.controls_max;
        run = IsRun-empty (_ ++ (overflow ∷ []));
      }

  IsConsistent-enqueue_control :
      (s : Mailbox Profile Ack) (outputs : DesktopWorkerOutputs) (message : Message Profile Ack)
      (barrier : Bool)
      → IsControl Profile Ack message
      → IsConsistent s
      → IsConsistent (enqueue_control Profile Ack s outputs message barrier).0
  unfolding enqueue_control
  IsConsistent-enqueue_control s outputs message barrier k c =
      if-cases
        (λ (r : Mailbox Profile Ack × DesktopWorkerOutputs × Bool × List (Ack × Rejection)).
          IsConsistent r.0)
        _ (λ full. c)
        (λ room.
          let added =
            λ (p : Message Profile Ack → Bool). count-append Profile Ack p s.messages message in
          record {
            snapshots = ground (arith, c.snapshots, added (is_snapshot Profile Ack), k.no_snapshot);
            controls = ground (arith, c.controls, added (is_control Profile Ack), k.control);
            overflows = ground (arith, c.overflows, added (is_overflow Profile Ack), k.no_overflow);
            snapshots_max = c.snapshots_max;
            controls_max = ground arith;
            run = IsRun-empty (s.messages ++ (message ∷ []));
          })

  IsConsistent-replaced :
      (s : Mailbox Profile Ack) (front : Queue Profile Ack) (last message : Message Profile Ack)
      → IsControl Profile Ack last
      → IsControl Profile Ack message
      → s.messages ≡ front ++ (last ∷ [])
      → IsConsistent s
      → IsConsistent (record s { messages = front ++ (message ∷ []) })
  IsConsistent-replaced s front last message l m e c =
      let count_last = λ (p : Message Profile Ack → Bool).
        ap (count Profile Ack p) e ∙ count-append Profile Ack p front last in
      let count_new =
        λ (p : Message Profile Ack → Bool). count-append Profile Ack p front message in
      record {
        snapshots = ground (
          arith,
          c.snapshots,
          l.no_snapshot,
          m.no_snapshot,
          count_last (is_snapshot Profile Ack),
          count_new (is_snapshot Profile Ack),
        );
        controls = ground (
          arith,
          c.controls,
          l.control,
          m.control,
          count_last (is_control Profile Ack),
          count_new (is_control Profile Ack),
        );
        overflows = ground (
          arith,
          c.overflows,
          l.no_overflow,
          m.no_overflow,
          count_last (is_overflow Profile Ack),
          count_new (is_overflow Profile Ack),
        );
        snapshots_max = c.snapshots_max;
        controls_max = c.controls_max;
        run = λ mask h.
            let (front', latest, e', k) = c.run mask h in
            absurd (
              ground (
                arith,
                same_back Profile Ack front front' last (snapshot_message latest) (sym e ∙ e'),
                l.no_snapshot,
              ));
      }

  pub IsConsistent-push_control :
      (s : Mailbox Profile Ack) (outputs : DesktopWorkerOutputs) (message : Message Profile Ack)
      (barrier : Bool)
      → IsControl Profile Ack message
      → IsConsistent s
      → IsConsistent (push_control Profile Ack s outputs message barrier).0
  unfolding push_control
  IsConsistent-push_control s outputs message barrier k c =
      let P = λ (r : Mailbox Profile Ack × DesktopWorkerOutputs × Bool × List (Ack × Rejection)).
        IsConsistent r.0 in
      let enqueued = IsConsistent-enqueue_control s outputs message barrier k c in
      if-ind P (not s.accepting) c (
        if-ind P (is_replace_profile Profile Ack message)
          (by_back (pop_replace_profile Profile Ack s.messages)
            (pop_replace_profile-IsPopped Profile Ack s.messages))
          enqueued)
    where
      by_back :
          (o : Option (Queue Profile Ack × Message Profile Ack))
          → IsPopped Profile Ack s.messages o
          → IsConsistent
              (elim o
                as (λ _.
                  Mailbox Profile Ack × DesktopWorkerOutputs × Bool × List (Ack × Rejection)) [
                    | none ↦ enqueue_control Profile Ack s outputs message barrier
                    | some (front, previous) ↦ (
                      record s { messages = front ++ (message ∷ []) },
                      outputs,
                      true,
                      reject Profile Ack previous superseded,
                    )
                  ]).0
      by_back none h = IsConsistent-enqueue_control s outputs message barrier k c
      by_back (some (front, previous)) (e, r) =
          IsConsistent-replaced s front previous message
            (IsControl-replace_profile Profile Ack previous r) k e c

  pub run-EndsIn :
      (s : Mailbox Profile Ack) (mask : ℕ)
      → can_replace_latest s.transition_run mask ≡ true
      → IsConsistent s
      → (s.transition_run.latest ≡ some mask) × EndsIn s.messages mask
  unfolding can_replace_latest
  run-EndsIn s mask k c =
      let e = same_mask_lem s.transition_run.latest mask (ground arith) in (e, c.run mask e)
