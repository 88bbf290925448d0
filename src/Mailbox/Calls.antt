-- ===== src/Mailbox/Calls.antt =====
-- crates/bridge/bridge-runtime/src/desktop/mailbox.rs: sequences of calls on the mailbox.
use steam_controller_bridge.Common.{
  ℕ, ◌≡◌, refl, sym, subst, ap, Bool, false, not, if-ind, arith, List, [], ◌∷◌, All, Option, none,
  some,
}
use steam_controller_bridge.Mailbox.Snapshot.{DesktopInputSnapshot}
use steam_controller_bridge.Mailbox.State.{
  Message, is_snapshot_or_overflow, empty_run, DesktopWorkerOutputs, new_mailbox,
}
use steam_controller_bridge.Mailbox.Step.{
  Mailbox, publish_snapshot, publish_overflow, push_control, take_batch, close,
}
use steam_controller_bridge.Mailbox.Queue.{
  count, is_snapshot, is_overflow, is_control, IsControl-message,
}
use steam_controller_bridge.Mailbox.Consistent.{
  IsRun, IsConsistent, IsConsistent-push_overflow, IsConsistent-push_control, IsRun-empty,
}
use steam_controller_bridge.Mailbox.Publish.{Published, IsPublished, publish_snapshot-IsPublished}

module _ (Profile Ack : Type 0) where
  -- A call of an operation of the mailbox.
  pub data MailboxCall : Type 0 where
    call_publish : DesktopInputSnapshot → (now : ℕ) → MailboxCall
    call_overflow call_take call_close : MailboxCall
    call_control : Message Profile Ack → (feedback_barrier : Bool) → MailboxCall

  -- The program pushes only control messages as such.
  abbrev pub IsProper : MailboxCall → Type 0
  IsProper (call_control message barrier) = is_snapshot_or_overflow Profile Ack message ≡ false
  IsProper _ = Unit

  abbrev State : Type 0
  State = Mailbox Profile Ack × DesktopWorkerOutputs

  abbrev after_publish : Option (Published Profile Ack) → Option State
  after_publish none = none
  after_publish (some (s, outputs, result)) = some (s, outputs)

  -- `none` is a panic.
  unfoldable pub call : State → MailboxCall → Option State
  call (s, outputs) (call_publish snapshot now) =
      after_publish (publish_snapshot Profile Ack s outputs snapshot now)
  call (s, outputs) call_overflow =
      let (s', outputs', taken) = publish_overflow Profile Ack s outputs in some (s', outputs')
  call (s, outputs) (call_control message barrier) =
      let r = push_control Profile Ack s outputs message barrier in some (r.0, r.1)
  call (s, outputs) call_take = some ((take_batch Profile Ack s).0, outputs)
  call (s, outputs) call_close = some ((close Profile Ack s).0, outputs)

  unfoldable pub calls : Option State → List MailboxCall → Option State
  calls s [] = s
  calls none (c ∷ cs) = none
  calls (some s) (c ∷ cs) = calls (call s c) cs

  abbrev pub IsRunning : Option State → Type 0
  IsRunning none = ⊥
  IsRunning (some (s, outputs)) = IsConsistent Profile Ack s

  after_publish-IsRunning :
      (o : Option (Published Profile Ack)) → IsPublished Profile Ack o → IsRunning (after_publish o)
  after_publish-IsRunning none h = h
  after_publish-IsRunning (some (s, outputs, result)) h = h

  IsConsistent-empty :
      (s : Mailbox Profile Ack)
      → s.messages ≡ []
      → s.snapshot_count ≡ 0
      → s.control_count ≡ 0
      → s.transition_run ≡ empty_run
      → IsConsistent Profile Ack s
  unfolding count
  IsConsistent-empty s e n m r =
      let none_of = λ (p : Message Profile Ack → Bool). ap (count Profile Ack p) e in
      record {
        snapshots = omega (arith, n, none_of (is_snapshot Profile Ack));
        controls = omega (arith, m, none_of (is_control Profile Ack));
        overflows = omega (arith, none_of (is_overflow Profile Ack));
        snapshots_max = omega arith;
        controls_max = omega arith;
        run =
            subst (λ run. IsRun Profile Ack run s.messages) (sym r)
              (IsRun-empty Profile Ack s.messages);
      }

  call-IsRunning :
      (s : Mailbox Profile Ack) (outputs : DesktopWorkerOutputs) (c : MailboxCall)
      → IsProper c
      → IsConsistent Profile Ack s
      → IsRunning (call (s, outputs) c)
  unfolding call publish_overflow take_batch close
  call-IsRunning s outputs (call_publish snapshot now) k h =
      after_publish-IsRunning _ (publish_snapshot-IsPublished Profile Ack s outputs snapshot now h)
  call-IsRunning s outputs call_overflow k h =
      if-ind
        (λ (r : Mailbox Profile Ack × DesktopWorkerOutputs × Bool). IsConsistent Profile Ack r.0)
        (not s.accepting) h (IsConsistent-push_overflow Profile Ack s h)
  call-IsRunning s outputs (call_control message barrier) k h =
      IsConsistent-push_control Profile Ack s outputs message barrier
        (IsControl-message Profile Ack message k) h
  call-IsRunning s outputs call_take k h = IsConsistent-empty _ refl refl refl refl
  call-IsRunning s outputs call_close k h = IsConsistent-empty _ refl refl refl refl

  calls-IsRunning :
      (s : Option State) (cs : List MailboxCall)
      → All IsProper cs
      → IsRunning s
      → IsRunning (calls s cs)
  unfolding calls
  calls-IsRunning s [] k h = h
  calls-IsRunning none (c ∷ cs) k h = h
  calls-IsRunning (some (s, outputs)) (c ∷ cs) (k, ks) h =
      calls-IsRunning (call (s, outputs) c) cs ks (call-IsRunning s outputs c k h)

  -- From a new mailbox, over any calls whose control messages are no snapshot and no overflow: no
  -- publication reaches the code's `unreachable!`, and afterwards both counters are the numbers of
  -- such messages in the queue, at most 64 snapshots, 32 control messages and one overflow wait,
  -- and where the run has a latest mask, a snapshot with this mask is at the back of the queue.
  pub calls-new_mailbox :
      (outputs : DesktopWorkerOutputs) (cs : List MailboxCall)
      → All IsProper cs
      → IsRunning (calls (some (new_mailbox Profile Ack, outputs)) cs)
  unfolding new_mailbox
  calls-new_mailbox outputs cs k =
      calls-IsRunning _ cs k (IsConsistent-empty (new_mailbox Profile Ack) refl refl refl refl)
