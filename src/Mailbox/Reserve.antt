-- ===== src/Mailbox/Reserve.antt =====
-- crates/bridge/bridge-runtime/src/desktop/mailbox.rs: the place that is kept for a disconnection
-- or a shutdown.
use steam_controller_bridge.Common.{
  ◌≡◌, ◌≤◌, refl, Bool, true, false, not, lt→leb_false, if-cases, if-ind, arith, List, [], ◌∷◌,
  ◌++◌, All, Option, none, some,
}
use steam_controller_bridge.Mailbox.State.{
  Message, disconnect, shutdown, is_safety_control, is_replace_profile, DesktopWorkerOutputs,
  Rejection, reject, superseded,
}
use steam_controller_bridge.Mailbox.Step.{
  Mailbox, Queue, push_control, enqueue_control, pop_replace_profile,
}

module _ (Profile Ack : Type 0) where
  -- The mailbox takes messages, and a place for a safety control is free.
  abbrev pub HasRoom : Mailbox Profile Ack → Type 0
  HasRoom s = (s.accepting ≡ true) × (s.control_count ≤ 31)

  abbrev Reply : Type 0
  Reply = Mailbox Profile Ack × DesktopWorkerOutputs × Bool × List (Ack × Rejection)

  enqueue_control-HasRoom :
      (s : Mailbox Profile Ack) (outputs : DesktopWorkerOutputs) (message : Message Profile Ack)
      (barrier : Bool)
      → is_safety_control Profile Ack message ≡ false
      → HasRoom s
      → HasRoom (enqueue_control Profile Ack s outputs message barrier).0
  unfolding enqueue_control
  enqueue_control-HasRoom s outputs message barrier k (a, c) =
      rw k (if-cases (λ (r : Reply). HasRoom r.0) _ (λ full. (a, c)) (λ room. (a, ground arith)))

  push_control-HasRoom :
      (s : Mailbox Profile Ack) (outputs : DesktopWorkerOutputs) (message : Message Profile Ack)
      (barrier : Bool)
      → is_safety_control Profile Ack message ≡ false
      → HasRoom s
      → HasRoom (push_control Profile Ack s outputs message barrier).0
  unfolding push_control
  push_control-HasRoom s outputs message barrier k h =
      if-ind (λ (r : Reply). HasRoom r.0) (not s.accepting) h
        (if-ind (λ (r : Reply). HasRoom r.0) (is_replace_profile Profile Ack message)
          (by_back (pop_replace_profile Profile Ack s.messages))
          (enqueue_control-HasRoom s outputs message barrier k h))
    where
      by_back :
          (o : Option (Queue Profile Ack × Message Profile Ack))
          → HasRoom
              (elim o as (λ _. Reply) [
                | none ↦ enqueue_control Profile Ack s outputs message barrier
                | some (front, previous) ↦ (
                  record s { messages = front ++ (message ∷ []) },
                  outputs,
                  true,
                  reject Profile Ack previous superseded,
                )
              ]).0
      by_back none = enqueue_control-HasRoom s outputs message barrier k h
      by_back (some (front, previous)) = h

  -- Control messages in a row, whether they are taken or refused.
  unfoldable pub push_controls :
      Mailbox Profile Ack
      → DesktopWorkerOutputs
      → List (Message Profile Ack × Bool)
      → Mailbox Profile Ack × DesktopWorkerOutputs
  push_controls s outputs [] = (s, outputs)
  push_controls s outputs ((message, barrier) ∷ rest) =
      let r = push_control Profile Ack s outputs message barrier in push_controls r.0 r.1 rest

  push_controls-HasRoom :
      (s : Mailbox Profile Ack) (outputs : DesktopWorkerOutputs)
      (ms : List (Message Profile Ack × Bool))
      → All (λ (m : Message Profile Ack × Bool). is_safety_control Profile Ack m.0 ≡ false) ms
      → HasRoom s
      → HasRoom (push_controls s outputs ms).0
  unfolding push_controls
  push_controls-HasRoom s outputs [] k h = h
  push_controls-HasRoom s outputs ((message, barrier) ∷ rest) (k, ks) h =
      push_controls-HasRoom (push_control Profile Ack s outputs message barrier).0
        (push_control Profile Ack s outputs message barrier).1 rest ks
        (push_control-HasRoom s outputs message barrier k h)

  safety-taken :
      (s : Mailbox Profile Ack) (outputs : DesktopWorkerOutputs) (message : Message Profile Ack)
      (barrier : Bool)
      → is_safety_control Profile Ack message ≡ true
      → HasRoom s
      → ((push_control Profile Ack s outputs message barrier).2 ≡ true)
        × ((push_control Profile Ack s outputs message barrier).0.messages
            ≡ s.messages ++ (message ∷ []))
  unfolding push_control enqueue_control is_safety_control is_replace_profile
  safety-taken s outputs (disconnect ack) barrier k (a, c) =
      simp (a, lt→leb_false 32 s.control_count (omega arith)) (refl, refl)
  safety-taken s outputs (shutdown ack) barrier k (a, c) =
      simp (a, lt→leb_false 32 s.control_count (omega arith)) (refl, refl)
  safety-taken s outputs _ barrier k (a, c) = absurd (ground arith)

  -- Where an accepting mailbox holds at most 31 control messages, then after any control messages
  -- that are neither a disconnection nor a shutdown, taken or refused, a disconnection or a
  -- shutdown is taken and stands at the back of the queue.
  pub push_controls-safety :
      (s : Mailbox Profile Ack) (outputs : DesktopWorkerOutputs)
      (ms : List (Message Profile Ack × Bool)) (message : Message Profile Ack) (barrier : Bool)
      → All (λ (m : Message Profile Ack × Bool). is_safety_control Profile Ack m.0 ≡ false) ms
      → is_safety_control Profile Ack message ≡ true
      → HasRoom s
      → let (s', outputs') = push_controls s outputs ms in
        ((push_control Profile Ack s' outputs' message barrier).2 ≡ true)
        × ((push_control Profile Ack s' outputs' message barrier).0.messages
            ≡ s'.messages ++ (message ∷ []))
  push_controls-safety s outputs ms message barrier ks k h =
      safety-taken _ _ message barrier k (push_controls-HasRoom s outputs ms ks h)
