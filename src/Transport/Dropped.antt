-- ===== src/Transport/Dropped.antt =====
-- crates/bridge/bridge-output/src/bridge_transport.rs: the account of the states that are queued,
-- dropped and written.
use steam_controller_bridge.Common.{
  ℕ, suc, ◌+◌, ◌-◌, ◌<◌, ◌≡◌, refl, sym, subst, ◌∙◌, arith, true, ap, if-cases, List, [], ◌∷◌, ◌++◌,
  length, length-append, All, ok, some, ◌==◌, ==→eq,
}
use steam_controller_bridge.Float.{Float}
use steam_controller_bridge.Gamepad.State.{GamepadState, neutral}
use steam_controller_bridge.Engine.Step.{state_eq}
use steam_controller_bridge.Transport.State.{
  is_ready, u64_add, BridgeTransportConfig, ByteTransport,
}
use steam_controller_bridge.Transport.Step.{
  Connection, write_state, newest, remember, flush_newest, flush_states,
}
use steam_controller_bridge.Transport.Open.{Success, and_then-Success, write_state-Success}
use steam_controller_bridge.Transport.Step.{enqueue, enqueue_checked, queue_state, tail}
use steam_controller_bridge.Transport.Sound.{IsValid}
use steam_controller_bridge.Transport.Delivery.{refreshable, enqueue_checked-newest, Success-both}
use steam_controller_bridge.Transport.Log.{logged}
use steam_controller_bridge.Transport.Written.{
  IsWritten, IsUnsent, flush_newest-IsWritten, queue_state-IsUnsent,
}

module _ (f : Float) (tr : ByteTransport) where
  -- The states that are dropped already or still queued.
  abbrev pub held : Connection f tr → ℕ
  held c = u64_add c.metrics.states_dropped (length c.queued)

  unfoldable pub queue_all : Connection f tr → List (GamepadState (Float.F f)) → Connection f tr
  unfolding queue_state
  queue_all c [] = c
  queue_all c (state ∷ states) = queue_all (queue_state f tr c state).0 states

  -- The connection still is what it was, and holds one state more for each that was queued.
  abbrev HasQueued : Connection f tr → ℕ → Connection f tr → Type 0
  HasQueued c n c' =
      (c'.status ≡ c.status) × (c'.config ≡ c.config) × (held c' ≡ u64_add (held c) n)

  length-tail :
      (states : List (GamepadState (Float.F f)))
      → 0 < length states
      → suc (length (tail f tr states)) ≡ length states
  length-tail [] h = omega arith
  length-tail (state ∷ states) h = omega arith

  counted :
      (dropped rest before after : ℕ)
      → suc rest ≡ before
      → after ≡ rest + 1
      → u64_add (u64_add dropped 1) after ≡ u64_add (u64_add dropped before) 1
  unfolding u64_add
  counted dropped rest before after e e' = omega arith

  more :
      (dropped before after : ℕ)
      → after ≡ before + 1
      → u64_add dropped after ≡ u64_add (u64_add dropped before) 1
  unfolding u64_add
  more dropped before after e = omega arith

  then_more : (a b n m : ℕ) → b ≡ u64_add a 1 → u64_add b n ≡ u64_add a (suc n)
  unfolding u64_add
  then_more a b n m e = omega arith

  one_more : (a b n : ℕ) → b ≡ u64_add a n → u64_add b 1 ≡ u64_add a (n + 1)
  unfolding u64_add
  one_more a b n e = omega arith

  enqueue-HasQueued :
      (c : Connection f tr) (state : GamepadState (Float.F f))
      → 0 < c.config.queue_capacity
      → HasQueued c 1 (enqueue f tr c state)
  unfolding enqueue
  enqueue-HasQueued c state room =
      if-cases (HasQueued c 1) (length c.queued == c.config.queue_capacity)
        (λ e. (
          refl,
          refl,
          full (tail f tr c.queued)
              (length-tail c.queued (filled (==→eq (length c.queued) c.config.queue_capacity e))),
        ))
        (λ e. (refl, refl, free c.queued))
    where
      filled : length c.queued ≡ c.config.queue_capacity → 0 < length c.queued
      filled e = omega arith

      full :
          (rest : List (GamepadState (Float.F f)))
          → suc (length rest) ≡ length c.queued
          → u64_add (u64_add c.metrics.states_dropped 1) (length (rest ++ (state ∷ [])))
            ≡ u64_add (held c) 1
      full rest e =
          counted c.metrics.states_dropped (length rest) (length c.queued) _ e
            (length-append rest (state ∷ []))

      free :
          (states : List (GamepadState (Float.F f)))
          → u64_add c.metrics.states_dropped (length (states ++ (state ∷ [])))
            ≡ u64_add (u64_add c.metrics.states_dropped (length states)) 1
      free states =
          more c.metrics.states_dropped (length states) _ (length-append states (state ∷ []))

  queue_state-HasQueued :
      (c : Connection f tr) (state : GamepadState (Float.F f))
      → 0 < c.config.queue_capacity
      → IsValid f tr state
      → HasQueued c 1 (queue_state f tr c state).0
        × (newest f tr ((queue_state f tr c state).0).queued ≡ some state)
  unfolding queue_state enqueue_checked
  queue_state-HasQueued c state room valid =
      rw valid (enqueue-HasQueued c state room, enqueue_checked-newest f tr c state (ok tt))

  u64_add-zero : (a b : ℕ) → u64_add (u64_add a b) 0 ≡ u64_add a b
  unfolding u64_add
  u64_add-zero a b = omega arith

  queue_all-HasQueued :
      (c : Connection f tr) (states : List (GamepadState (Float.F f)))
      → 0 < c.config.queue_capacity
      → All (IsValid f tr) states
      → HasQueued c (length states) (queue_all c states)
  unfolding queue_all
  queue_all-HasQueued c [] room v =
      (refl, refl, none_more (c.metrics.states_dropped) (length c.queued))
    where
      none_more : (a b : ℕ) → u64_add a b ≡ u64_add (u64_add a b) 0
      none_more a b = sym (u64_add-zero a b)
  queue_all-HasQueued c (state ∷ states) room (valid, v) =
      let next = queue_state f tr c state in
      let ((s, k, h), n) = queue_state-HasQueued c state room valid in
      let (s', k', h') =
        queue_all-HasQueued (next.0) states
          (subst (λ (g : BridgeTransportConfig). 0 < g.queue_capacity) (sym k) room) v in
      (s' ∙ s, k' ∙ k, h' ∙ then_more (held c) (held (next.0)) (length states) 0 h)

  newest-length :
      (states : List (GamepadState (Float.F f))) {state : GamepadState (Float.F f)}
      → newest f tr states ≡ some state
      → 0 < length states
  unfolding newest
  newest-length [] e = cc
  newest-length (s ∷ states) e = omega arith

  all_but_one :
      (dropped queued before : ℕ)
      → 0 < queued
      → u64_add dropped queued ≡ before
      → u64_add (u64_add dropped (queued - 1)) 1 ≡ before
  unfolding u64_add
  all_but_one dropped queued before h e = omega arith

  -- The queue is empty, and all states but one are counted as dropped.
  abbrev pub HasEmptied : ℕ → Connection f tr → Type 0
  HasEmptied before c = (c.queued ≡ []) × (u64_add c.metrics.states_dropped 1 ≡ before)

  flush_newest-HasEmptied :
      (c : Connection f tr) (now before : ℕ) (state : GamepadState (Float.F f))
      → newest f tr c.queued ≡ some state
      → held c ≡ before
      → Success f tr
          (λ c'. HasEmptied before c' × (c'.last_state ≡ refreshable f tr state))
          (flush_newest f tr c now (some state))
  unfolding flush_newest remember
  flush_newest-HasEmptied c now before state n h =
      let emptied = record c {
        queued = [];
        metrics = record c.metrics {
          states_dropped = u64_add c.metrics.states_dropped (length c.queued - 1);
        };
      } in
      let Q =
        λ (c' : Connection f tr). HasEmptied before c' × (c'.last_state ≡ refreshable f tr state) in
      and_then-Success f tr (HasEmptied before) Q (write_state f tr emptied state)
        (remember f tr now state)
        (write_state-Success f tr (HasEmptied before) (λ c' t h. h) emptied state
          (
            refl,
            all_but_one c.metrics.states_dropped (length c.queued) before (newest-length c.queued n)
                h,
          ))
        (λ c' k.
          if-cases Q (state_eq f state (neutral f)) (λ e. (k, rw e refl)) (λ e. (k, rw e refl)))

  flush_ready :
      (c : Connection f tr) (now : ℕ) (state : GamepadState (Float.F f))
      → is_ready c.status ≡ true
      → newest f tr c.queued ≡ some state
      → flush_states f tr c now ≡ flush_newest f tr c now (some state)
  unfolding flush_states
  flush_ready c now state r n = rw (r, n) refl

-- The last frame that is written, on a transport that keeps what it accepts.
module _ (f : Float) (tr : ByteTransport) where
  abbrev L : ByteTransport
  L = logged tr

  queue_all-IsUnsent :
      (c : Connection f L) (states : List (GamepadState (Float.F f)))
      → IsUnsent f tr c (queue_all f L c states)
  unfolding queue_all
  queue_all-IsUnsent c [] = (refl, refl)
  queue_all-IsUnsent c (state ∷ states) =
      let (t, n) = queue_state-IsUnsent f tr c state in
      let (t', n') = queue_all-IsUnsent (queue_state f L c state).0 states in (t' ∙ t, n' ∙ n)

  -- On a transport that keeps the frames it accepts, for a ready connection with room for a state:
  -- after valid states and then one more valid state are queued, a flush that succeeds leaves the
  -- queue empty, has the transport accept one frame more, which is the encoding of the last
  -- state's message under the next sequence number, and keeps the last state to be refreshed, or
  -- none if it is neutral, and the count of dropped states is, modulo 2 ^ 64, one less than that
  -- before with the states queued then and since.
  pub flush_states-HasEmptied :
      (c : Connection f L) (states : List (GamepadState (Float.F f)))
      (state : GamepadState (Float.F f)) (now : ℕ)
      → is_ready c.status ≡ true
      → 0 < c.config.queue_capacity
      → All (IsValid f L) states
      → IsValid f L state
      → Success f L
          (λ c'.
            (HasEmptied f L (u64_add (held f L c) (length states + 1)) c'
              × (c'.last_state ≡ refreshable f L state))
            × IsWritten f state c.sequence c.transport.1 c'.transport.1)
          (flush_states f L (queue_state f L (queue_all f L c states) state).0 now)
  flush_states-HasEmptied c states state now r room v valid =
      let (s, k, h) = queue_all-HasQueued f L c states room v in
      let before = queue_all f L c states in
      let ((s', k', h'), n) =
        queue_state-HasQueued f L before state
          (subst (λ (g : BridgeTransportConfig). 0 < g.queue_capacity) (sym k) room) valid in
      let c' = (queue_state f L before state).0 in
      let (t, q) = queue_all-IsUnsent c states in
      let (t', q') = queue_state-IsUnsent f tr before state in
      let written = flush_newest-IsWritten f tr c' now state in
      rw (flush_ready f L c' now state (subst (λ x. is_ready x ≡ true) (sym (s' ∙ s)) r) n) (
        Success-both f L
          (λ x.
            HasEmptied f L (u64_add (held f L c) (length states + 1)) x
            × (x.last_state ≡ refreshable f L state))
          (λ x. IsWritten f state c.sequence c.transport.1 x.transport.1)
          (flush_newest f L c' now (some state))
          (flush_newest-HasEmptied f L c' now _ state n
            (h' ∙ one_more f L (held f L c) (held f L before) (length states) h))
          (subst
            (λ (u : (ℕ × List (List ℕ))).
              Success f L (λ x. IsWritten f state u.0 u.1 x.transport.1)
                (flush_newest f L c' now (some state)))
            (pair (q' ∙ q) (ap (λ (w : ByteTransport.T L). w.1) (t' ∙ t))) written))
    where
      pair :
          {a a' : ℕ} {b b' : List (List ℕ)}
          → a ≡ a'
          → b ≡ b'
          → ◌≡◌ {A = ℕ × List (List ℕ)} (a, b) (a', b')
      pair e e' = cc
