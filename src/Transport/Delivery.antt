-- ===== src/Transport/Delivery.antt =====
-- crates/bridge/bridge-output/src/bridge_transport.rs: `poll` writes the newest queued state.
use steam_controller_bridge.Common.{
  ℕ, ◌-◌, ◌≡◌, refl, ap, sym, subst, ◌∙◌, true, if-cases, if-ind, if◌then◌else◌, List, [], ◌∷◌,
  ◌++◌, length, Result, ok, err, Option, none, some, ◌==◌,
}
use steam_controller_bridge.Float.{Float}
use steam_controller_bridge.Gamepad.State.{GamepadState, InvalidState, neutral}
use steam_controller_bridge.Engine.Step.{state_eq}
use steam_controller_bridge.Transport.State.{is_ready, u64_add, ByteTransport}
use steam_controller_bridge.Transport.Step.{
  Connection, Outcome, write_state, newest, remember, tail, enqueue, enqueue_checked, flush_newest,
  flush_states,
}
use steam_controller_bridge.Transport.Poll.{
  poll, poll_read, service_connection, service_session, check_handshake, check_firmware, check_pong,
  send_ping, resend, refresh, refreshed, is_refresh_due,
}
use steam_controller_bridge.Transport.Keep.{
  Leaves, IsStable, poll_read-Leaves, check_handshake-Leaves, check_firmware-Leaves,
  check_pong-Leaves, send_ping-Leaves,
}
use steam_controller_bridge.Transport.Open.{
  Settled, of_success, Anything, success-IsStable, Success, and_then-Success, write_state-Success,
  Of, Leaves-Success,
}

module _ (f : Float) (tr : ByteTransport) where
  -- The state that is refreshed after the frame of a state.
  abbrev pub refreshable : GamepadState (Float.F f) → Option (GamepadState (Float.F f))
  refreshable state = if state_eq f state (neutral f) then none else some state

  pub newest-append :
      (states : List (GamepadState (Float.F f))) (state : GamepadState (Float.F f))
      → newest f tr (states ++ (state ∷ [])) ≡ some state
  unfolding newest
  newest-append [] state = refl
  newest-append (s ∷ []) state = refl
  newest-append (s ∷ t ∷ states) state = newest-append (t ∷ states) state

  -- A state that is queued becomes the newest.
  pub enqueue_checked-newest :
      (c : Connection f tr) (state : GamepadState (Float.F f)) (v : Result InvalidState (Unit {0}))
      → Success f tr (λ c'. newest f tr c'.queued ≡ some state) (enqueue_checked f tr c state v)
  unfolding enqueue_checked enqueue
  enqueue_checked-newest c state (ok _) =
      if-ind (λ (c' : Connection f tr). newest f tr c'.queued ≡ some state)
        (length c.queued == c.config.queue_capacity) (newest-append (tail f tr c.queued) state)
        (newest-append c.queued state)
  enqueue_checked-newest c state (err e) = tt

  abbrev pub Shows : Type 1
  Shows = GamepadState (Float.F f) → ByteTransport.T tr → Type 0

  -- The connection is ready, its queue is empty, and the state is the last one that was written: the
  -- transport shows it, and it is kept for the refresh.
  abbrev pub HasDelivered : Shows → GamepadState (Float.F f) → Connection f tr → Type 0
  HasDelivered Shown state c =
      (is_ready c.status ≡ true)
      × (c.queued ≡ [])
      × (c.last_state ≡ refreshable state)
      × Shown state c.transport

  refreshable-eq :
      (state last : GamepadState (Float.F f)) → refreshable state ≡ some last → last ≡ state
  refreshable-eq state last =
      if-cases (λ r. r ≡ some last → last ≡ state) (state_eq f state (neutral f)) (λ e h. cc)
        (λ e h. cc)

  pub Success-both :
      (P Q : Connection f tr → Type 0) (x : Outcome f tr)
      → Success f tr P x
      → Success f tr Q x
      → Success f tr (λ c. P c × Q c) x
  Success-both P Q (c, ok _) p q = (p, q)
  Success-both P Q (c, err e) p q = tt

  abbrev Queued : List (GamepadState (Float.F f)) → Settled f tr
  Queued states s config started queued = (is_ready s ≡ true) × (queued ≡ states)

  queued-IsStable :
      (states : List (GamepadState (Float.F f)))
      → IsStable f tr (of_success f tr (Queued states)) (Anything f tr)
  queued-IsStable states =
      success-IsStable f tr (Queued states) (λ s config started queued (e, h). (refl, h))

module _ (f : Float) (tr : ByteTransport) (Shown : Shows f tr)
    (shows : (c : Connection f tr) (state : GamepadState (Float.F f))
      → Success f tr (λ c'. Shown state c'.transport) (write_state f tr c state)) where
  -- What a write leaves as it is.
  abbrev Unwritten : Connection f tr → Connection f tr → Type 0
  Unwritten c c' = (c'.status ≡ c.status) × (c'.queued ≡ c.queued) × (c'.last_state ≡ c.last_state)

  abbrev Delivered : GamepadState (Float.F f) → Connection f tr → Type 0
  Delivered state c = HasDelivered f tr Shown state c

  abbrev Fresh : GamepadState (Float.F f) → Connection f tr → Connection f tr → Type 0
  Fresh state c c' = Unwritten c c' × Shown state c'.transport

  write_state-Fresh :
      (c : Connection f tr) (state : GamepadState (Float.F f))
      → Success f tr (Fresh state c) (write_state f tr c state)
  write_state-Fresh c state =
      Success-both f tr (Unwritten c) (λ c'. Shown state c'.transport) (write_state f tr c state)
        (write_state-Success f tr (Unwritten c) (λ c' t h. h) c state (refl, refl, refl))
        (shows c state)

  remember-HasDelivered :
      (now : ℕ) (state : GamepadState (Float.F f)) (c : Connection f tr)
      → is_ready c.status ≡ true
      → c.queued ≡ []
      → Shown state c.transport
      → Success f tr (Delivered state) (remember f tr now state c)
  unfolding remember
  remember-HasDelivered now state c r q w =
      if-cases (λ c'. Delivered state c') (state_eq f state (neutral f)) (λ e. (r, q, rw e refl, w))
        (λ e. (r, q, rw e refl, w))

  flush_newest-HasDelivered :
      (now : ℕ) (state : GamepadState (Float.F f)) (c : Connection f tr)
      → is_ready c.status ≡ true
      → Success f tr (Delivered state) (flush_newest f tr c now (some state))
  unfolding flush_newest
  flush_newest-HasDelivered now state c r =
      let emptied = record c {
        queued = [];
        metrics = record c.metrics {
          states_dropped = u64_add c.metrics.states_dropped (length c.queued - 1);
        };
      } in
      and_then-Success f tr (Fresh state emptied) (Delivered state) (write_state f tr emptied state)
        (remember f tr now state) (write_state-Fresh emptied state)
        (λ c' ((s, q, l), w). remember-HasDelivered now state c' (rw s r) q w)

  flush_states-HasDelivered :
      (now : ℕ) (state : GamepadState (Float.F f)) (states : List (GamepadState (Float.F f)))
      (c : Connection f tr)
      → newest f tr states ≡ some state
      → Of f tr (Queued f tr states) c
      → Success f tr (Delivered state) (flush_states f tr c now)
  unfolding flush_states
  flush_states-HasDelivered now state states c n (r, q) =
      let n' : newest f tr c.queued ≡ some state = ap (newest f tr) q ∙ n in
      rw (r, n') (flush_newest-HasDelivered now state c r)

  resend-HasDelivered :
      (now : ℕ) (state : GamepadState (Float.F f)) (c : Connection f tr)
      (last : Option (GamepadState (Float.F f)))
      → c.last_state ≡ last
      → Delivered state c
      → Success f tr (Delivered state) (resend f tr now c last)
  unfolding resend refreshed
  resend-HasDelivered now state c none e h = h
  resend-HasDelivered now state c (some last) e (r, q, l, w) =
      let same = refreshable-eq f tr state last (sym l ∙ e) in
      and_then-Success f tr (Fresh last c) (Delivered state) (write_state f tr c last)
        (refreshed f tr now) (write_state-Fresh c last)
        (λ c' ((s, q', l'), w').
          (rw s r, q' ∙ q, l' ∙ l, subst (λ g. Shown g c'.transport) same w'))

  refresh-HasDelivered :
      (now : ℕ) (state : GamepadState (Float.F f)) (c : Connection f tr)
      → Delivered state c
      → Success f tr (Delivered state) (refresh f tr now c)
  unfolding refresh
  refresh-HasDelivered now state c h =
      if-ind (Success f tr (Delivered state)) (is_refresh_due f tr now c)
        (resend-HasDelivered now state c c.last_state refl h) h

  module _ (now : ℕ) (state : GamepadState (Float.F f)) (states : List (GamepadState (Float.F f)))
      (last : newest f tr states ≡ some state) where
    abbrev Q : Connection f tr → Type 0
    Q = Of f tr (Queued f tr states)

    stay :
        (x : Outcome f tr)
        → Leaves f tr (of_success f tr (Queued f tr states)) (Anything f tr) x
        → Success f tr Q x
    stay x h = Leaves-Success f tr (Queued f tr states) x h

    service_session-HasDelivered :
        (c : Connection f tr) → Q c → Success f tr (Delivered state) (service_session f tr now c)
    unfolding service_session
    service_session-HasDelivered c q =
        let k = queued-IsStable f tr states in
        let D = Delivered state in
        and_then-Success f tr Q D (check_firmware f tr now c) _
          (stay (check_firmware f tr now c) (check_firmware-Leaves f tr _ _ k now c q))
          (λ c q.
            and_then-Success f tr Q D (check_pong f tr now c) _
              (stay (check_pong f tr now c) (check_pong-Leaves f tr _ _ k now c q))
              (λ c q.
                and_then-Success f tr Q D (send_ping f tr now c) _
                  (stay (send_ping f tr now c) (send_ping-Leaves f tr _ _ k now c q))
                  (λ c q.
                    and_then-Success f tr D D (flush_states f tr c now) (refresh f tr now)
                      (flush_states-HasDelivered now state states c last q)
                      (refresh-HasDelivered now state))))

    service_connection-HasDelivered :
        (c : Connection f tr) → Q c → Success f tr (Delivered state) (service_connection f tr now c)
    unfolding service_connection
    service_connection-HasDelivered c q =
        and_then-Success f tr Q (Delivered state) (check_handshake f tr now c)
          (service_session f tr now)
          (stay (check_handshake f tr now c)
            (check_handshake-Leaves f tr _ _ (queued-IsStable f tr states) now c q))
          service_session-HasDelivered

    -- If a poll of a ready connection succeeds, it leaves the connection ready, the queue empty, and
    -- the newest state of the queue before it as the last one written.
    pub poll-HasDelivered :
        (c : Connection f tr)
        → is_ready c.status ≡ true
        → c.queued ≡ states
        → Success f tr (Delivered state) (poll f tr c now)
    unfolding poll
    poll-HasDelivered c r q =
        let (transport, answer) = tr.read c.transport in
        let c' = record c { transport = transport } in
        and_then-Success f tr Q (Delivered state) (poll_read f tr c' answer now)
          (service_connection f tr now)
          (stay (poll_read f tr c' answer now)
            (poll_read-Leaves f tr _ _ (queued-IsStable f tr states) c' answer now (r, q)))
          service_connection-HasDelivered
