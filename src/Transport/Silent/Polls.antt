-- ===== src/Transport/Silent/Polls.antt =====
-- crates/bridge/bridge-output/src/bridge_transport.rs: the polls of a session with a silent peer.
use steam_controller_bridge.Common.{
  ℕ, ◌+◌, ◌-◌, ◌≤◌, ◌≡◌, ap, arith, true, if-cases, if-ind, leb, le→leb, List, [], ◌∷◌, ◌++◌,
  Result, ok, err, Option, none, some,
}
use steam_controller_bridge.Float.{Float}
use steam_controller_bridge.Transport.State.{IoErrorKind, BridgeTransportConfig, ByteTransport}
use steam_controller_bridge.Transport.Step.{Connection, Outcome, and_then, flush_states}
use steam_controller_bridge.Transport.Poll.{
  poll, poll_read, service_connection, service_session, check_handshake, check_firmware, check_pong,
  send_ping, refresh,
}
use steam_controller_bridge.Transport.Open.{Success, and_then-Success}
use steam_controller_bridge.Transport.Poll.{
  is_late_handshake, is_unreported, is_late_pong, ping_sent,
}
use steam_controller_bridge.Transport.Step.{is_due}
use steam_controller_bridge.Transport.Firmware.{unreported_version}
use steam_controller_bridge.Transport.Silent.{
  IsQuiet, Waits, IsWaiting, MayBeWaiting, rest-IsWaiting, send_ping-IsWaiting, still-IsWaiting,
}

module _ (f : Float) (tr : ByteTransport) where
  module _ (P Q : Connection f tr → Type 0) (now : ℕ)
      (transports : (c : Connection f tr) (t : ByteTransport.T tr)
        → P c
        → P (record c { transport = t }))
      (grace : (c : Connection f tr)
        → P c
        → P (record c { firmware = record c.firmware { version = unreported_version } }))
      (pongs : (c : Connection f tr)
        → P c
        → Success f tr Q (
            and_then f tr (check_pong f tr now c) (λ c.
              and_then f tr
                (send_ping f tr now c)
                (λ c. and_then f tr (flush_states f tr c now) (refresh f tr now))))) where
    after_read : (c : Connection f tr) → P c → Success f tr Q (service_connection f tr now c)
    unfolding service_connection service_session check_handshake check_firmware
    after_read c p =
        and_then-Success f tr P Q (check_handshake f tr now c) _
          (if-cases (Success f tr P) (is_late_handshake f tr now c) (λ e. tt) (λ e. p))
          (λ c p.
            and_then-Success f tr P Q (check_firmware f tr now c) _
              (if-ind (Success f tr P) (is_unreported f tr now c) (grace c p) p) pongs)

    quiet_read :
        (c : Connection f tr) (answer : Result IoErrorKind (List ℕ))
        → IsQuiet answer
        → P c
        → Success f tr P (poll_read f tr c answer now)
    unfolding poll_read
    quiet_read c (ok []) q p = p
    quiet_read c (ok (byte ∷ bytes)) q p = elim q [ ]
    quiet_read c (err kind) q p = rw q p

    quiet_poll :
        (c : Connection f tr)
        → IsQuiet (tr.read c.transport).1
        → P c
        → Success f tr Q (poll f tr c now)
    unfolding poll
    quiet_poll c q p =
        let (transport, answer) = tr.read c.transport in
        let c' = record c { transport = transport } in
        and_then-Success f tr P Q (poll_read f tr c' answer now) (service_connection f tr now)
          (quiet_read c' answer q (transports c transport p)) after_read

  check_pong-Success :
      (P : Connection f tr → Type 0) (now : ℕ) (c : Connection f tr)
      → P c
      → Success f tr P (check_pong f tr now c)
  unfolding check_pong
  check_pong-Success P now c h = if-ind (Success f tr P) (is_late_pong f tr now c) tt h

  check_pong-late :
      (now : ℕ) (c : Connection f tr)
      → is_late_pong f tr now c ≡ true
      → Success f tr (λ c. ⊥) (check_pong f tr now c)
  unfolding check_pong
  check_pong-late now c e = rw e tt

  -- The polls of a session, which ends with the first error.
  unfoldable pub polls : Connection f tr → List ℕ → Outcome f tr
  unfolding poll
  polls c [] = (c, ok tt)
  polls c (now ∷ times) = and_then f tr (poll f tr c now) (λ c. polls c times)

  abbrev pub HasFailed : Outcome f tr → Type 0
  HasFailed x = Success f tr (λ c. ⊥) x

  module _ (quiet : (t : ByteTransport.T tr) → IsQuiet (tr.read t).1)
      (config : BridgeTransportConfig) where
    first_poll :
        (c : Connection f tr) (now : ℕ)
        → MayBeWaiting f tr config now c
        → Success f tr (IsWaiting f tr config now) (poll f tr c now)
    first_poll c now m =
        quiet_poll (MayBeWaiting f tr config now) (IsWaiting f tr config now) now (λ c t h. h)
          (λ c h. h) pinged c (quiet c.transport) m
      where
        pinged :
            (c : Connection f tr)
            → MayBeWaiting f tr config now c
            → Success f tr (IsWaiting f tr config now) (
                and_then f tr (check_pong f tr now c) (λ c.
                  and_then f tr
                    (send_ping f tr now c)
                    (λ c. and_then f tr (flush_states f tr c now) (refresh f tr now))))
        pinged c h =
            and_then-Success f tr (MayBeWaiting f tr config now) (IsWaiting f tr config now)
              (check_pong f tr now c) _ (check_pong-Success (MayBeWaiting f tr config now) now c h)
              (λ c h.
                and_then-Success f tr (IsWaiting f tr config now) (IsWaiting f tr config now)
                  (send_ping f tr now c) _ (send_ping-IsWaiting f tr config now c h)
                  (rest-IsWaiting f tr config now now))

    later_poll :
        (c : Connection f tr) (by now : ℕ)
        → IsWaiting f tr config by c
        → Success f tr (IsWaiting f tr config by) (poll f tr c now)
    later_poll c by now m =
        quiet_poll (IsWaiting f tr config by) (IsWaiting f tr config by) now (λ c t h. h) (λ c h. h)
          pinged c (quiet c.transport) m
      where
        pinged :
            (c : Connection f tr)
            → IsWaiting f tr config by c
            → Success f tr (IsWaiting f tr config by) (
                and_then f tr (check_pong f tr now c) (λ c.
                  and_then f tr
                    (send_ping f tr now c)
                    (λ c. and_then f tr (flush_states f tr c now) (refresh f tr now))))
        pinged c h =
            and_then-Success f tr (IsWaiting f tr config by) (IsWaiting f tr config by)
              (check_pong f tr now c) _ (check_pong-Success (IsWaiting f tr config by) now c h)
              (λ c h.
                and_then-Success f tr (IsWaiting f tr config by) (IsWaiting f tr config by)
                  (send_ping f tr now c) _ (still-IsWaiting f tr config by now c h)
                  (rest-IsWaiting f tr config by now))

    last_poll :
        (c : Connection f tr) (by now : ℕ)
        → by + config.pong_timeout ≤ now
        → IsWaiting f tr config by c
        → HasFailed (poll f tr c now)
    last_poll c by now late m =
        quiet_poll (IsWaiting f tr config by) (λ c. ⊥) now (λ c t h. h) (λ c h. h) timed_out c
          (quiet c.transport) m
      where
        is_late :
            (at timeout : ℕ)
            → at ≤ by
            → timeout ≡ config.pong_timeout
            → leb timeout (now - at) ≡ true
        is_late at timeout w e = le→leb timeout (now - at) (omega arith)

        due :
            (p : Option (ℕ × ℕ)) (timeout : ℕ)
            → Waits f tr by p
            → timeout ≡ config.pong_timeout
            → is_due (ping_sent f tr p) now timeout ≡ true
        due none timeout w e = elim w [ ]
        due (some (nonce, at)) timeout w e = is_late at timeout w e

        timed_out :
            (c : Connection f tr)
            → IsWaiting f tr config by c
            → HasFailed (
                and_then f tr (check_pong f tr now c) (λ c.
                  and_then f tr
                    (send_ping f tr now c)
                    (λ c. and_then f tr (flush_states f tr c now) (refresh f tr now))))
        timed_out c (r, k, w) =
            and_then-Success f tr (λ c. ⊥) (λ c. ⊥) (check_pong f tr now c) _
              (check_pong-late now c (
                due c.pending_ping c.config.pong_timeout w
                  (ap (λ (g : BridgeTransportConfig). g.pong_timeout) k)))
              (λ c h. elim h [ ])

    polls-waiting :
        (c : Connection f tr) (by last : ℕ) (times : List ℕ)
        → IsWaiting f tr config by c
        → by + config.pong_timeout ≤ last
        → HasFailed (polls c (times ++ (last ∷ [])))
    unfolding polls
    polls-waiting c by last [] h late =
        and_then-Success f tr (λ c. ⊥) (λ c. ⊥) (poll f tr c last) _ (last_poll c by last late h)
          (λ c h. elim h [ ])
    polls-waiting c by last (now ∷ times) h late =
        and_then-Success f tr (IsWaiting f tr config by) (λ c. ⊥) (poll f tr c now) _
          (later_poll c by now h) (λ c h. polls-waiting c by last times h late)

    -- On a transport that never has anything to read, for a ready connection without an unanswered
    -- ping or with one from before: polls, of which the first comes the ping interval after the
    -- last ping at least, and the last the pong timeout after the first at least, end in an error,
    -- whatever polls lie between.
    pub polls-HasFailed :
        (c : Connection f tr) (first last : ℕ) (times : List ℕ)
        → MayBeWaiting f tr config first c
        → first + config.pong_timeout ≤ last
        → HasFailed (polls c (first ∷ (times ++ (last ∷ []))))
    unfolding polls
    polls-HasFailed c first last times h late =
        and_then-Success f tr (IsWaiting f tr config first) (λ c. ⊥) (poll f tr c first) _
          (first_poll c first h) (λ c h. polls-waiting c first last times h late)
