-- ===== src/Transport/Log.antt =====
-- crates/bridge/bridge-output/src/bridge_transport.rs: the frames that a connection has written, on
-- a transport that keeps what it accepts.
use steam_controller_bridge.Common.{
  ℕ, ◌+◌, ◌%◌, ◌^◌, ◌≡◌, true, false, inl, inr, List, [], ◌∷◌, Result, ok, err, Result-cases,
}
use steam_controller_bridge.Float.{Float}
use steam_controller_bridge.Protocol.Message.{Message, hello, pong, new_frame, protocol_version}
use steam_controller_bridge.Protocol.Encode.{encode}
use steam_controller_bridge.Transport.State.{
  IoErrorKind, BridgeConnectionStatus, handshaking, ready, unhealthy, disconnected, is_ready,
  is_handshaking, ByteTransport,
}
use steam_controller_bridge.Transport.Step.{Connection, Outcome, sent, write_bytes, write_message}
use steam_controller_bridge.Transport.Keep.{
  Property, Leaves, MayWrite, pong_may, ready_may, IsStable,
}
use steam_controller_bridge.Transport.Keep.Session.{poll-Leaves}
use steam_controller_bridge.Transport.Poll.{poll}

-- The transport with the frames that it has accepted, the last one first.
abbrev pub keep :
    {T : Type 0}
    → List (List ℕ)
    → List ℕ
    → T × Result IoErrorKind (Unit {0})
    → (T × List (List ℕ)) × Result IoErrorKind (Unit {0})
keep log bytes (t, ok _) = ((t, bytes ∷ log), ok tt)
keep log bytes (t, err e) = ((t, log), err e)

abbrev pub logged : ByteTransport → ByteTransport
logged tr = record {
  T = ByteTransport.T tr × List (List ℕ);
  write_all = λ (t, log) bytes. keep log bytes (tr.write_all t bytes);
  read = λ (t, log). let (t', answer) = tr.read t in ((t', log), answer);
}

-- The log holds one frame for each sequence number from 0 on, wrapping at 2 ^ 16, up to the number
-- that is next, and each frame's message has the property.
pub data IsSent (P : Message → Type 0) : List (List ℕ) → ℕ → Type 0 where
  nothing_sent : IsSent P [] 0
  one_sent :
      {log : List (List ℕ)} {n : ℕ}
      → (m : Message) (bytes : List ℕ) → encode (new_frame n m) ≡ ok bytes
      → P m
      → IsSent P log n
      → IsSent P (bytes ∷ log) ((n + 1) % 2 ^ 16)

abbrev pub IsHandshake : Message → Type 0
IsHandshake (hello lo hi) = (lo ≡ protocol_version) × (hi ≡ protocol_version)
IsHandshake (pong nonce) = Unit
IsHandshake _ = ⊥

-- While the handshake lasts only the hello and answers to pings are permitted.
abbrev pub IsPermitted : BridgeConnectionStatus → Message → Type 0
IsPermitted handshaking m = IsHandshake m
IsPermitted _ m = Unit

pub IsSent-any :
    {P : Message → Type 0} {log : List (List ℕ)} {n : ℕ}
    → IsSent P log n
    → IsSent (λ m. Unit {0}) log n
IsSent-any nothing_sent = nothing_sent
IsSent-any (one_sent m bytes e p s) = one_sent m bytes e tt (IsSent-any s)

module _ (f : Float) (tr : ByteTransport) where
  abbrev L : ByteTransport
  L = logged tr

  abbrev pub IsLogged : Connection f (logged tr) → Type 0
  IsLogged c = IsSent (IsPermitted c.status) c.transport.1 c.sequence

  abbrev pub Keeps : Outcome f L → Type 0
  Keeps x = IsLogged x.0

  sent-IsLogged :
      (c : Connection f L) (m : Message) (bytes : List ℕ)
      (x : ByteTransport.T tr × Result IoErrorKind (Unit {0}))
      → encode (new_frame c.sequence m) ≡ ok bytes
      → IsPermitted c.status m
      → IsLogged c
      → Keeps (sent f L c (keep c.transport.1 bytes x))
  unfolding sent
  sent-IsLogged c m bytes (t, ok _) e p h = one_sent m bytes e p h
  sent-IsLogged c m bytes (t, err kind) e p h = h

  pub write_message-IsLogged :
      (c : Connection f L) (m : Message)
      → IsPermitted c.status m
      → IsLogged c
      → Keeps (write_message f L c m)
  unfolding write_message write_bytes
  write_message-IsLogged c m p h = elim (Result-cases (encode (new_frame c.sequence m))) [
    | inl (bytes, e) ↦ rw e (sent-IsLogged c m bytes (tr.write_all c.transport.0 bytes) e p h)
    | inr (failure, e) ↦ rw e h
  ]

  IsPermitted-ready :
      (s : BridgeConnectionStatus) (m : Message) → is_ready s ≡ true → IsPermitted s m
  IsPermitted-ready handshaking m e = cc
  IsPermitted-ready ready m e = tt
  IsPermitted-ready unhealthy m e = tt
  IsPermitted-ready disconnected m e = tt

  pub ready_write-IsLogged :
      (c : Connection f L) (m : Message)
      → is_ready c.status ≡ true
      → IsLogged c
      → Keeps (write_message f L c m)
  ready_write-IsLogged c m e h = write_message-IsLogged c m (IsPermitted-ready c.status m e) h

  IsPermitted-ended :
      (s : BridgeConnectionStatus) {log : List (List ℕ)} {n : ℕ} (s' : BridgeConnectionStatus)
      → is_handshaking s' ≡ false
      → IsSent (IsPermitted s) log n
      → IsSent (IsPermitted s') log n
  IsPermitted-ended s handshaking e h = cc
  IsPermitted-ended s ready e h = IsSent-any h
  IsPermitted-ended s unhealthy e h = IsSent-any h
  IsPermitted-ended s disconnected e h = IsSent-any h

  pong-IsPermitted : (s : BridgeConnectionStatus) (nonce : ℕ) → IsPermitted s (pong nonce)
  pong-IsPermitted handshaking nonce = tt
  pong-IsPermitted ready nonce = tt
  pong-IsPermitted unhealthy nonce = tt
  pong-IsPermitted disconnected nonce = tt

  MayWrite-IsPermitted : (s : BridgeConnectionStatus) {m : Message} → MayWrite s m → IsPermitted s m
  MayWrite-IsPermitted s (pong_may {nonce}) = pong-IsPermitted s nonce
  MayWrite-IsPermitted s (ready_may {m} e) = IsPermitted-ready s m e

  abbrev Logged : Property f L
  Logged s t n config started queued = IsSent (IsPermitted s) t.1 n

  Leaves-any : (x : Outcome f L) → Keeps x → Leaves f L Logged Logged x
  Leaves-any (c, ok _) h = h
  Leaves-any (c, err e) h = h

  any-Leaves : (x : Outcome f L) → Leaves f L Logged Logged x → Keeps x
  any-Leaves (c, ok _) h = h
  any-Leaves (c, err e) h = h

  logged-IsStable : IsStable f L Logged Logged
  logged-IsStable = record {
    becomes_ready = λ c h. IsSent-any h;
    fails = λ c s e h. IsPermitted-ended c.status s e h;
    refuses = λ c h. h;
    has_read = λ c h. h;
    wrote = λ c m w h.
        Leaves-any (write_message f L c m)
          (write_message-IsLogged c m (MayWrite-IsPermitted c.status w) h);
  }

  pub poll-IsLogged : (c : Connection f L) (now : ℕ) → IsLogged c → Keeps (poll f L c now)
  poll-IsLogged c now h =
      any-Leaves (poll f L c now) (poll-Leaves f L Logged Logged logged-IsStable (λ c h. h) c now h)
