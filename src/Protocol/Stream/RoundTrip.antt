-- ===== src/Protocol/Stream/RoundTrip.antt =====
-- crates/bridge/bridge-protocol/src/lib.rs: `StreamDecoder::push` on what `Frame::encode` writes.
use steam_controller_bridge.Common.{
  ℕ, suc, ◌+◌, ◌-◌, ◌/◌, ◌%◌, ◌≤◌, ◌<◌, ◌≡◌, refl, sym, ap, subst, ◌∙◌, arith, List, [], ◌∷◌, ◌++◌,
  length, take, drop, get_or, take-append_exact, drop-append_exact, get_or-append_exact,
  length-append, some, Result, ok, ◌>>=◌, >>=-eq-ok, All,
}
use steam_controller_bridge.Common.Bytes.{u16_le_bytes, u16_from_le-u16_le_bytes}
use steam_controller_bridge.Protocol.Message.{Message, Frame, new_frame, ProtocolError}
use steam_controller_bridge.Protocol.Encode.{encode_message, encode, crc16_ccitt_false, frame_body}
use steam_controller_bridge.Protocol.Encode.Crc.{crc16_ccitt_false-lt}
use steam_controller_bridge.Protocol.Parse.{byte_at, u16_at, parse_message}
use steam_controller_bridge.Protocol.Parse.RoundTrip.{IsValidMessage, parse_message-encode_message}
use steam_controller_bridge.Protocol.Stream.{
  FrameResult, magic_position, emit, frame_round, round, decode_loop, push,
}
use steam_controller_bridge.Protocol.Stream.Progress.{
  round_magic, decode_loop_emit, with_first, round_emit-lt,
}
use steam_controller_bridge.Protocol.Stream.Chunks.{decode_loop-enough}

frame_round_accepts :
    (d : List ℕ) (n sequence : ℕ) (m : Message)
    → let candidate = take (8 + n + 2) d in
      u16_at d 4 ≡ n
      → n ≤ 256
      → 8 + n + 2 ≤ length d
      → u16_at candidate (8 + n + 2 - 2) ≡ crc16_ccitt_false (take (8 + n + 2 - 2) candidate)
      → byte_at candidate 2 ≡ 1
      → parse_message (byte_at candidate 3) (take n (drop 8 candidate)) ≡ ok m
      → u16_at candidate 6 ≡ sequence
      → frame_round d ≡ emit (ok (new_frame sequence m)) (drop (8 + n + 2) d)
unfolding frame_round
frame_round_accepts d n sequence m len small whole sum version parsed seq = ground arith

take_front : (n : ℕ) (xs ys : List ℕ) → length xs ≡ n → take n (xs ++ ys) ≡ xs
take_front n xs ys e = subst (λ k. take k (xs ++ ys) ≡ xs) e (take-append_exact xs ys)

drop_front : (n : ℕ) (xs ys : List ℕ) → length xs ≡ n → drop n (xs ++ ys) ≡ ys
drop_front n xs ys e = subst (λ k. drop k (xs ++ ys) ≡ ys) e (drop-append_exact xs ys)

-- The two bytes behind a list.
get_or_next : (xs : List ℕ) (a b : ℕ) → get_or (xs ++ (a ∷ b ∷ [])) (length xs + 1) 0 ≡ b
get_or_next [] a b = refl
get_or_next (x ∷ xs) a b =
    let e : suc (length xs) + 1 ≡ suc (length xs + 1) = omega arith in rw e (get_or_next xs a b)

u16_behind :
    (xs : List ℕ) (c n : ℕ) → length xs ≡ n → c < 65536 → u16_at (xs ++ u16_le_bytes c) n ≡ c
u16_behind xs c n e h =
    subst (λ k. u16_at (xs ++ u16_le_bytes c) k ≡ c) e
      (rw
        (
          get_or-append_exact xs (c / 256 % 256 ∷ []) (c % 256) 0,
          get_or_next xs (c % 256) (c / 256 % 256),
        )
        (u16_from_le-u16_le_bytes c h))

abbrev frame_bytes : ℕ → ℕ → List ℕ → List ℕ
frame_bytes message_type sequence payload =
    let body = frame_body 1 message_type sequence payload in
    body ++ u16_le_bytes (crc16_ccitt_false body)

module _ (message_type sequence : ℕ) (payload rest : List ℕ) (m : Message) where
  abbrev body : List ℕ
  body = frame_body 1 message_type sequence payload

  abbrev whole : List ℕ
  whole = frame_bytes message_type sequence payload

  length-whole : length whole ≡ 8 + length payload + 2
  length-whole = omega (arith, length-append payload (u16_le_bytes (crc16_ccitt_false body)))

  candidate_lem : take (8 + length payload + 2) (whole ++ rest) ≡ whole
  candidate_lem = take_front _ whole rest length-whole

  body_lem : take (8 + length payload + 2 - 2) whole ≡ body
  body_lem = take_front _ body _ (omega arith)

  -- A well-formed frame at the front of the buffer is taken whole.
  frame_round_body :
      length payload ≤ 256
      → sequence < 65536
      → parse_message message_type payload ≡ ok m
      → frame_round (whole ++ rest) ≡ emit (ok (new_frame sequence m)) rest
  frame_round_body small seq parsed =
      frame_round_accepts (whole ++ rest) (length payload) sequence m
        (u16_from_le-u16_le_bytes (length payload) (omega arith)) small
        (omega (arith, length-whole, length-append whole rest))
        (rw (candidate_lem, body_lem)
          (u16_behind body (crc16_ccitt_false body) _ (omega arith) (crc16_ccitt_false-lt body)))
        (rw candidate_lem refl)
        (rw
          (
            candidate_lem,
            take_front (length payload) payload (u16_le_bytes (crc16_ccitt_false body)) refl,
          )
          parsed)
        (rw candidate_lem (u16_from_le-u16_le_bytes sequence seq))
      ∙ ap (emit (ok (new_frame sequence m))) (drop_front _ whole rest length-whole)

-- What a successful `encode` says of the frame and of its bytes.
encode_ok :
    (f : Frame) {bytes : List ℕ}
    → encode f ≡ ok bytes
    → (f.version ≡ 1)
      × (length (encode_message f.message).1 ≤ 256)
      × (frame_bytes (encode_message f.message).0 f.sequence (encode_message f.message).1 ≡ bytes)
unfolding encode
encode_ok f e = (ground arith, ground arith, ground arith)

round-encode :
    (f : Frame) (bytes rest : List ℕ)
    → IsValidMessage f.message
    → f.sequence < 65536
    → encode f ≡ ok bytes
    → round (bytes ++ rest) ≡ emit (ok f) rest
round-encode f bytes rest valid seq e =
    let (version, small, same) = encode_ok f e in
    let (message_type, payload) = encode_message f.message in
    ap (λ (t : List ℕ). round (t ++ rest)) (sym same)
    ∙ round_magic (frame_bytes message_type f.sequence payload ++ rest) {i = 0}
        (unfold magic_position in refl)
    ∙ frame_round_body message_type f.sequence payload rest f.message small seq
        (parse_message-encode_message f.message valid)
    ∙ ap (λ (v : ℕ). emit (ok (record f { version = v })) rest) (sym version)

-- A frame that `encode` accepts is read back first, as it was, and what follows it is read as
-- if it stood alone.
pub push-encode :
    (f : Frame) (bytes rest : List ℕ)
    → IsValidMessage f.message
    → f.sequence < 65536
    → encode f ≡ ok bytes
    → push [] (bytes ++ rest) ≡ with_first (ok f) (push [] rest)
unfolding push
push-encode f bytes rest valid seq e =
    let r = round-encode f bytes rest valid seq e in
    decode_loop_emit (length (bytes ++ rest)) (bytes ++ rest) r
    ∙ ap (with_first (ok f)) (
        decode_loop-enough (length (bytes ++ rest)) (suc (length rest)) rest
          (round_emit-lt (bytes ++ rest) rest r) (omega arith))

-- A list of frames, encoded one after the other.
unfoldable pub encode_all : List Frame → Result ProtocolError (List ℕ)
encode_all [] = ok []
encode_all (f ∷ fs) = do bytes ← encode f; rest ← encode_all fs; ok (bytes ++ rest)

abbrev pub IsSendable : Frame → Type 0
IsSendable f = IsValidMessage f.message × (f.sequence < 65536)

unfoldable pub received : List Frame → List FrameResult
received [] = []
received (f ∷ fs) = ok f ∷ received fs

encode_all_nil : {bytes : List ℕ} → encode_all [] ≡ ok bytes → [] ≡ bytes
unfolding encode_all
encode_all_nil e = cc

encode_all_cons :
    (f : Frame) (fs : List Frame) {bytes : List ℕ}
    → encode_all (f ∷ fs) ≡ ok bytes
    → (front : List ℕ) × (rest : List ℕ) × (encode f ≡ ok front)
      × (encode_all fs ≡ ok rest)
      × (front ++ rest ≡ bytes)
unfolding encode_all
encode_all_cons f fs e =
    let (front, encoded, e') = >>=-eq-ok (encode f) _ e in
    let (rest, later, e'') = >>=-eq-ok (encode_all fs) _ e' in (front, rest, encoded, later, cc)

-- Where every frame of a list has a sequence number below 65536 and a message whose fields are in
-- their ranges, and `encode` accepts every frame, a fresh decoder that is given the encodings one
-- after the other returns exactly these frames, in order and without an error, and keeps nothing
-- in its buffer.
pub push-encode_all :
    (fs : List Frame) (bytes : List ℕ)
    → All IsSendable fs
    → encode_all fs ≡ ok bytes
    → push [] bytes ≡ some (received fs, [])
push-encode_all [] bytes h e =
    let empty : [] ≡ bytes = encode_all_nil e in
    ap (push []) (sym empty) ∙ (unfold push decode_loop round received in refl)
push-encode_all (f ∷ fs) bytes (h, hs) e =
    let (front, rest, encoded, later, joined) = encode_all_cons f fs e in
    ap (push []) (sym joined)
    ∙ push-encode f front rest h.0 h.1 encoded
    ∙ ap (with_first (ok f)) (push-encode_all fs rest hs later)
    ∙ (unfold received in refl)
