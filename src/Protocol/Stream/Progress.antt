-- ===== src/Protocol/Stream/Progress.antt =====
-- crates/bridge/bridge-protocol/src/lib.rs: the rounds of `StreamDecoder::push` and its buffer.
use steam_controller_bridge.Common.{
  ℕ, zero, suc, ◌+◌, ◌≤◌, ◌<◌, ◌≡◌, refl, arith, List, [], ◌∷◌, ◌++◌, length, drop, length-drop,
  Option, none, some, inl, inr, Option-cases,
}
use mathlib.Core.Option
use steam_controller_bridge.Protocol.Parse.{u16_at}
use steam_controller_bridge.Protocol.Stream.{
  FrameResult, magic_position, keep_last, Round, stop, emit, frame_round, round, decode_loop, push,
}

-- The length that a round leaves, if it goes on, against the length `n` that it found.
abbrev Shrinks : ℕ → Round → Type 0
Shrinks n (stop buffer) = length buffer ≤ 265
Shrinks n (emit result buffer) = length buffer < n

frame_round-Shrinks : (b : List ℕ) → Shrinks (length b) (frame_round b)
unfolding frame_round
frame_round-Shrinks b =
    ground
      (arith, length-drop 1 b, length-drop (10 + u16_at b 4) b, length-drop (8 + u16_at b 4 + 2) b)

keep_last_short : (b : List ℕ) → length (keep_last b) ≤ 1
unfolding keep_last
keep_last_short [] = omega arith
keep_last_short (x ∷ []) = ground arith
keep_last_short (x ∷ y ∷ rest) = keep_last_short (y ∷ rest)

Shrinks-le : (m n : ℕ) (r : Round) → m ≤ n → Shrinks m r → Shrinks n r
Shrinks-le m n (stop buffer) h s = s
Shrinks-le m n (emit result buffer) h s = omega arith

-- One equation for each way that a round and the loop can go.
pub round_no_magic : (b : List ℕ) → magic_position b ≡ none → round b ≡ stop (keep_last b)
unfolding round
round_no_magic b e = rw (e, round)

pub round_magic :
    (b : List ℕ) {i : ℕ} → magic_position b ≡ some i → round b ≡ frame_round (drop i b)
unfolding round
round_magic b e = rw (e, round)

pub decode_loop_stop :
    (fuel : ℕ) (b : List ℕ) {b' : List ℕ}
    → round b ≡ stop b'
    → decode_loop (suc fuel) b ≡ some ([], b')
unfolding decode_loop
decode_loop_stop fuel b e = rw (e, decode_loop)

abbrev pub with_first :
    FrameResult → Option (List FrameResult × List ℕ) → Option (List FrameResult × List ℕ)
with_first r = Option.map (λ (output, left). (r ∷ output, left))

pub decode_loop_emit :
    (fuel : ℕ) (b : List ℕ) {b' : List ℕ} {r : FrameResult}
    → round b ≡ emit r b'
    → decode_loop (suc fuel) b ≡ with_first r (decode_loop fuel b')
unfolding decode_loop
decode_loop_emit fuel b e = rw (e, decode_loop)

round-Shrinks : (b : List ℕ) → Shrinks (length b) (round b)
round-Shrinks b = elim (Option-cases (magic_position b)) [
  | inl e ↦ rw (round_no_magic b e) (omega (arith, keep_last_short b))
  | inr (i, e) ↦ rw (round_magic b e) (
      Shrinks-le (length (drop i b)) (length b) _ (omega (arith, length-drop i b))
        (frame_round-Shrinks (drop i b)))
]

pub round_stop-le : (b b' : List ℕ) → round b ≡ stop b' → length b' ≤ 265
round_stop-le b b' e = rw e at (round-Shrinks b)

pub round_emit-lt : (b b' : List ℕ) {r : FrameResult} → round b ≡ emit r b' → length b' < length b
round_emit-lt b b' e = rw e at (round-Shrinks b)

-- Every buffer that `push` leaves is shorter than the longest frame.
abbrev pub IsDecoded : Option (List FrameResult × List ℕ) → Type 0
IsDecoded none = ⊥
IsDecoded (some (output, left)) = length left ≤ 265

IsDecoded-map :
    (r : FrameResult) (o : Option (List FrameResult × List ℕ))
    → IsDecoded o
    → IsDecoded (with_first r o)
IsDecoded-map r none h = h
IsDecoded-map r (some (output, left)) h = h

pub decode_loop-IsDecoded :
    (fuel : ℕ) (b : List ℕ) → length b < fuel → IsDecoded (decode_loop fuel b)
decode_loop-IsDecoded zero b h = absurd (omega arith)
decode_loop-IsDecoded (suc fuel) b h = by_round (round b) refl (decode_loop-IsDecoded fuel)
  where
    by_round :
        (r : Round)
        → round b ≡ r
        → ((b' : List ℕ) → length b' < fuel → IsDecoded (decode_loop fuel b'))
        → IsDecoded (decode_loop (suc fuel) b)
    by_round (stop b') e ih = rw (decode_loop_stop fuel b e) (round_stop-le b b' e)
    by_round (emit r b') e ih =
        rw (decode_loop_emit fuel b e)
          (IsDecoded-map r _ (ih b' (omega (arith, round_emit-lt b b' e))))

-- `push` ends on every buffer and every input, its fuel being enough, and leaves at most 265 bytes
-- for the next call.
pub push-IsDecoded : (buffer bytes : List ℕ) → IsDecoded (push buffer bytes)
unfolding push
push-IsDecoded buffer bytes = decode_loop-IsDecoded _ (buffer ++ bytes) (omega arith)
