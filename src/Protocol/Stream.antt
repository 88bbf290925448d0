-- ===== src/Protocol/Stream.antt =====
-- crates/bridge/bridge-protocol/src/lib.rs: `StreamDecoder`.
pub mod Progress
pub mod Chunks
pub mod RoundTrip
use steam_controller_bridge.Common.{
  ℕ, zero, suc, ◌+◌, ◌-◌, ◌&&◌, if◌then◌else◌, ◌==◌, ltb, not, List, [], ◌∷◌, ◌++◌, length, take,
  drop, Result, ok, err, ◌>>=◌, Option, none, some,
}
use steam_controller_bridge.Protocol.Message.{
  Frame, ProtocolError, unsupported_version, payload_too_large, checksum_mismatch, protocol_version,
  header_size, checksum_size, max_payload_size, magic_0, magic_1,
}
use steam_controller_bridge.Protocol.Encode.{crc16_ccitt_false}
use steam_controller_bridge.Protocol.Parse.{byte_at, u16_at, parse_message}
use mathlib.Core.Option

abbrev pub FrameResult : Type 0
FrameResult = Result ProtocolError Frame

-- `buffer.windows(2).position(|w| w == MAGIC)`
unfoldable pub magic_position : List ℕ → Option ℕ
magic_position [] = none
magic_position (x ∷ []) = none
magic_position (x ∷ y ∷ rest) =
    let later = magic_position (y ∷ rest) in
    if x == magic_0 && y == magic_1 then some 0 else Option.map suc later

-- Without a magic pair only a last byte that may begin one is kept.
unfoldable pub keep_last : List ℕ → List ℕ
keep_last [] = []
keep_last (x ∷ []) = if x == magic_0 then x ∷ [] else []
keep_last (x ∷ y ∷ rest) = keep_last (y ∷ rest)

-- A round of the loop leaves it (`break`) or puts out a result and goes on.
pub data Round : Type 0 where
  stop : (buffer : List ℕ) → Round
  emit : FrameResult → (buffer : List ℕ) → Round

-- The round from the drain to the magic on. The buffer begins with the magic pair.
unfoldable pub frame_round : List ℕ → Round
frame_round buffer =
    let payload_len = u16_at buffer 4 in
    let frame_len = header_size + payload_len + checksum_size in
    let candidate = take frame_len buffer in
    let actual = u16_at candidate (frame_len - 2) in
    let expected = crc16_ccitt_false (take (frame_len - 2) candidate) in
    let version = byte_at candidate 2 in
    let sequence = u16_at candidate 6 in
    let parsed = parse_message (byte_at candidate 3) (take payload_len (drop 8 candidate)) in
    if ltb (length buffer) header_size
    then stop buffer
    else if ltb max_payload_size payload_len
    then emit (err (payload_too_large payload_len)) (drop 1 buffer)
    else if ltb (length buffer) frame_len
    then stop buffer
    else if not (actual == expected)
    then emit (err (checksum_mismatch expected actual)) (drop 1 buffer)
    else if not (version == protocol_version)
    then emit (err (unsupported_version version)) (drop frame_len buffer)
    else emit
        (parsed >>= λ message.
          ok (record { version = version; sequence = sequence; message = message }))
        (drop frame_len buffer)

unfoldable pub round : List ℕ → Round
unfolding magic_position keep_last frame_round
round buffer = elim (magic_position buffer) [
  | none ↦ stop (keep_last buffer)
  | some magic_at ↦ frame_round (drop magic_at buffer)
]

-- The loop on fuel: the results in order and the buffer left; `none` means that it ran out.
unfoldable pub decode_loop : ℕ → List ℕ → Option (List FrameResult × List ℕ)
decode_loop zero buffer = none
decode_loop (suc fuel) buffer = elim (round buffer) [
  | stop buffer' ↦ some ([], buffer')
  | emit result buffer' ↦
      Option.map (λ (output, left). (result ∷ output, left)) (decode_loop fuel buffer')
]

-- `StreamDecoder::push` on the decoder's buffer. A round that goes on drops a byte at least.
unfoldable pub push : List ℕ → List ℕ → Option (List FrameResult × List ℕ)
push buffer bytes = decode_loop (suc (length (buffer ++ bytes))) (buffer ++ bytes)

-- `StreamDecoder::new`
abbrev pub new_decoder : List ℕ
new_decoder = []
