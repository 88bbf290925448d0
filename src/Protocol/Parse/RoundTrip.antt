-- ===== src/Protocol/Parse/RoundTrip.antt =====
-- crates/bridge/bridge-protocol/src/lib.rs: `parse_message` on what `encode_message` writes.
use steam_controller_bridge.Common.{
  ℕ, suc, le→ltb_false, ◌+◌, ◌*◌, ◌/◌, ◌%◌, ◌^◌, ◌<◌, ◌≤◌, ◌≡◌, ◌≢◌, refl, ap, subst, false, arith,
  List, [], ◌∷◌, ◌++◌, length, All, ok, err, take, take-append_exact, get_or, get_or-append_exact,
  length-append,
}
use steam_controller_bridge.Common.Int.{
  ℤ, pos, negsuc, IsI16, i16_bits, i16_of_bits, i16_of_bits-i16_bits, i16_bits-lt,
}
use steam_controller_bridge.Common.Bytes.{
  IsByte, u64_from_le, u16_from_le-u16_le_bytes, u32_from_le-u32_le_bytes,
}
use steam_controller_bridge.Gamepad.Hat.{HatState, hat_try_from_ok}
use steam_controller_bridge.Protocol.Message.{
  Message, hello, hello_response, gamepad_state, neutral, ping, pong, device_info, rumble,
  enter_uf2_bootloader, uf2_bootloader_ready, record_install_receipt, install_receipt_recorded,
  error, unknown, message_type_try_from, InstallReceipt, WireGamepadState, InstallSource,
  app_center, first_observed, source_byte, install_source_try_from,
}
use steam_controller_bridge.Protocol.Encode.{encode_message, encode_gamepad, encode_install_receipt}
use steam_controller_bridge.Protocol.Parse.{
  parse_message, parse_gamepad, parse_install_receipt, wire_hat, wire_fields, is_i16_min,
  parse_known,
}

-- The values that the fields' Rust types hold.
abbrev IsStick : ℤ → Type 0
IsStick z = IsI16 z × (z ≢ negsuc 0x7fff)

pub record IsValidWire (s : WireGamepadState) : Type 0 where
  pub buttons : s.buttons < 2 ^ 32
  pub hat : s.hat ≤ 8
  pub flags : s.flags < 256
  pub left_x : IsStick s.left_x
  pub left_y : IsStick s.left_y
  pub right_x : IsStick s.right_x
  pub right_y : IsStick s.right_y
  pub left_trigger : s.left_trigger < 65536
  pub right_trigger : s.right_trigger < 65536

abbrev pub IsReceipt : InstallReceipt → Type 0
IsReceipt r = (r.installed_at < 2 ^ 64) × (length r.install_id ≡ 16) × All IsByte r.install_id

-- A message that the wire can carry: each field in the range of its type, a gamepad state that
-- passes the checks, and an unknown type that is none of the known ones.
abbrev pub IsValidMessage : Message → Type 0
IsValidMessage (hello lo hi) = IsByte lo × IsByte hi
IsValidMessage (hello_response version) = IsByte version
IsValidMessage (gamepad_state state) = IsValidWire state
IsValidMessage neutral = Unit
IsValidMessage (ping nonce) = nonce < 2 ^ 32
IsValidMessage (pong nonce) = nonce < 2 ^ 32
IsValidMessage (device_info info) = All IsByte info
IsValidMessage (rumble low high) = (low < 65536) × (high < 65536)
IsValidMessage (enter_uf2_bootloader id) = id < 2 ^ 32
IsValidMessage (uf2_bootloader_ready id) = id < 2 ^ 32
IsValidMessage (record_install_receipt id receipt) = (id < 2 ^ 32) × IsReceipt receipt
IsValidMessage (install_receipt_recorded id receipt) = (id < 2 ^ 32) × IsReceipt receipt
IsValidMessage (error code detail) = (code < 65536) × All IsByte detail
IsValidMessage (unknown message_type payload) =
    IsByte message_type × (message_type_try_from message_type ≡ err tt) × All IsByte payload

u16_back : (z : ℤ) → IsI16 z → i16_of_bits (i16_bits z % 256 + 256 * (i16_bits z / 256 % 256)) ≡ z
u16_back z h =
    rw (u16_from_le-u16_le_bytes (i16_bits z) (i16_bits-lt z h)) (i16_of_bits-i16_bits z h)

IsStick-min : (z : ℤ) → IsStick z → is_i16_min z ≡ false
IsStick-min (pos n) h = refl
IsStick-min (negsuc n) h = ground (arith, λ (e : n ≡ 0x7fff). h.1 (ap negsuc e))

wire_hat_ok : (s : WireGamepadState) → IsValidWire s → (hat : HatState) × (wire_hat s ≡ ok hat)
unfolding wire_hat
wire_hat_ok s v =
    let (hat, e) = hat_try_from_ok s.hat v.hat in
    (
      hat,
      rw (
        IsStick-min s.left_x v.left_x,
        IsStick-min s.left_y v.left_y,
        IsStick-min s.right_x v.right_x,
        IsStick-min s.right_y v.right_y,
        e,
      ),
    )

wire_fields-encode_gamepad :
    (s : WireGamepadState) → IsValidWire s → wire_fields (encode_gamepad s) ≡ s
unfolding wire_fields encode_gamepad
wire_fields-encode_gamepad s v = λ i. record {
  buttons = u32_from_le-u32_le_bytes s.buttons v.buttons i;
  hat = s.hat;
  flags = s.flags;
  left_x = u16_back s.left_x v.left_x.0 i;
  left_y = u16_back s.left_y v.left_y.0 i;
  right_x = u16_back s.right_x v.right_x.0 i;
  right_y = u16_back s.right_y v.right_y.0 i;
  left_trigger = u16_from_le-u16_le_bytes s.left_trigger v.left_trigger i;
  right_trigger = u16_from_le-u16_le_bytes s.right_trigger v.right_trigger i;
}

parse_gamepad-encode_gamepad :
    (s : WireGamepadState) → IsValidWire s → parse_gamepad (encode_gamepad s) ≡ ok s
parse_gamepad-encode_gamepad s v =
    unfold parse_gamepad in rw (wire_fields-encode_gamepad s v, (wire_hat_ok s v).1)

-- The sixteen bytes of the identifier and the byte behind them.
module _ (xs : List ℕ) (b : ℕ) (sixteen : length xs ≡ 16) where
  take_id : take 16 (xs ++ (b ∷ [])) ≡ xs
  take_id = subst (λ n. take n (xs ++ (b ∷ [])) ≡ xs) sixteen (take-append_exact xs (b ∷ []))

  byte_after_id : get_or (xs ++ (b ∷ [])) 16 0 ≡ b
  byte_after_id =
      subst (λ n. get_or (xs ++ (b ∷ [])) n 0 ≡ b) sixteen (get_or-append_exact xs [] b 0)

  length_id : length (xs ++ (b ∷ [])) ≡ 17
  length_id = omega (arith, length-append xs (b ∷ []))

install_source_back : (s : InstallSource) → install_source_try_from (source_byte s) ≡ ok s
unfolding install_source_try_from
install_source_back app_center = refl
install_source_back first_observed = refl

u64_back :
    (n : ℕ)
    → n < 2 ^ 64
    → let lo = n % 2 ^ 32 in
      let hi = n / 2 ^ 32 in
      u64_from_le
        (lo % 256)
        (lo / 256 % 256)
        (lo / 65536 % 256)
        (lo / 16777216 % 256)
        (hi % 256)
        (hi / 256 % 256)
        (hi / 65536 % 256)
        (hi / 16777216 % 256)
      ≡ n
u64_back n h = omega (
  arith,
  u32_from_le-u32_le_bytes (n % 2 ^ 32) (omega arith),
  u32_from_le-u32_le_bytes (n / 2 ^ 32) (omega arith),
)

parse_install_receipt-encode :
    (id : ℕ) (r : InstallReceipt)
    → id < 2 ^ 32
    → IsReceipt r
    → parse_install_receipt (encode_install_receipt id r) ≡ ok (id, r)
unfolding parse_install_receipt encode_install_receipt
parse_install_receipt-encode id r h v =
    let b = source_byte r.source in
    rw
      (
        length_id r.install_id b v.1,
        byte_after_id r.install_id b v.1,
        install_source_back r.source,
        take_id r.install_id b v.1,
      )
      λ i. ok (
        u32_from_le-u32_le_bytes id h i,
        record {
          installed_at = u64_back r.installed_at v.0 i;
          install_id = r.install_id;
          source = r.source;
        },
      )

-- For a message whose fields are in their ranges, whose gamepad state passes the wire's checks and
-- whose unknown type is none of the known ones, `parse_message` on the type and payload of
-- `encode_message` returns the message.
pub parse_message-encode_message :
    (m : Message)
    → IsValidMessage m
    → parse_message (encode_message m).0 (encode_message m).1 ≡ ok m
unfolding parse_message encode_message message_type_try_from parse_known
parse_message-encode_message (hello lo hi) v = refl
parse_message-encode_message (hello_response version) v = refl
parse_message-encode_message (gamepad_state state) v = rw (parse_gamepad-encode_gamepad state v)
parse_message-encode_message neutral v = refl
parse_message-encode_message (ping nonce) v = rw (u32_from_le-u32_le_bytes nonce v)
parse_message-encode_message (pong nonce) v = rw (u32_from_le-u32_le_bytes nonce v)
parse_message-encode_message (device_info info) v = refl
parse_message-encode_message (rumble low high) v =
    rw (u16_from_le-u16_le_bytes low v.0, u16_from_le-u16_le_bytes high v.1)
parse_message-encode_message (enter_uf2_bootloader id) v = rw (u32_from_le-u32_le_bytes id v)
parse_message-encode_message (uf2_bootloader_ready id) v = rw (u32_from_le-u32_le_bytes id v)
parse_message-encode_message (record_install_receipt id receipt) v =
    rw (parse_install_receipt-encode id receipt v.0 v.1)
parse_message-encode_message (install_receipt_recorded id receipt) v =
    rw (parse_install_receipt-encode id receipt v.0 v.1)
parse_message-encode_message (error code detail) v =
    rw (le→ltb_false (suc (suc (length detail))) 2 (omega arith), u16_from_le-u16_le_bytes code v.0)
parse_message-encode_message (unknown message_type payload) v = rw (v.1, parse_message)
