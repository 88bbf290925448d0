-- ===== src/Transport/Firmware/Reported.antt =====
-- crates/bridge/bridge-output/src/bridge_transport.rs: what `parse_device_info` can report.
use steam_controller_bridge.Common.{
  ℕ, zero, suc, ◌-◌, ◌≤◌, ◌≡◌, refl, ◌∙◌, ap, arith, true, false, not, if-cases, if-ind, not-false,
  and_left_true, and_right_true, if◌then◌else◌, ◌==◌, ltb, leb, leb→le, min, List, [], ◌∷◌, ◌++◌,
  length, take, drop, replicate, length-append, length-take, length-drop, take-append_exact, Result,
  ok, err,
}
use steam_controller_bridge.Protocol.Message.{install_source_try_from}
use steam_controller_bridge.Protocol.Parse.{byte_at}
use steam_controller_bridge.Transport.Firmware.{
  device_info_format, device_info_extension_size, device_info_recorded_size, firmware_target_tlv,
  max_firmware_target_id_len, FirmwareTargetId, is_slug, new_target_id, as_str, FirmwareTarget,
  unreported, malformed, reported, FirmwareInstallState, invalid_install, recorded, FirmwareInfo,
  target_of, tlv_round, tlv_loop, parse_firmware_target, is_valid_receipt, u64_at, recorded_state,
  install_state_of, parse_device_info,
}

-- A target that is reported is a slug in an array of 64 bytes.
abbrev pub IsTarget : FirmwareTarget → Type 0
IsTarget (reported id) =
    (is_slug (as_str id) ≡ true) × (length id.bytes ≡ max_firmware_target_id_len)
IsTarget _ = Unit

-- A receipt that is recorded has an identifier of 16 bytes, not all zero, and a time that is not
-- zero and that a signed 64-bit number shows.
abbrev pub IsInstallState : FirmwareInstallState → Type 0
IsInstallState (recorded r) =
    (length r.install_id ≡ 16) × (is_valid_receipt r.installed_at r.install_id ≡ true)
IsInstallState _ = Unit

length-replicate : (n x : ℕ) → length (replicate n x) ≡ n
length-replicate zero x = refl
length-replicate (suc n) x = let h = length-replicate n x in omega arith

new_target_id-IsTarget : (value : List ℕ) → IsTarget (target_of (new_target_id value))
unfolding new_target_id as_str
new_target_id-IsTarget value =
    if-cases (λ (r : Result (Unit {0}) FirmwareTargetId). IsTarget (target_of r))
      (not (is_slug value)) (λ e. tt) (λ e. (slug e, sized (slug_length e)))
  where
    rest : List ℕ
    rest = replicate (max_firmware_target_id_len - length value) 0

    slug : not (is_slug value) ≡ false → is_slug (take (length value) (value ++ rest)) ≡ true
    slug e = ap is_slug (take-append_exact value rest) ∙ not-false (is_slug value) e

    slug_length : not (is_slug value) ≡ false → length value ≤ max_firmware_target_id_len
    slug_length e = leb→le (length value) max_firmware_target_id_len (
        and_left_true _ _
          (and_right_true (not (length value == 0)) _ (not-false (is_slug value) e)))

    sized :
        length value ≤ max_firmware_target_id_len
        → length (value ++ rest) ≡ max_firmware_target_id_len
    sized h =
        let joined = length-append value rest in
        let filled = length-replicate (max_firmware_target_id_len - length value) 0 in omega arith

tlv_round-IsTarget :
    (target : FirmwareTarget) (tag : ℕ) (value : List ℕ)
    → IsTarget target
    → IsTarget (tlv_round target tag value)
unfolding tlv_round
tlv_round-IsTarget unreported tag value h =
    if-ind IsTarget (not (tag == firmware_target_tlv)) h (new_target_id-IsTarget value)
tlv_round-IsTarget malformed tag value h = if-ind IsTarget (not (tag == firmware_target_tlv)) h tt
tlv_round-IsTarget (reported id) tag value h =
    if-ind IsTarget (not (tag == firmware_target_tlv)) h tt

tlv_loop-IsTarget :
    (fuel : ℕ) (target : FirmwareTarget) (extensions : List ℕ)
    → IsTarget target
    → IsTarget (tlv_loop fuel target extensions)
unfolding tlv_loop
tlv_loop-IsTarget fuel malformed extensions h = tt
tlv_loop-IsTarget fuel unreported [] h = tt
tlv_loop-IsTarget fuel (reported id) [] h = h
tlv_loop-IsTarget fuel unreported (tag ∷ []) h = tt
tlv_loop-IsTarget fuel (reported id) (tag ∷ []) h = tt
tlv_loop-IsTarget zero unreported (tag ∷ size ∷ rest) h = tt
tlv_loop-IsTarget zero (reported id) (tag ∷ size ∷ rest) h = tt
tlv_loop-IsTarget (suc fuel) unreported (tag ∷ size ∷ rest) h =
    if-ind IsTarget (ltb (length rest) size) tt (
      tlv_loop-IsTarget fuel (tlv_round unreported tag (take size rest)) (drop size rest)
        (tlv_round-IsTarget unreported tag (take size rest) h))
tlv_loop-IsTarget (suc fuel) (reported id) (tag ∷ size ∷ rest) h =
    if-ind IsTarget (ltb (length rest) size) tt (
      tlv_loop-IsTarget fuel (tlv_round (reported id) tag (take size rest)) (drop size rest)
        (tlv_round-IsTarget (reported id) tag (take size rest) h))

recorded_state-IsInstallState :
    (payload : List ℕ) → 33 ≤ length payload → IsInstallState (recorded_state payload)
unfolding recorded_state
recorded_state-IsInstallState payload h =
    elim (install_source_try_from (byte_at payload 32))
      as (λ r. IsInstallState (elim r [
        | ok source ↦
            if is_valid_receipt (u64_at payload 8) (take 16 (drop 16 payload))
            then recorded (record {
              installed_at = u64_at payload 8;
              install_id = take 16 (drop 16 payload);
              source = source;
            })
            else invalid_install
        | err _ ↦ invalid_install
      ])) [
        | ok source ↦
            if-cases IsInstallState
              (is_valid_receipt (u64_at payload 8) (take 16 (drop 16 payload))) (λ e. (sized, e))
              (λ e. tt)
        | err e ↦ tt
      ]
  where
    enough : (n m : ℕ) → m ≡ n - 16 → 33 ≤ n → min 16 m ≡ 16
    enough n m e h = omega arith

    sized : length (take 16 (drop 16 payload)) ≡ 16
    sized =
        let t = length-take 16 (drop 16 payload) in
        let d = length-drop 16 payload in t ∙ enough (length payload) (length (drop 16 payload)) d h

install_state_of-IsInstallState : (payload : List ℕ) → IsInstallState (install_state_of payload).0
unfolding install_state_of
install_state_of-IsInstallState payload =
    let P = λ (x : FirmwareInstallState × ℕ). IsInstallState (x.0) in
    let state = byte_at payload 7 in
    if-ind P (state == 0) tt (
      if-ind P (state == 1) tt (
        if-ind P (state == 2)
          (if-cases P (leb device_info_recorded_size (length payload))
            (λ e.
              recorded_state-IsInstallState payload
                (leb→le device_info_recorded_size (length payload) e))
            (λ e. tt))
          tt))

-- Whatever bytes a device information report has: a target that it reports is a slug in an array
-- of 64 bytes, and a receipt that it records has an identifier of 16 bytes that are not all 0 and
-- a time from 1 to 2 ^ 63 - 1.
pub parse_device_info-IsTarget :
    (payload : List ℕ)
    → IsTarget (parse_device_info payload).target
      × IsInstallState (parse_device_info payload).install_state
unfolding parse_device_info parse_firmware_target
parse_device_info-IsTarget payload =
    let P = λ (i : FirmwareInfo). IsTarget i.target × IsInstallState i.install_state in
    let format = byte_at payload 0 in
    if-ind P (length payload == 0) (tt, tt)
      (if-ind P (not (format == device_info_format)) (tt, tt)
        (if-ind P (length payload == 3) (tt, tt)
          (if-ind P (ltb (length payload) device_info_extension_size) (tt, tt)
            (tlv_loop-IsTarget _ unreported _ tt, install_state_of-IsInstallState payload))))
