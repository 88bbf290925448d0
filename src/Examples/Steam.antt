-- ===== src/Examples/Steam.antt =====
-- crates/controller/steam-controller-protocol/src/lib.rs: the theorems at concrete reports.
use steam_controller_bridge.Common.{
  ℕ, ◌≡◌, refl, arith, List, [], ◌∷◌, ◌++◌, replicate, length, get_or, some, ok, err,
}
use steam_controller_bridge.Steam.Report.{DecodedReport, controller_state, invalid_report_size}
use steam_controller_bridge.Steam.Decode.{decode, decode_known, decode_state}
use steam_controller_bridge.Steam.Decode.Laws.{
  HasAxes, decode-HasAxes, report_size, decode_ok, decode_accepts, refusal, decode_err,
}

abbrev full_left : List ℕ
full_left = 0x45 ∷ 1 ∷ replicate 8 0 ++ (0 ∷ 0x80 ∷ replicate 34 0)

full_left_decodes : decode 0x45 full_left ≡ ok (controller_state (decode_state full_left))
unfolding decode decode_known
full_left_decodes = refl

decode-HasAxes_example : HasAxes (decode_state full_left)
decode-HasAxes_example =
    decode-HasAxes 0x45 full_left (decode_state full_left) (omega arith) full_left_decodes

decode_ok_example : (get_or full_left 0 0 ≡ 0x45) × (report_size 0x45 ≡ some (length full_left))
decode_ok_example = decode_ok 0x45 full_left full_left_decodes

decode_accepts_example : (r : DecodedReport) × (decode 0x79 (0x79 ∷ 2 ∷ []) ≡ ok r)
unfolding report_size
decode_accepts_example = decode_accepts 0x79 (2 ∷ []) refl

short : decode 0x79 (0x79 ∷ []) ≡ err (invalid_report_size 0x79 2 1)
unfolding decode decode_known
short = refl

decode_err_example : invalid_report_size 0x79 2 1 ≡ refusal 0x79 (0x79 ∷ [])
decode_err_example = decode_err 0x79 (0x79 ∷ []) short
