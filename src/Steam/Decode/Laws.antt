-- ===== src/Steam/Decode/Laws.antt =====
-- crates/controller/steam-controller-protocol/src/lib.rs: when a report is accepted, and the
-- ranges of what is read from it.
use steam_controller_bridge.Common.{
  ℕ, zero, suc, Result-cases, inl, inr, ◌+◌, ◌≡◌, arith, if◌then◌else◌, ◌==◌, List, [], ◌∷◌, length,
  get_or, All, Option, none, some, ok, err,
}
use steam_controller_bridge.Common.Int.{ℤ, pos, negsuc, ◌≤ℤ◌}
use steam_controller_bridge.Common.Bytes.{IsByte}
use steam_controller_bridge.Steam.Report.{
  SteamControllerState, DecodedReport, DecodeError, controller_state, unknown_report_id,
  report_id_mismatch, invalid_report_size,
}
use steam_controller_bridge.Steam.Decode.{symmetric_i16, decode_state, decode_known, decode, first}

-- The fixed size of each kind of report.
unfoldable pub report_size : ℕ → Option ℕ
report_size id =
    if id == 0x40
    then some 6
    else if id == 0x41
    then some 9
    else if id == 0x42
    then some 54
    else if id == 0x43
    then some 15
    else if id == 0x44
    then some 6
    else if id == 0x45
    then some 46
    else if id == 0x79
    then some 2
    else if id == 0x7b
    then some 13
    else none

-- A report is accepted only if it begins with its identifier, the identifier is a known one, and
-- the report has the size of its kind.
pub decode_ok :
    (id : ℕ) (bytes : List ℕ) {r : DecodedReport}
    → decode id bytes ≡ ok r
    → (get_or bytes 0 0 ≡ id) × (report_size id ≡ some (length bytes))
unfolding decode decode_known report_size
decode_ok id [] e = cc
decode_ok id (byte ∷ rest) e = ground arith

decode-ne-err :
    (id : ℕ) (rest : List ℕ) {x : DecodeError}
    → report_size id ≡ some (length (id ∷ rest))
    → decode id (id ∷ rest) ≡ err x
    → ⊥
unfolding decode decode_known report_size
decode-ne-err id rest e p = ground arith

-- A report that begins with its identifier and has the size that the identifier demands is
-- accepted by `decode`.
pub decode_accepts :
    (id : ℕ) (rest : List ℕ)
    → report_size id ≡ some (length (id ∷ rest))
    → (r : DecodedReport) × (decode id (id ∷ rest) ≡ ok r)
decode_accepts id rest e = elim (Result-cases (decode id (id ∷ rest))) [
  | inl accepted ↦ accepted
  | inr (x, p) ↦ absurd (decode-ne-err id rest e p)
]

-- The error that a refused report gets: the identifier is looked at first, then its kind, and
-- the size last.
unfoldable pub refusal : ℕ → List ℕ → DecodeError
refusal id bytes = elim (first bytes) [
  | none ↦ report_id_mismatch id none
  | some byte ↦
      if byte == id
      then elim (report_size id) [
        | none ↦ unknown_report_id id
        | some size ↦ invalid_report_size id size (length bytes)
      ]
      else report_id_mismatch id (some byte)
]

-- If `decode` refuses a report, its error is: empty for no bytes; otherwise an identifier mismatch
-- if the first byte is not the identifier; otherwise a wrong size, with the size that the
-- identifier demands, if it is a known one; otherwise an unknown identifier.
pub decode_err :
    (id : ℕ) (bytes : List ℕ) {x : DecodeError} → decode id bytes ≡ err x → x ≡ refusal id bytes
unfolding decode decode_known report_size refusal
decode_err id [] e = cc
decode_err id (byte ∷ rest) e = ground arith

get_or-IsByte : (bytes : List ℕ) (i : ℕ) → All IsByte bytes → IsByte (get_or bytes i 0)
get_or-IsByte [] i h = omega arith
get_or-IsByte (b ∷ bytes) zero h = h.0
get_or-IsByte (b ∷ bytes) (suc i) h = get_or-IsByte bytes i h.1

-- No axis value is -32768, so negation cannot overflow.
abbrev pub IsAxis : ℤ → Type 0
IsAxis z = (negsuc 32766 ≤ℤ z) × (z ≤ℤ pos 32767)

symmetric_i16-IsAxis : (bytes : List ℕ) (i : ℕ) → All IsByte bytes → IsAxis (symmetric_i16 bytes i)
unfolding symmetric_i16
symmetric_i16-IsAxis bytes i h =
    ground (arith, get_or-IsByte bytes i h, get_or-IsByte bytes (i + 1) h)

pub record HasAxes (s : SteamControllerState) : Type 0 where
  pub left_stick_x : IsAxis s.left_stick_x
  pub left_stick_y : IsAxis s.left_stick_y
  pub right_stick_x : IsAxis s.right_stick_x
  pub right_stick_y : IsAxis s.right_stick_y
  pub left_pad_x : IsAxis s.left_pad_x
  pub left_pad_y : IsAxis s.left_pad_y
  pub right_pad_x : IsAxis s.right_pad_x
  pub right_pad_y : IsAxis s.right_pad_y

decode_state-HasAxes : (bytes : List ℕ) → All IsByte bytes → HasAxes (decode_state bytes)
unfolding decode_state
decode_state-HasAxes bytes h = record {
  left_stick_x = symmetric_i16-IsAxis bytes 10 h;
  left_stick_y = symmetric_i16-IsAxis bytes 12 h;
  right_stick_x = symmetric_i16-IsAxis bytes 14 h;
  right_stick_y = symmetric_i16-IsAxis bytes 16 h;
  left_pad_x = symmetric_i16-IsAxis bytes 18 h;
  left_pad_y = symmetric_i16-IsAxis bytes 20 h;
  right_pad_x = symmetric_i16-IsAxis bytes 24 h;
  right_pad_y = symmetric_i16-IsAxis bytes 26 h;
}

decode_controller_state :
    (id : ℕ) (bytes : List ℕ) (s : SteamControllerState)
    → decode id bytes ≡ ok (controller_state s)
    → s ≡ decode_state bytes
unfolding decode decode_known
decode_controller_state id [] s e = cc
decode_controller_state id (byte ∷ rest) s e = ground arith

-- Where `decode` reads a controller state from a string of bytes, each of its stick and pad
-- coordinates is in -32767 to 32767.
pub decode-HasAxes :
    (id : ℕ) (bytes : List ℕ) (s : SteamControllerState)
    → All IsByte bytes
    → decode id bytes ≡ ok (controller_state s)
    → HasAxes s
decode-HasAxes id bytes s h e =
    rw (decode_controller_state id bytes s e) (decode_state-HasAxes bytes h)
