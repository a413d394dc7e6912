-- ===== src/Tests/Reason.antt =====
-- The reason codes at concrete inputs.
use mytonprovider_backend.Prelude.{◌≡◌, ◌↔◌, refl}
use mytonprovider_backend.Reason.{
  Code, ReasonCode, to_proto, reason_from_proto, code_number, reason_number,
}
use mytonprovider_backend.Reason.Roundtrip.{number_kept, valid_iff}

number_kept_example :
    reason_number (reason_from_proto (to_proto Code.cant_get_piece))
    ≡ code_number Code.cant_get_piece
number_kept_example = number_kept Code.cant_get_piece refl

-- A number that no constant has.
valid_iff_example :
    (reason_from_proto (to_proto (Code.other 7 refl)) ≡ ReasonCode.valid_storage_proof)
    ↔ (code_number (Code.other 7 refl) ≡ 0)
valid_iff_example = valid_iff (Code.other 7 refl)
