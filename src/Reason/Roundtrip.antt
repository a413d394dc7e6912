-- ===== src/Reason/Roundtrip.antt =====
-- `ToProto` of the agent, followed by `reasonFromProto` of the coordinator.
use mytonprovider_backend.Prelude.{◌≡◌, ◌↔◌, refl, Bool, true, false, arith}
use mytonprovider_backend.Reason.{
  Code, ReasonCode, to_proto, reason_from_proto, code_number, reason_number,
}

-- `c` is one of the fourteen named codes.
abbrev pub is_named : Code → Bool
is_named (Code.other n free) = false
is_named _ = true

-- A named code of the agent reaches the coordinator's database with the number that it has in the
-- agent.
pub number_kept :
    (c : Code) → is_named c ≡ true → reason_number (reason_from_proto (to_proto c)) ≡ code_number c
unfolding to_proto reason_from_proto code_number reason_number
number_kept Code.valid_storage_proof h = refl
number_kept (Code.other n free) h = ground arith
number_kept _ h = refl

-- The coordinator reads a code, whatever number it is, as a valid proof exactly when its number is
-- 0, that of a valid proof.
pub valid_iff :
    (c : Code)
    → (reason_from_proto (to_proto c) ≡ ReasonCode.valid_storage_proof) ↔ (code_number c ≡ 0)
unfolding to_proto reason_from_proto code_number
valid_iff Code.valid_storage_proof = (λ h. refl, λ h. refl)
valid_iff (Code.other n free) = (λ h. ground arith, λ zero_code. ground (arith, free, zero_code))
valid_iff _ = (λ h. ground arith, λ h. ground arith)
