-- ===== src/Reason.antt =====
-- The reason codes of a proof check: the agent's (agent/internal/reason/reason.go), those of the
-- wire, and the coordinator's (coordinator/internal/constants/constants.go), with the two mappings.
-- The wire's enumeration is generated code; only its constructors are named here.
pub mod Roundtrip
use mytonprovider_backend.Prelude.{
  ℕ, ◌^◌, ◌≡◌, Bool, true, false, not, ◌&&◌, ◌||◌, List, [], ◌∷◌, ltb, ◌==◌,
}

-- The numbers of the constants of `reason.Code`.
abbrev named_numbers : List ℕ
named_numbers = 0 ∷ 101 ∷ 102 ∷ 103 ∷ 104 ∷ 105 ∷ 201 ∷ 202 ∷ 203 ∷ 301 ∷ 302 ∷ 401 ∷ 402 ∷ 403 ∷ []

abbrev is_among : ℕ → List ℕ → Bool
is_among n [] = false
is_among n (m ∷ ms) = n == m || is_among n ms

-- A value of type `uint32` that no constant has.
abbrev pub is_unnamed : ℕ → Bool
is_unnamed n = ltb n (2 ^ 32) && not (is_among n named_numbers)

-- `reason.Code`: a number, of which fourteen have a name. `other n` is any other number.
pub data Code : Type 0 where
  valid_storage_proof ip_not_found not_found unavailable_provider : Code
  cant_create_peer unknown_peer ping_failed invalid_bag_id : Code
  failed_initial_ping get_info_failed invalid_header : Code
  cant_get_piece cant_parse_boc proof_check_failed : Code
  other : (n : ℕ) → is_unnamed n ≡ true → Code

-- `providerchecksv1.ReasonCode`; `unknown n` is a number that the schema does not name.
pub data ProtoCode : Type 0 where
  unspecified valid_storage_proof ip_not_found not_found unavailable_provider : ProtoCode
  cant_create_peer unknown_peer ping_failed invalid_bag_id : ProtoCode
  failed_initial_ping get_info_failed invalid_header : ProtoCode
  cant_get_piece cant_parse_boc proof_check_failed : ProtoCode
  unknown : ℕ → ProtoCode

-- `constants.ReasonCode`
pub data ReasonCode : Type 0 where
  valid_storage_proof ip_not_found not_found unavailable_provider : ReasonCode
  cant_create_peer unknown_peer ping_failed invalid_bag_id : ReasonCode
  failed_initial_ping get_info_failed invalid_header : ReasonCode
  cant_get_piece cant_parse_boc proof_check_failed : ReasonCode

-- `reason.ToProto`
unfoldable pub to_proto : Code → ProtoCode
to_proto Code.valid_storage_proof = ProtoCode.valid_storage_proof
to_proto Code.ip_not_found = ProtoCode.ip_not_found
to_proto Code.not_found = ProtoCode.not_found
to_proto Code.unavailable_provider = ProtoCode.unavailable_provider
to_proto Code.cant_create_peer = ProtoCode.cant_create_peer
to_proto Code.unknown_peer = ProtoCode.unknown_peer
to_proto Code.ping_failed = ProtoCode.ping_failed
to_proto Code.invalid_bag_id = ProtoCode.invalid_bag_id
to_proto Code.failed_initial_ping = ProtoCode.failed_initial_ping
to_proto Code.get_info_failed = ProtoCode.get_info_failed
to_proto Code.invalid_header = ProtoCode.invalid_header
to_proto Code.cant_get_piece = ProtoCode.cant_get_piece
to_proto Code.cant_parse_boc = ProtoCode.cant_parse_boc
to_proto Code.proof_check_failed = ProtoCode.proof_check_failed
to_proto (Code.other n free) = ProtoCode.unspecified

-- `reasonFromProto`
unfoldable pub reason_from_proto : ProtoCode → ReasonCode
reason_from_proto ProtoCode.valid_storage_proof = ReasonCode.valid_storage_proof
reason_from_proto ProtoCode.ip_not_found = ReasonCode.ip_not_found
reason_from_proto ProtoCode.not_found = ReasonCode.not_found
reason_from_proto ProtoCode.unavailable_provider = ReasonCode.unavailable_provider
reason_from_proto ProtoCode.cant_create_peer = ReasonCode.cant_create_peer
reason_from_proto ProtoCode.unknown_peer = ReasonCode.unknown_peer
reason_from_proto ProtoCode.ping_failed = ReasonCode.ping_failed
reason_from_proto ProtoCode.invalid_bag_id = ReasonCode.invalid_bag_id
reason_from_proto ProtoCode.failed_initial_ping = ReasonCode.failed_initial_ping
reason_from_proto ProtoCode.get_info_failed = ReasonCode.get_info_failed
reason_from_proto ProtoCode.invalid_header = ReasonCode.invalid_header
reason_from_proto ProtoCode.cant_get_piece = ReasonCode.cant_get_piece
reason_from_proto ProtoCode.cant_parse_boc = ReasonCode.cant_parse_boc
reason_from_proto ProtoCode.proof_check_failed = ReasonCode.proof_check_failed
reason_from_proto _ = ReasonCode.not_found

-- The number of a code in the agent.
unfoldable pub code_number : Code → ℕ
code_number Code.valid_storage_proof = 0
code_number Code.ip_not_found = 101
code_number Code.not_found = 102
code_number Code.unavailable_provider = 103
code_number Code.cant_create_peer = 104
code_number Code.unknown_peer = 105
code_number Code.ping_failed = 201
code_number Code.invalid_bag_id = 202
code_number Code.failed_initial_ping = 203
code_number Code.get_info_failed = 301
code_number Code.invalid_header = 302
code_number Code.cant_get_piece = 401
code_number Code.cant_parse_boc = 402
code_number Code.proof_check_failed = 403
code_number (Code.other n free) = n

-- The number of a code in the coordinator, and in its database.
unfoldable pub reason_number : ReasonCode → ℕ
reason_number ReasonCode.valid_storage_proof = 0
reason_number ReasonCode.ip_not_found = 101
reason_number ReasonCode.not_found = 102
reason_number ReasonCode.unavailable_provider = 103
reason_number ReasonCode.cant_create_peer = 104
reason_number ReasonCode.unknown_peer = 105
reason_number ReasonCode.ping_failed = 201
reason_number ReasonCode.invalid_bag_id = 202
reason_number ReasonCode.failed_initial_ping = 203
reason_number ReasonCode.get_info_failed = 301
reason_number ReasonCode.invalid_header = 302
reason_number ReasonCode.cant_get_piece = 401
reason_number ReasonCode.cant_parse_boc = 402
reason_number ReasonCode.proof_check_failed = 403
