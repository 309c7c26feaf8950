-- ===== src/Core/Envelope.antt =====
-- `success_envelope` of backend/app/common/response.py.
use retail_os.Prelude.{String, Bool, true, Option}

pub record SuccessEnvelope (A : Type 0) : Type 0 where
  pub success : Bool
  pub message : String
  pub contents : Option A

abbrev pub completed : String
completed = "Operation completed"

abbrev pub success_envelope : {A : Type 0} → Option A → String → SuccessEnvelope A
success_envelope contents message = record {
  success = true;
  message = message;
  contents = contents;
}
