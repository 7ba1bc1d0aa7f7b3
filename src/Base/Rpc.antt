-- ===== src/Base/Rpc.antt =====
-- What a gRPC handler answers: a value, or a status with its code and message.
use Prim.Native.String.{String}

pub data Code : Type 0 where
  invalid_argument not_found already_exists failed_precondition internal : Code
  unauthenticated permission_denied unavailable deadline_exceeded other : Code

pub data Reply (A : Type 0) : Type 0 where
  reply : A → Reply A
  refuse : Code → String → Reply A
