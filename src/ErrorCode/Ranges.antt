-- ===== src/ErrorCode/Ranges.antt =====
-- The code ranges of the subsystems (src/include/ic_error.h).
use inter_container_messagin.Base.{ℕ, ◌<◌, ◌≡◌, ◌≢◌, true, arith}
use inter_container_messagin.ErrorCode.{
  ic_errno_offset, ic_errno, byte_stream_errno, vector_errno, ic_error,
}

-- Codes of different subsystems differ, and no code of a subsystem other than the common one reads
-- as "no error", as long as each subsystem keeps its codes below the offset between two bases.
pub errno_disjoint :
    (a b c : ℕ)
    → a < ic_errno_offset
    → b < ic_errno_offset
    → c < ic_errno_offset
    → (ic_errno a ≢ byte_stream_errno b)
      × (byte_stream_errno b ≢ vector_errno c)
      × (ic_errno a ≢ vector_errno c)
      × (ic_error (byte_stream_errno b) ≡ true)
      × (ic_error (vector_errno c) ≡ true)
unfolding ic_error
errno_disjoint a b c ha hb hc = ground arith
