-- ===== src/ErrorCode.antt =====
-- The error codes of src/include/ic_error.h and of the components that derive theirs from it, and
-- the process-wide `ic_errno` of src/lib/ic.c, which is passed explicitly.
pub mod Ranges
use inter_container_messagin.Base.{ℕ, ◌+◌, Bool, not, ◌&&◌, leb, ◌==◌}

abbrev pub ic_errno_base : ℕ
ic_errno_base = 0xdeadface

abbrev pub ic_errno_offset : ℕ
ic_errno_offset = 0x1000

abbrev pub ic_errno : ℕ → ℕ
ic_errno e = ic_errno_base + e

abbrev pub ic_errno_none : ℕ
ic_errno_none = ic_errno 0

abbrev pub ic_errno_invalid_parameter : ℕ
ic_errno_invalid_parameter = ic_errno 1

abbrev pub ic_errno_out_of_mem : ℕ
ic_errno_out_of_mem = ic_errno 2

abbrev pub ic_errno_command_denied : ℕ
ic_errno_command_denied = ic_errno 3

-- The bases of the subsystems, in the order of the header.
abbrev pub byte_stream_errno_base : ℕ
byte_stream_errno_base = ic_errno_base + ic_errno_offset

abbrev pub vector_errno_base : ℕ
vector_errno_base = byte_stream_errno_base + ic_errno_offset

abbrev pub nanomsg_errno_base : ℕ
nanomsg_errno_base = vector_errno_base + ic_errno_offset

abbrev pub byte_stream_errno : ℕ → ℕ
byte_stream_errno e = byte_stream_errno_base + e

abbrev pub bs_invalid_parameter : ℕ
bs_invalid_parameter = byte_stream_errno 0

abbrev pub bs_out_of_range : ℕ
bs_out_of_range = byte_stream_errno 1

abbrev pub bs_out_of_mem : ℕ
bs_out_of_mem = byte_stream_errno 2

abbrev pub vector_errno : ℕ → ℕ
vector_errno e = vector_errno_base + e

abbrev pub vector_invalid_parameter : ℕ
vector_invalid_parameter = vector_errno 0

abbrev pub vector_out_of_mem : ℕ
vector_out_of_mem = vector_errno 1

abbrev pub vector_out_of_range : ℕ
vector_out_of_range = vector_errno 2

-- What a function of the library reports: 0, or -1 with the code that it hands to `ic_set_errno`.
pub data Status : Type 0 where
  success : Status
  failure : ℕ → Status

-- `ic_set_errno`: the new value of `ic_errno`; a foreign code is only complained about.
abbrev pub ic_set_errno : ℕ → ℕ → ℕ
ic_set_errno e old = e

-- `ic_errno` after an operation with this status.
abbrev pub note_status : Status → ℕ → ℕ
note_status success old = old
note_status (failure e) old = ic_set_errno e old

-- `ic_error()` at a value of `ic_errno`.
unfoldable pub ic_error : ℕ → Bool
ic_error e = leb ic_errno_base e && not (e == ic_errno_none)
