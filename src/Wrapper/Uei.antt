-- ===== src/Wrapper/Uei.antt =====
-- wrapper.h: the record of the scheduler's exit, as C lays it out.
use scx_goland_core.Base.{ℕ, ◌++◌}
use scx_goland_core.User.Message.{Bytes, put_uint32, put_uint64}

-- `struct user_exit_info`; the characters are bytes.
pub record UserExitInfoC : Type 0 where
  pub kind : ℕ
  pub exit_code : ℕ
  pub reason : Bytes
  pub msg : Bytes

abbrev pub uei_reason_len : ℕ
uei_reason_len = 128

abbrev pub uei_msg_len : ℕ
uei_msg_len = 1024

-- The memory of the struct: an int, four bytes of padding, an s64, and the two arrays.
abbrev pub uei_bytes : UserExitInfoC → Bytes → Bytes
uei_bytes i padding =
    put_uint32 i.kind ++ (padding ++ (put_uint64 i.exit_code ++ (i.reason ++ i.msg)))
