-- ===== src/Bpf/Exit.antt =====
-- main.bpf.c, goland_exit: the record of the scheduler's exit.
use scx_goland_core.Base.{ℕ, List}
use scx_goland_core.Wrapper.Uei.{UserExitInfoC}

-- What the callback is given of `struct scx_exit_info`.
pub record ScxExitInfo : Type 0 where
  pub kind : ℕ
  pub exit_code : ℕ
  pub reason : List ℕ
  pub msg : List ℕ

-- UEI_RECORD of the scx headers, a parameter: what it makes of the record.
pub record UeiMacros : Type 0 where
  pub uei_record : UserExitInfoC → ScxExitInfo → UserExitInfoC

-- `uei` is the record that UEI_DEFINE declares.
unfoldable pub goland_exit : ⦃u : UeiMacros⦄ → ScxExitInfo → UserExitInfoC → UserExitInfoC
goland_exit ⦃u⦄ ei uei = u.uei_record uei ei
