-- ===== src/Bpf/Basic/Flag.antt =====
-- main.bpf.c: the bits of usersched_needed, the wake-up flag of the user-space scheduler.
use scx_goland_core.Base.{ℕ, zero, suc, ◌≡◌, ◌≤◌, refl, bit_and, bit_or, arith}

pub bit_or_flag : (n : ℕ) → n ≤ 1 → bit_or n 1 ≡ 1
bit_or_flag zero h = refl
bit_or_flag (suc zero) h = refl
bit_or_flag (suc (suc n)) h = absurd (omega arith)

pub bit_and_flag : (n : ℕ) → n ≤ 1 → bit_and n 0 ≡ 0
bit_and_flag zero h = refl
bit_and_flag (suc zero) h = refl
bit_and_flag (suc (suc n)) h = absurd (omega arith)
