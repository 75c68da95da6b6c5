-- ===== src/Tests/Selecting.antt =====
-- The descriptor table and the setup of the system calls: a concrete run.
use ruix.Prelude.{ℕ, ◌+◌, ◌*◌, ◌/◌, ◌%◌, ◌≡◌, refl, Bool, ◌&&◌, some, ◌==◌, arith}
use ruix.Syscall.Assembly.{SyscallSetup, init}
use ruix.Gdt.Selectors.{
  Descriptor, kernel_code_segment, kernel_data_segment, user_data_segment, user_code_segment,
  tss_segment, TableOps, IsTable, get_selectors,
}
use ruix.Gdt.Setup.{AcceptsStar, init-get_selectors}

abbrev privilege : Descriptor → ℕ
privilege kernel_code_segment = 0
privilege kernel_data_segment = 0
privilege user_data_segment = 3
privilege user_code_segment = 3
privilege (tss_segment tss) = 0

-- A table is the number of its places.
abbrev ops : TableOps ℕ
ops = record { new = 1; add_entry = λ d t. (8 * t + privilege d, t + 1) }

ops-IsTable : IsTable ops (λ t. t)
ops-IsTable = record {
  places-new = refl;
  selector = by_descriptor;
  kernel_code = λ t. omega arith;
  kernel_data = λ t. omega arith;
  places_code = λ t. refl;
  places_data = λ t. refl;
  places_user_data = λ t. refl;
}
  where
    by_descriptor : (d : Descriptor) (t : ℕ) → (8 * t + privilege d) / 4 ≡ 2 * t
    by_descriptor kernel_code_segment t = omega arith
    by_descriptor kernel_data_segment t = omega arith
    by_descriptor user_data_segment t = omega arith
    by_descriptor user_code_segment t = omega arith
    by_descriptor (tss_segment tss) t = omega arith

abbrev star_accepts : ℕ × ℕ × ℕ × ℕ → Bool
star_accepts (cs_sysret, ss_sysret, cs_syscall, ss_syscall) =
    cs_sysret == ss_sysret + 8
    && ss_syscall == cs_syscall + 8
    && ss_sysret % 4 == 3
    && ss_syscall % 4 == 0

accepts : AcceptsStar star_accepts
unfolding AcceptsStar
accepts cs_sysret ss_sysret cs_syscall ss_syscall a b c d = ground arith

init-get_selectors_example :
    (setup : SyscallSetup) × (init star_accepts
        (get_selectors ops 0x7000)
        0x20000
        0x8000
        0x9000
        (λ a. 0)
      ≡ some setup)
    × (setup.gs_base ≡ 0x8000)
    × (setup.kernel_gs_base ≡ 0x8000)
    × (setup.memory (0x8000 + 8) ≡ 0x20000)
    × (setup.lstar ≡ 0x9000)
    × (setup.star ≡ (35, 27, 8, 16))
init-get_selectors_example =
    init-get_selectors ops (λ t. t) star_accepts 0x7000 0x20000 0x8000 0x9000 (λ a. 0) ops-IsTable
      accepts
