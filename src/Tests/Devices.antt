-- ===== src/Tests/Devices.antt =====
-- CPUs and the screen: concrete runs.
use ruix.Prelude.{ℕ, ◌≡◌, ◌≤◌, ◌<◌, ◌+◌, ◌⊎◌, inl, some, [], ◌∷◌, ◌==◌, if◌then◌else◌, arith}
use ruix.Error.{ok, kerror, general, GeneralError}
use ruix.Cpu.{CpuData, max_cpus, new, new_manager, init_cpu, get_cpu}
use ruix.Cpu.Manager.{IsValid, new_manager-IsValid, init_cpu_lem}
use ruix.Screen.{Writer, write_string}
use ruix.Screen.Scrolling.{Printable, write_string_lem}

init_cpu_example :
    IsValid new_manager
    × IsValid (init_cpu 3 4096 new_manager).1
    × (((max_cpus ≤ 3)
          × (init_cpu 3 4096 new_manager
              ≡ (kerror general GeneralError.invalid_operation, new_manager)))
        ⊎ (((c : CpuData) × (get_cpu new_manager 3 ≡ ok c)
              × (init_cpu 3 4096 new_manager
                  ≡ (kerror general GeneralError.invalid_state, new_manager)))
            ⊎ ((3 < max_cpus)
                × (get_cpu new_manager 3 ≡ kerror general GeneralError.invalid_state)
                × ((init_cpu 3 4096 new_manager).0 ≡ ok tt)
                × ((init_cpu 3 4096 new_manager).1.cpu_count ≡ new_manager.cpu_count + 1)
                × ((j : ℕ)
                    → get_cpu (init_cpu 3 4096 new_manager).1 j
                      ≡ (if j == 3 then ok (new 3 4096) else get_cpu new_manager j)))))
init_cpu_example = init_cpu_lem new_manager 3 4096 new_manager-IsValid

-- A blank screen with the cursor behind the last column.
abbrev writer : Writer
writer = record {
  column_position = 80;
  color_code = 14;
  buffer = λ r c. record { ascii_character = 32; color_code = 14 };
}

write_string_example :
    (v : Writer) × (write_string (72 ∷ 10 ∷ 200 ∷ []) writer ≡ some v)
    × (v.column_position ≤ 80)
    × Printable v.buffer
write_string_example =
    write_string_lem (72 ∷ 10 ∷ 200 ∷ []) writer (omega arith)
      (λ r c hr hc. inl (omega arith, omega arith))
