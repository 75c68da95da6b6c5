-- ===== src/Syscall/Assembly.antt =====
-- syscall.rs: the entry point of the instruction `syscall`, which is written in assembly, as a list of
-- instructions on the machine of the interrupt handlers with the two bases of the segment GS. What
-- `rust_syscall_handler` does to the machine is an argument. `syscall` and `sysretq` are those of the
-- processor, without what they do to the segments.
use ruix.Prelude.{
  ℕ, ◌+◌, ◌-◌, ◌%◌, Bool, true, Option, none, some, List, [], ◌∷◌, if◌then◌else◌, wrapping_add,
  wrapping_sub,
}
use ruix.Process.Context.{Words, write}
use ruix.Interrupts.{Reg, rcx, rdi, r11, Machine, set}
use ruix.Gdt.Selectors.{Selectors}

-- The machine, and the bases of GS and of the GS that `swapgs` brings in.
pub record Core : Type 0 where
  pub machine : Machine
  pub gs_base : ℕ
  pub kernel_gs_base : ℕ

pub data Instr : Type 0 where
  swapgs mov_rdi_rsp call_rust_handler sysretq : Instr
  mov_gs_rsp mov_rsp_gs sub_rsp add_rsp : ℕ → Instr
  push pop : Reg → Instr

-- What the called function does, up to its return.
abbrev pub Handler : Type 0
Handler = Core → Core

abbrev on_machine : (Machine → Machine) → Core → Core
on_machine f c = record c { machine = f c.machine }

unfoldable pub step : Handler → Instr → Core → Core
step handler swapgs c = record c { gs_base = c.kernel_gs_base; kernel_gs_base = c.gs_base }
step handler (mov_gs_rsp offset) c =
    on_machine (λ m. record m { memory = write (c.gs_base + offset) m.rsp m.memory }) c
step handler (mov_rsp_gs offset) c =
    on_machine (λ m. record m { rsp = m.memory (c.gs_base + offset) }) c
step handler (push r) c =
    on_machine
      (λ m. record m {
        rsp = wrapping_sub m.rsp 8;
        memory = write (wrapping_sub m.rsp 8) (m.regs r) m.memory;
      })
      c
step handler (pop r) c =
    on_machine (λ m. record m { regs = set r (m.memory m.rsp) m.regs; rsp = wrapping_add m.rsp 8 })
      c
step handler (sub_rsp n) c = on_machine (λ m. record m { rsp = wrapping_sub m.rsp n }) c
step handler (add_rsp n) c = on_machine (λ m. record m { rsp = wrapping_add m.rsp n }) c
step handler mov_rdi_rsp c = on_machine (λ m. record m { regs = set rdi m.rsp m.regs }) c
step handler call_rust_handler c = handler c
step handler sysretq c = on_machine (λ m. record m { rip = m.regs rcx; rflags = m.regs r11 }) c

unfoldable pub run : Handler → List Instr → Core → Core
unfolding step
run handler [] c = c
run handler (i ∷ is) c = run handler is (step handler i c)

-- Up to the call, and from the return on.
abbrev pub entry : List Instr
entry = swapgs ∷ mov_gs_rsp 0 ∷ mov_rsp_gs 8 ∷ push r11 ∷ push rcx ∷ sub_rsp 8 ∷ mov_rdi_rsp ∷ []

abbrev pub leave : List Instr
leave = add_rsp 8 ∷ pop rcx ∷ pop r11 ∷ mov_rsp_gs 0 ∷ swapgs ∷ sysretq ∷ []

unfoldable pub asm_syscall_handler : Handler → Core → Core
asm_syscall_handler handler c = run handler leave (handler (run handler entry c))

-- The instruction `syscall`: where the program goes on, and its flags, are in `rcx` and `r11`.
abbrev pub syscall : Core → Core
syscall = on_machine (λ m. record m { regs = set rcx m.rip (set r11 m.rflags m.regs) })

-- The registers that `init` sets, and the data of the processor in memory.
pub record SyscallSetup : Type 0 where
  pub syscalls_enabled : Bool
  pub gs_base : ℕ
  pub kernel_gs_base : ℕ
  pub star : ℕ × ℕ × ℕ × ℕ
  pub lstar : ℕ
  pub masks_interrupts : Bool
  pub masks_direction : Bool
  pub memory : Words

-- `selector | 3`
abbrev with_rpl : ℕ → ℕ
with_rpl selector = selector - selector % 4 + 3

-- `init`, with the addresses of the data and of the handler, and what the crate's `Star::write` answers;
-- `none` is the panic if it refuses the selectors.
unfoldable pub init : (ℕ × ℕ × ℕ × ℕ → Bool) → Selectors → ℕ → ℕ → ℕ → Words → Option SyscallSetup
init star_accepts selectors stack_top cpu_data handler mem =
    let star : ℕ × ℕ × ℕ × ℕ = (
      with_rpl selectors.user_code_selector,
      with_rpl selectors.user_data_selector,
      selectors.code_selector,
      selectors.data_selector,
    ) in
    if star_accepts star
    then some (record {
      syscalls_enabled = true;
      gs_base = cpu_data;
      kernel_gs_base = cpu_data;
      star = star;
      lstar = handler;
      masks_interrupts = true;
      masks_direction = true;
      memory = write (cpu_data + 8) stack_top mem;
    })
    else none
