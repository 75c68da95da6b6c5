-- ===== src/Gdt/Setup.antt =====
-- gdt.rs and syscall.rs: the selectors of the descriptor table serve the system calls.
use ruix.Prelude.{ℕ, ◌+◌, ◌-◌, ◌%◌, ◌≡◌, refl, ◌∙◌, Bool, true, some, arith, ==_refl}
use ruix.Process.Context.{Words, write}
use ruix.Syscall.Assembly.{SyscallSetup, init}
use ruix.Gdt.Selectors.{
  TableOps, IsTable, gdt, get_selectors, kernel_code_segment, kernel_data_segment,
  user_data_segment, user_code_segment,
}

-- What `Star::write` accepts: the two selectors for `sysret` stand one entry apart, the stack before the
-- code, with the user's privilege; those for `syscall` stand one entry apart, the code first, with
-- the kernel's.
unfoldable pub AcceptsStar : (ℕ × ℕ × ℕ × ℕ → Bool) → Type 0
AcceptsStar star_accepts =
    (cs_sysret ss_sysret cs_syscall ss_syscall : ℕ)
    → cs_sysret ≡ ss_sysret + 8
    → ss_syscall ≡ cs_syscall + 8
    → ss_sysret % 4 ≡ 3
    → ss_syscall % 4 ≡ 0
    → star_accepts (cs_sysret, ss_sysret, cs_syscall, ss_syscall) ≡ true

-- The setup of the system calls accepts the selectors of the descriptor table, so that it does not panic,
-- and leaves what a system call needs: the base of GS is the data of the processor, its second word
-- is the end of the kernel's stack, and the entry point is the handler. The table numbers its
-- entries in the order in which they are added.
pub init-get_selectors :
    {T : Type 0} (ops : TableOps T) (places : T → ℕ) (star_accepts : ℕ × ℕ × ℕ × ℕ → Bool)
    (tss stack_top cpu_data handler : ℕ) (mem : Words)
    → IsTable ops places
    → AcceptsStar star_accepts
    → (setup : SyscallSetup) × (init star_accepts
          (get_selectors ops tss)
          stack_top
          cpu_data
          handler
          mem
        ≡ some setup)
      × (setup.gs_base ≡ cpu_data)
      × (setup.kernel_gs_base ≡ cpu_data)
      × (setup.memory (cpu_data + 8) ≡ stack_top)
      × (setup.lstar ≡ handler)
      × (setup.star ≡ (35, 27, 8, 16))
unfolding init get_selectors gdt AcceptsStar
init-get_selectors {T} ops places star_accepts tss stack_top cpu_data handler mem table accepts =
    let t1 : T = (ops.add_entry kernel_code_segment ops.new).1 in
    let t2 : T = (ops.add_entry kernel_data_segment t1).1 in
    let t3 : T = (ops.add_entry user_data_segment t2).1 in
    let c = (ops.add_entry kernel_code_segment ops.new).0 in
    let d = (ops.add_entry kernel_data_segment t1).0 in
    let ud = (ops.add_entry user_data_segment t2).0 in
    let uc = (ops.add_entry user_code_segment t3).0 in
    let n1 : places t1 ≡ 2 = table.places_code ops.new ∙ omega (arith, table.places-new) in
    let n2 : places t2 ≡ 3 = table.places_data t1 ∙ omega (arith, n1) in
    let n3 : places t3 ≡ 4 = table.places_user_data t2 ∙ omega (arith, n2) in
    let code : c ≡ 8 = omega (
      arith,
      table.selector kernel_code_segment ops.new,
      table.kernel_code ops.new,
      table.places-new,
    ) in
    let kdata : d ≡ 16 =
      omega (arith, table.selector kernel_data_segment t1, table.kernel_data t1, n1) in
    let user_data : ud - ud % 4 + 3 ≡ 27 = omega (arith, table.selector user_data_segment t2, n2) in
    let user_code : uc - uc % 4 + 3 ≡ 35 = omega (arith, table.selector user_code_segment t3, n3) in
    let accepted =
      accepts (uc - uc % 4 + 3) (ud - ud % 4 + 3) c d (omega (arith, user_code, user_data))
        (omega (arith, code, kdata)) (omega (arith, user_data)) (omega (arith, kdata)) in
    (
      record {
        syscalls_enabled = true;
        gs_base = cpu_data;
        kernel_gs_base = cpu_data;
        star = (uc - uc % 4 + 3, ud - ud % 4 + 3, c, d);
        lstar = handler;
        masks_interrupts = true;
        masks_direction = true;
        memory = write (cpu_data + 8) stack_top mem;
      },
      rw accepted refl,
      refl,
      refl,
      rw (==_refl (cpu_data + 8)) refl,
      refl,
      rw (user_code, user_data, code, kdata) refl,
    )
