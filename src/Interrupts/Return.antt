-- ===== src/Interrupts/Return.antt =====
-- interrupts.rs: what `int 0x80` returns to.
use ruix.Prelude.{
  ℕ, suc, ◌+◌, ◌-◌, ◌≡◌, sym, ap, ◌∙◌, List, [], ◌∷◌, ◌++◌, map, arith, ◌<◌, ◌≤◌, u64_mod, subst,
  wrapping_add, take,
}
use ruix.Process.Context.{Words, store_words, store_words-above}
use ruix.Interrupts.{
  Reg, rax, rcx, rdx, rsi, rdi, r8, r9, r10, r11, rbx, rbp, r12, r13, r14, r15, Machine, Instr, pop,
  add_rsp, call, iretq, Calls, rust_syscall_handler, run, step, syscall_interrupt_handler,
}
use ruix.Interrupts.Stack.{pushed, run-append, run-pop}
use ruix.Interrupts.Switch.{saved, interrupted, entered, entry, prologue}

-- What the handler of `int 0x80` does after its call.
abbrev popped_by_syscall : List Reg
popped_by_syscall =
    r15 ∷ r14 ∷ r13 ∷ r12 ∷ rbp ∷ rbx ∷ r11 ∷ r10 ∷ r9 ∷ r8 ∷ rdi ∷ rsi ∷ rdx ∷ rcx ∷ []

-- The five words that `iretq` loads, from an address.
abbrev Loaded : Machine → Words → ℕ → Type 0
Loaded m mem a =
    (m.rip ≡ mem a)
    × (m.cs ≡ mem (a + 8))
    × (m.rflags ≡ mem (a + 16))
    × (m.rsp ≡ mem (a + 24))
    × (m.ss ≡ mem (a + 32))

abbrev after_syscall : List Instr
after_syscall = call rust_syscall_handler ∷ add_rsp 8 ∷ map pop popped_by_syscall ++ iretq ∷ []

leave :
    (calls : Calls) (n : Machine) (s : ℕ)
    → 128 ≤ s
    → s < u64_mod
    → n.rsp ≡ s - 128
    → Loaded (run calls (add_rsp 8 ∷ map pop popped_by_syscall ++ iretq ∷ []) n) n.memory (s - 8)
unfolding run step
leave calls n s h b e =
    subst (λ l. Loaded l n.memory (s - 8))
      (sym (
        run-append calls (map pop popped_by_syscall) (iretq ∷ [])
          (record n { rsp = wrapping_add n.rsp 8 })
        ∙ ap (run calls (iretq ∷ []))
            (run-pop calls popped_by_syscall n (wrapping_add n.rsp 8) (omega (arith, e, h, b)))))
      (ground arith)

read_pushed : (m : Machine) → 128 ≤ m.rsp → (entry m).memory (m.rsp - 8) ≡ m.regs rax
unfolding store_words pushed
read_pushed m h = ground arith

-- The frame of the processor is where it was.
frame_stays :
    (calls : Calls) (m : Machine)
    → 128 ≤ m.rsp
    → m.rsp < u64_mod
    → (a : ℕ) → m.rsp ≤ a
    → (entered calls m).memory a ≡ m.memory a
unfolding pushed
frame_stays calls m h b a ha =
    ap (λ n. n.memory a) (prologue calls m h b)
    ∙ store_words-above (pushed saved m.regs []) (m.rsp - 120) m.memory a (omega (arith, h, ha))

returned :
    (calls : Calls) (m n : Machine)
    → 128 ≤ m.rsp
    → m.rsp < u64_mod
    → ((a : ℕ) → m.rsp - 128 ≤ a → n.memory a ≡ (entered calls m).memory a)
    → (l : Machine) → Loaded l n.memory (m.rsp - 8)
    → (l.rip ≡ m.regs rax)
      × (l.cs ≡ (interrupted m).rip)
      × (l.rflags ≡ (interrupted m).cs)
      × (l.rsp ≡ (interrupted m).rflags)
      × (l.ss ≡ (interrupted m).rsp)
returned calls m n h b kept l (e1, e2, e3, e4, e5) =
    let word = λ (k a : ℕ) (e : m.rsp - 8 + suc k ≡ a) (ha : m.rsp ≤ a).
      ap n.memory e ∙ kept a (omega (arith, ha)) ∙ frame_stays calls m h b a ha in
    (
      e1
          ∙ kept (m.rsp - 8) (omega arith)
          ∙ ap (λ e. e.memory (m.rsp - 8)) (prologue calls m h b)
          ∙ read_pushed m h,
      e2 ∙ word 7 m.rsp (omega arith) (omega arith),
      e3 ∙ word 15 (m.rsp + 8) (omega arith) (omega arith),
      e4 ∙ word 23 (m.rsp + 16) (omega arith) (omega arith),
      e5 ∙ word 31 (m.rsp + 24) (omega arith) (omega arith),
    )

-- The handler of `int 0x80` pushes one register more than it pops: if `rust_syscall_handler` keeps the
-- stack pointer and the words above it, the handler returns to the address that `rax` held at the call,
-- with the caller's address as code segment, its code segment as flags, its flags as stack pointer and
-- its stack pointer as stack segment. The stack has room for sixteen words.
pub syscall_returns :
    (calls : Calls) (m : Machine)
    → 128 ≤ m.rsp
    → m.rsp < u64_mod
    → (calls rust_syscall_handler (entered calls m)).rsp ≡ (entered calls m).rsp
    → ((a : ℕ)
        → m.rsp - 128 ≤ a
        → (calls rust_syscall_handler (entered calls m)).memory a ≡ (entered calls m).memory a)
    → let left = run calls syscall_interrupt_handler m in
      (left.rip ≡ m.regs rax)
      × (left.cs ≡ (interrupted m).rip)
      × (left.rflags ≡ (interrupted m).cs)
      × (left.rsp ≡ (interrupted m).rflags)
      × (left.ss ≡ (interrupted m).rsp)
unfolding run step
syscall_returns calls m h b kept_rsp kept =
    let n = calls rust_syscall_handler (entered calls m) in
    returned calls m n h b kept (run calls syscall_interrupt_handler m) (
      subst (λ l. Loaded l n.memory (m.rsp - 8))
        (sym (run-append calls (take 18 syscall_interrupt_handler) after_syscall m))
        (leave calls n m.rsp h b (kept_rsp ∙ ap (λ e. e.rsp) (prologue calls m h b))))
