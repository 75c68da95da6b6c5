-- ===== src/Interrupts/Switch.antt =====
-- interrupts.rs: what the timer interrupt saves on the stack, and what it resumes.
use ruix.Prelude.{
  ℕ, ◌+◌, ◌-◌, ◌%◌, ◌≡◌, ap, ◌∙◌, List, [], ◌∷◌, ◌++◌, map, arith, ◌<◌, ◌≤◌, u64_mod, wrapping_add,
  take,
}
use ruix.Process.Context.{
  ProcessContext, store_words, load_words, load_context, fields, fields-load_context, fields_inj,
  load_words-above, load_context_agree,
}
use ruix.Interrupts.{
  Reg, rax, rcx, rdx, rsi, rdi, r8, r9, r10, r11, rbx, rbp, r12, r13, r14, r15, Machine, Instr,
  push, pop, sub_rsp, add_rsp, call, mov_rdi_rsp, add_rdi, mov_rsp_rax, iretq, Calls, handle_switch,
  increment_tick, run, step, set, timer_interrupt_handler,
}
use ruix.Interrupts.Stack.{pushed, popped, run-append, run-push, run-pop}

abbrev pub saved : List Reg
saved = rax ∷ rcx ∷ rdx ∷ rsi ∷ rdi ∷ r8 ∷ r9 ∷ r10 ∷ r11 ∷ rbx ∷ rbp ∷ r12 ∷ r13 ∷ r14 ∷ r15 ∷ []

-- The context of a program: its registers, and the words that `iretq` loads to resume it.
abbrev context : (Reg → ℕ) → ℕ → ℕ → ℕ → ℕ → ℕ → ProcessContext
context regs ip seg flags sp stack_seg = record {
  r15 = regs r15;
  r14 = regs r14;
  r13 = regs r13;
  r12 = regs r12;
  rbp = regs rbp;
  rbx = regs rbx;
  r11 = regs r11;
  r10 = regs r10;
  r9 = regs r9;
  r8 = regs r8;
  rdi = regs rdi;
  rsi = regs rsi;
  rdx = regs rdx;
  rcx = regs rcx;
  rax = regs rax;
  rip = ip;
  cs = seg;
  rflags = flags;
  rsp = sp;
  ss = stack_seg;
}

-- The program that was interrupted: the processor has pushed its five words.
abbrev pub interrupted : Machine → ProcessContext
interrupted m =
    context m.regs (m.memory m.rsp) (m.memory (m.rsp + 8)) (m.memory (m.rsp + 16))
      (m.memory (m.rsp + 24)) (m.memory (m.rsp + 32))

-- The program that runs.
abbrev pub running : Machine → ProcessContext
running m = context m.regs m.rip m.cs m.rflags m.rsp m.ss

-- The machine when the handler makes its first call.
abbrev pub entered : Calls → Machine → Machine
entered calls m = run calls (take 18 timer_interrupt_handler) m

abbrev pub entry : Machine → Machine
entry m = record m {
  regs = set rdi (m.rsp - 120) (set rdi (m.rsp - 128) m.regs);
  rsp = m.rsp - 128;
  memory = store_words (pushed saved m.regs []) (m.rsp - 120) m.memory;
}

pub prologue :
    (calls : Calls) (m : Machine) → 128 ≤ m.rsp → m.rsp < u64_mod → entered calls m ≡ entry m
unfolding run step store_words
prologue calls m h b =
    run-append calls (map push saved) (sub_rsp 8 ∷ mov_rdi_rsp ∷ add_rdi 8 ∷ []) m
    ∙ ap (run calls (sub_rsp 8 ∷ mov_rdi_rsp ∷ add_rdi 8 ∷ []))
        (run-push calls saved m [] m.memory m.rsp (omega (arith, h)) b)
    ∙ ground arith

abbrev restored : List Reg
restored =
    r15 ∷ r14 ∷ r13 ∷ r12 ∷ rbp ∷ rbx ∷ r11 ∷ r10 ∷ r9 ∷ r8 ∷ rdi ∷ rsi ∷ rdx ∷ rcx ∷ rax ∷ []

resume :
    (calls : Calls) (m : Machine)
    → m.regs rax + 160 ≤ u64_mod
    → running (run calls (mov_rsp_rax ∷ map pop restored ++ iretq ∷ []) m)
      ≡ load_context (m.regs rax) m.memory
unfolding run step popped load_context
resume calls m b =
    ap running (
      run-append calls (map pop restored) (iretq ∷ []) (record m { rsp = m.regs rax })
      ∙ ap (run calls (iretq ∷ [])) (run-pop calls restored m (m.regs rax) (omega (arith, b))))
    ∙ ground arith

-- The machine after the two calls of the timer's handler.
abbrev pub after_calls : Calls → Machine → Machine
after_calls calls m =
    let switched = calls handle_switch (entered calls m) in
    calls increment_tick (record switched { rsp = wrapping_add switched.rsp 8 })

-- The timer's handler from its first call on.
abbrev after_entry : List Instr
after_entry =
    call handle_switch ∷ add_rsp 8 ∷ call increment_tick ∷ mov_rsp_rax ∷ map pop restored
    ++ iretq ∷ []

words_of :
    (m : Machine)
    → 128 ≤ m.rsp
    → load_words 20 (m.rsp - 120) (store_words (pushed saved m.regs []) (m.rsp - 120) m.memory)
      ≡ fields (interrupted m)
unfolding pushed load_words
words_of m h = load_words-above (pushed saved m.regs []) 5 (m.rsp - 120) m.memory ∙ ground arith

-- When the timer's handler calls `handle_switch`, its argument is the address of a `ProcessContext` that
-- holds the interrupted program: its registers and the five words that the processor pushed. The stack
-- pointer then has the alignment that it had when the handler was entered. The stack has room for
-- sixteen words.
pub timer_entry :
    (calls : Calls) (m : Machine)
    → 128 ≤ m.rsp
    → m.rsp < u64_mod
    → ((entered calls m).regs rdi ≡ m.rsp - 120)
      × (load_context (m.rsp - 120) (entered calls m).memory ≡ interrupted m)
      × ((entered calls m).rsp % 16 ≡ m.rsp % 16)
timer_entry calls m h b =
    let entered≡ = prologue calls m h b in
    (
      ap (λ n. n.regs rdi) entered≡,
      fields_inj _ _ (
          ap (λ n. fields (load_context (m.rsp - 120) n.memory)) entered≡
          ∙ fields-load_context (m.rsp - 120) (entry m).memory
          ∙ words_of m h),
      ap (λ n. n.rsp % 16) entered≡ ∙ omega (arith, h),
    )

-- The timer's handler resumes the context whose address is in `rax` after its second call, that of
-- `increment_tick`: all registers and the five words of `iretq` are those of that context. The context
-- lies below the end of the address space.
pub timer_resumes :
    (calls : Calls) (m : Machine)
    → (after_calls calls m).regs rax + 160 ≤ u64_mod
    → running (run calls timer_interrupt_handler m)
      ≡ load_context ((after_calls calls m).regs rax) (after_calls calls m).memory
unfolding run step
timer_resumes calls m b =
    ap running (run-append calls (take 18 timer_interrupt_handler) after_entry m)
    ∙ resume calls (after_calls calls m) b

-- A timer interrupt that switches to nobody else is not seen by the program that it interrupts: if, after
-- the two calls, `rax` holds the address that `handle_switch` was given and the saved words are as they
-- were, the program goes on with all its registers, at its instruction, on its stack. The kernel's stack
-- has room for sixteen words, and the context lies below the end of the address space.
timer_transparent :
    (calls : Calls) (m : Machine)
    → 128 ≤ m.rsp
    → m.rsp + 40 ≤ u64_mod
    → (after_calls calls m).regs rax ≡ m.rsp - 120
    → ((a : ℕ)
        → m.rsp - 120 ≤ a
        → a < m.rsp + 40
        → (after_calls calls m).memory a ≡ (entered calls m).memory a)
    → running (run calls timer_interrupt_handler m) ≡ interrupted m
timer_transparent calls m h b address kept =
    let after = after_calls calls m in
    timer_resumes calls m (omega (arith, address, h, b))
    ∙ ap (λ p. load_context p after.memory) address
    ∙ load_context_agree (m.rsp - 120) after.memory (entered calls m).memory
        (λ a lo hi. kept a lo (omega (arith, hi, h)))
    ∙ (timer_entry calls m h (omega (arith, b))).1
