-- ===== src/Interrupts/Table.antt =====
-- interrupts.rs: which handler stands at which vector, and the handler of the keyboard.
use ruix.Prelude.{ℕ, ◌+◌, ◌≡◌, Option, none, some, ◌==◌, if◌then◌else◌, arith, List, ◌∷◌}
use ruix.Process.Keyboard.{ArrayQueue, AtomicWaker, Keyboard, add_keyboard_scancode}

abbrev pic_1_offset : ℕ
pic_1_offset = 32

abbrev pic_2_offset : ℕ
pic_2_offset = pic_1_offset + 8

pub data InterruptIndex : Type 0 where
  timer keyboard : InterruptIndex

unfoldable as_u8 : InterruptIndex → ℕ
as_u8 timer = pic_1_offset
as_u8 keyboard = pic_1_offset + 1

unfoldable as_usize : InterruptIndex → ℕ
as_usize index = as_u8 index

-- The handlers of the table; the one of a double fault has a stack of its own.
pub data Handler : Type 0 where
  breakpoint page_fault timer_interrupt keyboard_interrupt syscall_interrupt : Handler
  double_fault : ℕ → Handler

abbrev double_fault_ist_index : ℕ
double_fault_ist_index = 0

-- `IDT`, where the exceptions have the vectors that the processor gives them.
unfoldable idt : ℕ → Option Handler
idt v =
    if v == 3
    then some breakpoint
    else if v == 8
    then some (double_fault double_fault_ist_index)
    else if v == 14
    then some page_fault
    else if v == as_usize timer
    then some timer_interrupt
    else if v == as_usize keyboard
    then some keyboard_interrupt
    else if v == 0x80
    then some syscall_interrupt
    else none

-- `send_timer_eoi`: the vectors that the interrupt controllers are told, the last one first.
unfoldable send_timer_eoi : List ℕ → List ℕ
send_timer_eoi eois = as_u8 timer ∷ eois

module _ {Q W K : Type 0} (queues : ArrayQueue Q) (wakers : AtomicWaker W K) where
  -- The scancode that the port gives goes to the queue, before the end of the interrupt is told.
  unfoldable keyboard_interrupt_handler : ℕ → Keyboard Q W K × List ℕ → Keyboard Q W K × List ℕ
  keyboard_interrupt_handler scancode (k, eois) =
      (add_keyboard_scancode queues wakers scancode k, as_u8 keyboard ∷ eois)

vector_of : Handler → ℕ
vector_of breakpoint = 3
vector_of page_fault = 14
vector_of timer_interrupt = 32
vector_of keyboard_interrupt = 33
vector_of syscall_interrupt = 128
vector_of (double_fault ist) = 8

idt-vector_of : (v : ℕ) (h : Handler) → idt v ≡ some h → v ≡ vector_of h
unfolding idt as_usize as_u8 vector_of
idt-vector_of v h e = ground arith

-- Every handler stands at one vector at most: an entry tells which interrupt came.
idt_once : (v w : ℕ) (h : Handler) → idt v ≡ some h → idt w ≡ some h → v ≡ w
idt_once v w h a b = cc (idt-vector_of v h a, idt-vector_of w h b)
