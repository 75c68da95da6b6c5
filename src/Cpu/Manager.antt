-- ===== src/Cpu/Manager.antt =====
-- cpu.rs: the slots of the CPU manager, and the kernel stacks.
use ruix.Prelude.{
  ℕ, zero, suc, ◌+◌, ◌*◌, ◌%◌, ◌≡◌, refl, sym, ap, ◌∙◌, subst, ◌⊎◌, inl, inr, Bool, true, false,
  Option, none, some, List, [], ◌∷◌, leb, if◌then◌else◌, ◌==◌, arith, ◌<◌, ◌≤◌, some-inj, ==_ne,
  lt→ltb, Bool-cases, Option-cases, length, u64_mod, wrapping_add, replicate,
}
use ruix.Error.{ok, kerror, general, GeneralError}
use ruix.Cpu.{
  CpuData, CpuManager, max_cpus, new, new_manager, slot, set_slot, init_cpu, or_invalid_state,
  get_cpu, iter_cpus, get_kernel_stack_for_cpu, kernel_stack_base, kernel_stack_size,
}

slot-set_slot :
    (i j : ℕ) (d : CpuData) (cs : List (Option CpuData))
    → i < length cs
    → slot j (set_slot i d cs) ≡ (if j == i then some d else slot j cs)
unfolding slot set_slot
slot-set_slot i j d [] h = ground arith
slot-set_slot zero zero d (c ∷ cs) h = refl
slot-set_slot zero (suc j) d (c ∷ cs) h = ground arith
slot-set_slot (suc i) zero d (c ∷ cs) h = ground arith
slot-set_slot (suc i) (suc j) d (c ∷ cs) h =
    ground (arith, slot-set_slot i j d cs (omega (arith, h)))

length-set_slot :
    (i : ℕ) (d : CpuData) (cs : List (Option CpuData)) → length (set_slot i d cs) ≡ length cs
unfolding set_slot
length-set_slot i d [] = refl
length-set_slot zero d (c ∷ cs) = refl
length-set_slot (suc i) d (c ∷ cs) = omega (arith, length-set_slot i d cs)

-- One CPU more is initialised if the slot was empty.
iter_cpus-set_slot :
    (i : ℕ) (d : CpuData) (cs : List (Option CpuData))
    → i < length cs
    → slot i cs ≡ none
    → length (iter_cpus (set_slot i d cs)) ≡ suc (length (iter_cpus cs))
unfolding slot set_slot iter_cpus
iter_cpus-set_slot i d [] h e = ground arith
iter_cpus-set_slot zero d (none ∷ cs) h e = refl
iter_cpus-set_slot zero d (some c ∷ cs) h e = ground arith
iter_cpus-set_slot (suc i) d (none ∷ cs) h e = iter_cpus-set_slot i d cs (omega (arith, h)) e
iter_cpus-set_slot (suc i) d (some c ∷ cs) h e =
    omega (arith, iter_cpus-set_slot i d cs (omega (arith, h)) e)

-- There are 64 slots, the count is that of the slots in use, and each slot's CPU has the slot's number.
abbrev pub IsValid : CpuManager → Type 0
IsValid m =
    (length m.cpus ≡ 64)
    × (m.cpu_count ≡ length (iter_cpus m.cpus))
    × ((i : ℕ) (c : CpuData) → slot i m.cpus ≡ some c → c.cpu_id ≡ i)

length-iter_cpus : (cs : List (Option CpuData)) → length (iter_cpus cs) ≤ length cs
unfolding iter_cpus
length-iter_cpus [] = omega arith
length-iter_cpus (none ∷ cs) = omega (arith, length-iter_cpus cs)
length-iter_cpus (some c ∷ cs) = omega (arith, length-iter_cpus cs)

slot-replicate : (n i : ℕ) → slot i (replicate n none) ≡ none
unfolding slot
slot-replicate zero i = refl
slot-replicate (suc n) zero = refl
slot-replicate (suc n) (suc i) = slot-replicate n i

pub new_manager-IsValid : IsValid new_manager
unfolding iter_cpus slot
new_manager-IsValid = (refl, refl, λ i c e. ground (arith, slot-replicate 64 i, e))

-- What is in a slot after a CPU was put into one.
slot_id :
    (i cpu_id : ℕ) (c d : CpuData) (old : Option CpuData)
    → d.cpu_id ≡ cpu_id
    → (old ≡ some c → c.cpu_id ≡ i)
    → (if i == cpu_id then some d else old) ≡ some c
    → c.cpu_id ≡ i
slot_id i cpu_id c d old own others e = elim (Bool-cases (i == cpu_id)) [
  | inl same ↦ ap (λ (x : CpuData). x.cpu_id) (sym (some-inj (rw same at e))) ∙ own ∙ ground arith
  | inr other ↦ others (rw other at e)
]

-- The manager with a CPU put into an empty slot.
abbrev filled : CpuManager → ℕ → ℕ → CpuManager
filled m cpu_id top = record m {
  cpus = set_slot cpu_id (new cpu_id top) m.cpus;
  cpu_count = wrapping_add m.cpu_count 1;
}

filled-IsValid :
    (m : CpuManager) (cpu_id top : ℕ)
    → cpu_id < 64
    → slot cpu_id m.cpus ≡ none
    → IsValid m
    → IsValid (filled m cpu_id top)
unfolding new
filled-IsValid m cpu_id top lt free (size, count, ids) =
    let cs = m.cpus in
    (
      length-set_slot cpu_id (new cpu_id top) cs ∙ size,
      omega (
        arith,
        count,
        size,
        length-iter_cpus cs,
        iter_cpus-set_slot cpu_id (new cpu_id top) cs (omega (arith, lt, size)) free,
      ),
      λ i c e.
          slot_id i cpu_id c (new cpu_id top) (slot i cs) refl (ids i c)
            (sym (slot-set_slot cpu_id i (new cpu_id top) cs (omega (arith, lt, size))) ∙ e),
    )

count_fits : (m : CpuManager) → IsValid m → wrapping_add m.cpu_count 1 ≡ m.cpu_count + 1
count_fits m (size, count, ids) = omega (arith, count, size, length-iter_cpus m.cpus)

get_cpu-filled :
    (m : CpuManager) (cpu_id top j : ℕ)
    → cpu_id < 64
    → IsValid m
    → get_cpu (filled m cpu_id top) j ≡ (if j == cpu_id then ok (new cpu_id top) else get_cpu m j)
unfolding get_cpu
get_cpu-filled m cpu_id top j lt (size, count, ids) =
    let put = slot-set_slot cpu_id j (new cpu_id top) m.cpus (omega (arith, lt, size)) in
    elim (Bool-cases (leb max_cpus j)) [
      | inl e ↦ rw (e, ==_ne j cpu_id (λ same. ground arith)) refl
      | inr e ↦ rw (e, put) (either (j == cpu_id) (slot j m.cpus))
    ]
  where
    either :
        (b : Bool) (o : Option CpuData)
        → or_invalid_state (if b then some (new cpu_id top) else o)
          ≡ (if b then ok (new cpu_id top) else or_invalid_state o)
    either true o = refl
    either false o = refl

-- The manager at the start is valid, and a valid manager stays valid whatever CPU is initialised. A
-- number from 64 on is refused as an invalid operation, a CPU that is there as an invalid state, both
-- with the manager as it was. Only a number below 64 without a CPU is accepted: the CPU can be found
-- afterwards, idle and with its stack, all others are as before, and the count is one higher.
pub init_cpu_lem :
    (m : CpuManager) (cpu_id kernel_stack_top : ℕ)
    → IsValid m
    → IsValid new_manager
      × IsValid (init_cpu cpu_id kernel_stack_top m).1
      × (((max_cpus ≤ cpu_id)
            × (init_cpu cpu_id kernel_stack_top m
                ≡ (kerror general GeneralError.invalid_operation, m)))
          ⊎ (((c : CpuData) × (get_cpu m cpu_id ≡ ok c)
                × (init_cpu cpu_id kernel_stack_top m
                    ≡ (kerror general GeneralError.invalid_state, m)))
              ⊎ ((cpu_id < max_cpus)
                  × (get_cpu m cpu_id ≡ kerror general GeneralError.invalid_state)
                  × ((init_cpu cpu_id kernel_stack_top m).0 ≡ ok tt)
                  × ((init_cpu cpu_id kernel_stack_top m).1.cpu_count ≡ m.cpu_count + 1)
                  × ((j : ℕ)
                      → get_cpu (init_cpu cpu_id kernel_stack_top m).1 j ≡ (
                          if j == cpu_id then ok (new cpu_id kernel_stack_top) else get_cpu m j)))))
unfolding init_cpu get_cpu
init_cpu_lem m cpu_id top valid = elim (Bool-cases (leb max_cpus cpu_id)) [
  | inl e ↦
      let refused : init_cpu cpu_id top m ≡ (kerror general GeneralError.invalid_operation, m) =
        rw (e, init_cpu) refl in
      (
        new_manager-IsValid,
        subst (λ r. IsValid r.1) (sym refused) valid,
        inl (ground arith, refused),
      )
  | inr e ↦ elim (Option-cases (slot cpu_id m.cpus)) [
    | inr (c, found) ↦
        let refused : init_cpu cpu_id top m ≡ (kerror general GeneralError.invalid_state, m) =
          rw (e, init_cpu, found) refl in
        (
          new_manager-IsValid,
          subst (λ r. IsValid r.1) (sym refused) valid,
          inr (inl (c, rw (e, get_cpu, found) refl, refused)),
        )
    | inl free ↦
        let made : init_cpu cpu_id top m ≡ (ok tt, filled m cpu_id top) =
          rw (e, init_cpu, free) refl in
        (
          new_manager-IsValid,
          subst (λ r. IsValid r.1) (sym made)
              (filled-IsValid m cpu_id top (ground arith) free valid),
          inr (
              inr (
                ground arith,
                rw (e, get_cpu, free) refl,
                ap (λ r. r.0) made,
                ap (λ r. r.1.cpu_count) made ∙ count_fits m valid,
                λ j.
                    ap (λ r. get_cpu r.1 j) made
                    ∙ get_cpu-filled m cpu_id top j (ground arith) valid,
              )),
        )
  ]
]

abbrev stack_top : ℕ → ℕ
stack_top i = kernel_stack_base + i * kernel_stack_size + kernel_stack_size

stack_found : (i : ℕ) → i < 64 → get_kernel_stack_for_cpu i ≡ some (ok (stack_top i))
unfolding get_kernel_stack_for_cpu
stack_found i h =
    rw
      (
        lt→ltb (i * 16384) u64_mod (omega (arith, h)),
        lt→ltb (kernel_stack_base + i * 16384) u64_mod (omega (arith, h)),
        aligned i,
        lt→ltb (kernel_stack_base + i * 16384 + 16384) u64_mod (omega (arith, h)),
      )
      refl
  where
    aligned : (i : ℕ) → ((kernel_stack_base + i * 16384) % 16 == 0) ≡ true
    aligned i = ground arith

-- The kernel stacks of the CPUs that the manager supports: each is found, 16 KB long and aligned, and
-- that of a later CPU begins where that of an earlier one ends, or after.
get_kernel_stack_for_cpu_lem :
    (i j : ℕ)
    → i < j
    → j < max_cpus
    → (top next : ℕ) × (get_kernel_stack_for_cpu i ≡ some (ok top))
      × (get_kernel_stack_for_cpu j ≡ some (ok next))
      × (top % 16 ≡ 0)
      × (kernel_stack_base + 16384 ≤ top)
      × (top + 16384 ≤ next)
get_kernel_stack_for_cpu_lem i j h b = (
  stack_top i,
  stack_top j,
  stack_found i (omega (arith, h, b)),
  stack_found j b,
  omega arith,
  omega arith,
  omega (arith, h),
)
