-- ===== src/Sys/Idt/Laws.antt =====
-- Where the processor jumps on each interrupt, after the tables of src/sys are installed.
use jiauliyan_os.Base.{
  ℕ, zero, suc, ◌+◌, ◌-◌, ◌*◌, ◌/◌, ◌%◌, ◌≤◌, ◌<◌, ◌≡◌, refl, ◌∙◌, List, Option, none, some, arith,
  ◌&&◌, ltb, leb, if◌then◌else◌, length, length-set, get_elem?, get_elem?-set_self,
  get_elem?-set_ne, replicate, length-replicate, Bool-cases, inl, inr, ◌==◌,
}
use jiauliyan_os.Base.Bits.{bit_and_65535}
use jiauliyan_os.Sys.Idt.{
  IdtEntry, IdtState, zero_entry, gate, idt_set_gate, idt_install, set_gates, isrs_install,
  irq_gates,
}

-- The layout of a gate: the address of its routine.
pub offset : IdtEntry → ℕ
offset e = e.base_lo + 65536 * e.base_hi

-- A gate for a routine of the kernel: present, for ring 0, in the code segment.
pub record IsGate (routine : ℕ) (e : IdtEntry) : Type 0 where
  pub address : offset e ≡ routine
  pub selector : e.sel ≡ 0x08
  pub flags : e.flags ≡ 0x8E
  pub always0 : e.always0 ≡ 0

-- The two halves of the address make up the routine's.
pub gate-IsGate : (routine : ℕ) → routine < 4294967296 → IsGate routine (gate routine 0x08 0x8E)
unfolding gate offset
gate-IsGate routine h = ground (arith, bit_and_65535 routine, bit_and_65535 (routine / 65536))

-- Entry `v` after the calls: a new gate inside the range, the old entry outside.
set_gates_lem :
    (n first i : ℕ) (stub : ℕ → ℕ) (idt : List IdtEntry) (v : ℕ)
    → length idt ≡ 256
    → first + i + n ≤ 256
    → get_elem? (set_gates n first i stub idt) v ≡ (
        if leb (first + i) v && ltb v (first + i + n)
        then some (gate (stub (v - first)) 0x08 0x8E)
        else get_elem? idt v)
unfolding set_gates idt_set_gate
set_gates_lem zero first i stub idt v len room = ground arith
set_gates_lem (suc n) first i stub idt v len room =
    let at = (first + i) % 256 in
    let new = gate (stub i) 0x08 0x8E in
    let idt' = idt_set_gate (first + i) (stub i) 0x08 0x8E idt in
    let rest =
      set_gates_lem n first (i + 1) stub idt' v (omega (arith, length-set {0} idt at new))
        (omega arith) in
    elim (Bool-cases (v == first + i)) [
      | inl here ↦ ground (arith, rest, get_elem?-set_self idt at new)
      | inr other ↦ ground (arith, rest, get_elem?-set_ne idt {i = at} {j = v} new)
    ]

length-set_gates :
    (n first i : ℕ) (stub : ℕ → ℕ) (idt : List IdtEntry)
    → length (set_gates n first i stub idt) ≡ length idt
unfolding set_gates idt_set_gate
length-set_gates zero first i stub idt = refl
length-set_gates (suc n) first i stub idt =
    let at = (first + i) % 256 in
    let new = gate (stub i) 0x08 0x8E in
    ground (
      arith,
      length-set_gates n first (i + 1) stub (idt_set_gate (first + i) (stub i) 0x08 0x8E idt),
      length-set idt at new,
    )

get_elem?-replicate :
    (n i : ℕ) (e : IdtEntry) → get_elem? (replicate n e) i ≡ (if ltb i n then some e else none)
get_elem?-replicate zero i e = ground arith
get_elem?-replicate (suc n) zero e = ground arith
get_elem?-replicate (suc n) (suc i) e = ground (arith, get_elem?-replicate n i e)

-- The table as `kmain` leaves it.
unfoldable pub installed : ℕ → (isr irq : ℕ → ℕ) → IdtState → List IdtEntry
installed addr isr irq s = irq_gates irq (isrs_install isr (idt_install addr s).idt)

-- The routine for an interrupt number, if there is one: the exceptions below 32, the 16 device
-- interrupts above them.
pub routine : (isr irq : ℕ → ℕ) → ℕ → Option ℕ
routine isr irq v =
    if ltb v 32 then some (isr v) else if ltb v 48 then some (irq (v - 32)) else none

-- The two runs of gates over a cleared table, which is kept a variable.
gates_lem :
    (isr irq : ℕ → ℕ) (clear : List IdtEntry) (v : ℕ)
    → length clear ≡ 256
    → get_elem? clear v ≡ some zero_entry
    → get_elem? (irq_gates irq (isrs_install isr clear)) v
      ≡ elim (routine isr irq v) [ none ↦ some zero_entry | some a ↦ some (gate a 0x08 0x8E) ]
unfolding routine isrs_install irq_gates
gates_lem isr irq clear v len zero_at =
    let faults = set_gates 32 0 0 isr clear in
    ground (
      arith,
      length-set_gates 32 0 0 isr clear,
      set_gates_lem 16 32 0 irq faults v,
      set_gates_lem 32 0 0 isr clear v,
    )

cleared : (n v : ℕ) → v < n → get_elem? (replicate n zero_entry) v ≡ some zero_entry
cleared n v h = ground (arith, get_elem?-replicate n v zero_entry)

-- After the three installs every interrupt number below 256 has its gate: to its own routine, and to
-- nothing (an entry of zeros, which is not present) where the kernel has no routine.
pub installed_lem :
    (addr : ℕ) (isr irq : ℕ → ℕ) (s : IdtState) (v : ℕ)
    → v < 256
    → get_elem? (installed addr isr irq s) v
      ≡ elim (routine isr irq v) [ none ↦ some zero_entry | some a ↦ some (gate a 0x08 0x8E) ]
unfolding installed idt_install
installed_lem addr isr irq s v h =
    gates_lem isr irq (replicate 256 zero_entry) v (length-replicate 256 zero_entry)
      (cleared 256 v h)

-- What the processor does at an entry: it goes to the routine in the code segment of the kernel, or
-- finds that the entry is not present, the highest bit of its flags being 0.
pub Dispatches : Option ℕ → IdtEntry → Type 0
Dispatches none e = e.flags < 128
Dispatches (some a) e = IsGate a e

-- Where the addresses of the stubs are below 4 GB, after the three installs the processor, which puts
-- the address of a gate together from its two halves, goes at every interrupt number below 256 to the
-- routine of that number, in the kernel's code segment and in ring 0, and finds no present entry where
-- the kernel has no routine.
pub installed-Dispatches :
    (addr : ℕ) (isr irq : ℕ → ℕ) (s : IdtState) (v : ℕ)
    → v < 256
    → ((i : ℕ) → i < 32 → isr i < 4294967296)
    → ((i : ℕ) → i < 16 → irq i < 4294967296)
    → (e : IdtEntry) × (get_elem? (installed addr isr irq s) v ≡ some e)
      × Dispatches (routine isr irq v) e
unfolding routine Dispatches
installed-Dispatches addr isr irq s v h isr_small irq_small =
    let found = installed_lem addr isr irq s v h in
    elim (Bool-cases (ltb v 32)) [
      | inl e ↦ (
        gate (isr v) 0x08 0x8E,
        found ∙ rw e refl,
        rw e (gate-IsGate (isr v) (isr_small v (ground arith))),
      )
      | inr n ↦ elim (Bool-cases (ltb v 48)) [
        | inl e ↦ (
          gate (irq (v - 32)) 0x08 0x8E,
          found ∙ rw (n, e) refl,
          rw (n, e) (gate-IsGate (irq (v - 32)) (irq_small (v - 32) (ground arith))),
        )
        | inr e ↦ (zero_entry, found ∙ rw (n, e) refl, rw (n, e) (omega arith))
      ]
    ]
