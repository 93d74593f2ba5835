-- ===== src/Idt/Gates.antt =====
-- The table that `idt_init` of idt.c fills.
use fors_kernel.Prelude.{
  ℕ, ◌+◌, ◌*◌, ◌/◌, ◌%◌, ◌^◌, ◌<◌, ◌≡◌, ◌≢◌, refl, ◌∙◌, inl, inr, true, false, Bool, Bool-cases,
  ◌||◌, ◌&&◌, not, Option, some, List, [], ◌∷◌, ◌==◌, ltb, leb, if◌then◌else◌, arith, length,
  length-set, get_elem?, set, get_elem?-set_self, get_elem?-set_ne,
}
use fors_kernel.Prelude.Bits.{each_under, each_under-passes}
use fors_kernel.Paging.{Paging}
use fors_kernel.Idt.{
  IdtEntry, idt_attributes, init_entry, idt_attach_handler, attach_all, isr_vectors,
  isr_error_vectors, syscall_vector, attach_handlers, idt_init,
}

-- The address that the processor takes from an entry.
abbrev pub entry_address : IdtEntry → ℕ
entry_address e = e.offset_a + 2 ^ 16 * e.offset_b + 2 ^ 32 * e.offset_c

-- A present 64-bit trap gate, of type 15, to the address `handler` in the code segment with the
-- selector 8, that software of the privilege level `dpl` may call, on the stack it would have anyway.
pub record IsGate (e : IdtEntry) (handler dpl : ℕ) : Type 0 where
  pub address : entry_address e ≡ handler
  pub selector : e.segment ≡ 8
  pub present : e.attributes / 2 ^ 15 % 2 ≡ 1
  pub level : e.attributes / 2 ^ 13 % 4 ≡ dpl
  pub system : e.attributes / 2 ^ 12 % 2 ≡ 0
  pub type : e.attributes / 2 ^ 8 % 16 ≡ 15
  pub stack : e.attributes % 8 ≡ 0

-- The exceptions of the processor but 9, 15 and those from 20 on, the timer, the keyboard, the disk
-- and the system calls.
abbrev pub is_attached : ℕ → Bool
is_attached v =
    ltb v 9
    || (leb 10 v && leb v 14)
    || (leb 16 v && leb v 19)
    || (v == 32 || v == 33)
    || (v == 46 || v == 240)

init_entry-address :
    (seg attr offset : ℕ) → offset < 2 ^ 64 → entry_address (init_entry seg attr offset) ≡ offset
unfolding init_entry
init_entry-address seg attr offset fits = omega arith

-- Whether `v` is in the list.
abbrev pub has : ℕ → List ℕ → Bool
has v [] = false
has v (u ∷ us) = v == u || has v us

attach_all-at :
    (isr : ℕ → ℕ) (attr : ℕ) (vs : List ℕ) (table : List IdtEntry) (v : ℕ)
    → v < length table
    → get_elem? (attach_all isr attr vs table) v
      ≡ (if has v vs then some (init_entry 0x08 attr (isr v)) else get_elem? table v)
unfolding attach_all idt_attach_handler
attach_all-at isr attr [] table v lt = refl
attach_all-at isr attr (u ∷ us) table v lt =
    let entry = init_entry 0x08 attr (isr u) in
    let ih =
      attach_all-at isr attr us (set table u entry) v (omega (arith, length-set table u entry)) in
    elim (Bool-cases (v == u)) [
      | inl e ↦
          let v_u : v ≡ u = ground arith in
          let here : get_elem? (set table u entry) v ≡ some (init_entry 0x08 attr (isr v)) =
            rw v_u (get_elem?-set_self table u entry (omega arith)) in
          rw e (ih ∙ elim (Bool-cases (has v us)) [ inl h ↦ rw h refl | inr h ↦ rw h here ])
      | inr e ↦
          let ne : u ≢ v = λ q. let v_v : (v == u) ≡ true = ground arith in cc in
          rw e (ih ∙ rw (get_elem?-set_ne table entry ne) refl)
    ]

length-attach_all :
    (isr : ℕ → ℕ) (attr : ℕ) (vs : List ℕ) (table : List IdtEntry)
    → length (attach_all isr attr vs table) ≡ length table
unfolding attach_all idt_attach_handler
length-attach_all isr attr [] table = refl
length-attach_all isr attr (u ∷ us) table =
    length-attach_all isr attr us (set table u (init_entry 0x08 attr (isr u)))
    ∙ length-set table u _

-- Which entry the code leaves at `v`: the kernel's gates, the one that users can call, and what was
-- there.
abbrev gate : (ℕ → ℕ) → List IdtEntry → ℕ → Option IdtEntry
gate isr table v =
    let kernel = some (init_entry 0x08 (idt_attributes 0 0xf 0) (isr v)) in
    if has v isr_error_vectors
    then kernel
    else if has v (syscall_vector ∷ [])
    then some (init_entry 0x08 (idt_attributes 3 0xf 0) (isr v))
    else if has v isr_vectors
    then kernel
    else get_elem? table v

idt_init-at :
    (isr : ℕ → ℕ) (table : List IdtEntry) (m : Paging) (v : ℕ)
    → length table ≡ 256
    → v < 256
    → get_elem? (idt_init isr table m).0 v ≡ gate isr table v
unfolding idt_init attach_handlers attach_all idt_attach_handler
idt_init-at isr table m v len lt =
    let k = idt_attributes 0 0xf 0 in
    let u = idt_attributes 3 0xf 0 in
    let first = attach_all isr k isr_vectors table in
    let second = attach_all isr u (syscall_vector ∷ []) first in
    let len1 : length first ≡ 256 = length-attach_all isr k isr_vectors table ∙ len in
    let len2 : length second ≡ 256 = length-attach_all isr u (syscall_vector ∷ []) first ∙ len1 in
    let at0 = attach_all-at isr k isr_vectors table v (omega arith) in
    let at1 = attach_all-at isr u (syscall_vector ∷ []) first v (omega arith) in
    let at2 = attach_all-at isr k isr_error_vectors second v (omega arith) in
    at2 ∙ rw (at1, at0) refl

abbrev eq_bool : Bool → Bool → Bool
eq_bool a b = if a then b else not b

same_tests :
    (c a u b w : Bool)
    → (eq_bool c a && eq_bool u b && not (w && b)) ≡ true
    → (a ≡ c) × (b ≡ u) × ((w && b) ≡ false)
same_tests c a u b w e = ground arith

-- The code's vectors, one by one.
vectors_checked :
    each_under 256 (λ v.
      eq_bool
        (has v isr_error_vectors || (has v (syscall_vector ∷ []) || has v isr_vectors))
        (is_attached v)
      && eq_bool (has v (syscall_vector ∷ [])) (v == 240)
      && not (has v isr_error_vectors && v == 240))
    ≡ true
unfolding each_under
vectors_checked = refl

kernel-IsGate :
    (offset : ℕ)
    → offset < 2 ^ 64
    → IsGate (init_entry 0x08 (idt_attributes 0 0xf 0) offset) offset 0
unfolding init_entry idt_attributes
kernel-IsGate offset fits = record {
  address = omega arith;
  selector = refl;
  present = refl;
  level = refl;
  system = refl;
  type = refl;
  stack = refl;
}

user-IsGate :
    (offset : ℕ)
    → offset < 2 ^ 64
    → IsGate (init_entry 0x08 (idt_attributes 3 0xf 0) offset) offset 3
unfolding init_entry idt_attributes
user-IsGate offset fits = record {
  address = omega arith;
  selector = refl;
  present = refl;
  level = refl;
  system = refl;
  type = refl;
  stack = refl;
}

-- What the check says of one vector.
vector_checked :
    (v : ℕ)
    → v < 256
    → (is_attached v
        ≡ (has v isr_error_vectors || (has v (syscall_vector ∷ []) || has v isr_vectors)))
      × ((v == 240) ≡ has v (syscall_vector ∷ []))
      × ((has v isr_error_vectors && v == 240) ≡ false)
vector_checked v lt = same_tests _ _ _ _ _ (each_under-passes 256 _ vectors_checked v lt)

-- What is found at a vector: a gate where one is attached, and else what was there.
abbrev pub GateAt : Bool → Option IdtEntry → Option IdtEntry → ℕ → ℕ → Type 0
GateAt true found was handler dpl = (e : IdtEntry) × (found ≡ some e) × IsGate e handler dpl
GateAt false found was handler dpl = found ≡ was

-- In a table of 256 entries, over stubs at addresses of 64 bits, `idt_init` leaves at the vector of
-- each exception that it handles, of the timer, the keyboard, the disk and the system calls a present
-- trap gate in the kernel's code segment to the vector's stub, which software of privilege level 3
-- may call for system calls and of level 0 otherwise; every other entry is as it was.
pub idt_init-gate :
    (isr : ℕ → ℕ) (table : List IdtEntry) (m : Paging) (v : ℕ)
    → length table ≡ 256
    → v < 256
    → isr v < 2 ^ 64
    → GateAt
        (is_attached v)
        (get_elem? (idt_init isr table m).0 v)
        (get_elem? table v)
        (isr v)
        (if v == 240 then 3 else 0)
idt_init-gate isr table m v len lt fits =
    let at = idt_init-at isr table m v len lt in
    let kg = init_entry 0x08 (idt_attributes 0 0xf 0) (isr v) in
    let ug = init_entry 0x08 (idt_attributes 3 0xf 0) (isr v) in
    let (attached, syscall, apart) = vector_checked v lt in
    let k = kernel-IsGate (isr v) fits in
    elim (Bool-cases (has v isr_error_vectors)) [
      | inl e ↦
          let plain : (v == 240) ≡ false = ground arith in
          let yes_v : is_attached v ≡ true = ground arith in
          rw (yes_v, plain) (kg, at ∙ rw e refl, k)
      | inr e ↦ elim (Bool-cases (has v (syscall_vector ∷ []))) [
        | inl u ↦
            let yes_v : is_attached v ≡ true = ground arith in
            rw (yes_v, syscall, u) (ug, at ∙ rw (e, u) refl, user-IsGate (isr v) fits)
        | inr u ↦ elim (Bool-cases (has v isr_vectors)) [
          | inl w ↦
              let yes_v : is_attached v ≡ true = ground arith in
              rw (yes_v, syscall, u) (kg, at ∙ rw (e, u, w) refl, k)
          | inr w ↦
              let no_v : is_attached v ≡ false = ground arith in rw no_v (at ∙ rw (e, u, w) refl)
        ]
      ]
    ]
