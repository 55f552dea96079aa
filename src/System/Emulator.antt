-- ===== src/System/Emulator.antt =====
-- src/main.cpp: the emulator's own program, which runs one instruction on a machine with no monitor.
use sys.Base.{
  ◌⊎◌, inl, inr, Option, none, some, [], ◌∷◌, replicate, length, ◌≡◌, refl, ap, ◌∙◌, arith,
}
use sys.Cpu.Clock.{reset, execute_instruction}
use sys.Cpu.Cycle.{IsBetween}
use sys.Cpu.State.{Cpu, new_cpu}
use sys.Isa.Machine.{visible}
use sys.Isa.Step.{isa_step}
use sys.Memory.Bus.{
  Bus, InvalidArgument, attach, any_overlap, overlaps, device_at, bus_access, bus_access-ReadsBytes,
}
use sys.Memory.Device.{ram, rom, size}
use sys.Memory.Ram.{Ram, new_ram}
use sys.Memory.Rom.{Rom}
use sys.Refinement.Instruction.{execute_instruction-isa_step}
use sys.Refinement.Run.{isa_reset, reset-isa_reset}
use sys.System.MemoryMap.{length-replicate}

-- The two calls of `attach`.
unfoldable attach_both : Ram → Rom → InvalidArgument ⊎ Bus
attach_both r m =
    elim (attach 0x0000 0x7FFF 0 (record { mappings = []; devices = ram r ∷ rom m ∷ [] })) [
      | inl e ↦ inl e
      | inr bus ↦ attach 0x8000 0xFFFF 1 bus
    ]

-- `main` after the two devices are made; its output is not modelled.
unfoldable emulate : Ram → Rom → InvalidArgument ⊎ Option (Cpu Bus)
unfolding attach_both
emulate r m = elim (attach_both r m) [
  | inl e ↦ inl e
  | inr bus ↦ inr (elim (reset (new_cpu bus)) [ none ↦ none | some c ↦ execute_instruction c ])
]

unfoldable emulator : InvalidArgument ⊎ Option (Cpu Bus)
unfolding emulate
emulator = emulate (new_ram 0x8000) (record { bytes = replicate 0x8000 0 })

first_attached :
    (r : Ram) (m : Rom)
    → length r.bytes ≡ 0x8000
    → attach 0x0000 0x7FFF 0 (record { mappings = []; devices = ram r ∷ rom m ∷ [] })
      ≡ inr (record {
        mappings = record { start = 0x0000; last = 0x7FFF; device = 0 } ∷ [];
        devices = ram r ∷ rom m ∷ [];
      })
unfolding attach any_overlap overlaps device_at size
first_attached r m h = ground (arith, h)

second_attached :
    (r : Ram) (m : Rom)
    → length m.bytes ≡ 0x8000
    → (bus : Bus) × (attach 0x8000 0xFFFF 1 (record {
      mappings = record { start = 0x0000; last = 0x7FFF; device = 0 } ∷ [];
      devices = ram r ∷ rom m ∷ [];
    })
        ≡ inr bus)
unfolding attach any_overlap overlaps device_at size
second_attached r m h = (
  record {
    mappings =
        record { start = 0x0000; last = 0x7FFF; device = 0 }
        ∷ record { start = 0x8000; last = 0xFFFF; device = 1 }
        ∷ [];
    devices = ram r ∷ rom m ∷ [];
  },
  ground (arith, h),
)

both_attached :
    (r : Ram) (m : Rom) (b b' : Bus)
    → attach 0x0000 0x7FFF 0 (record { mappings = []; devices = ram r ∷ rom m ∷ [] }) ≡ inr b
    → attach 0x8000 0xFFFF 1 b ≡ inr b'
    → attach_both r m ≡ inr b'
unfolding attach_both
both_attached r m b b' e f = ground arith

comes_through :
    (r : Ram) (m : Rom) (bus : Bus) (c c' : Cpu Bus)
    → attach_both r m ≡ inr bus
    → reset (new_cpu bus) ≡ some c
    → execute_instruction c ≡ some c'
    → emulate r m ≡ inr (some c')
unfolding emulate
comes_through r m bus c c' e f g = ground (arith, e, f, g)

-- The program throws nothing and comes to its end, between two instructions, after the documented
-- reset and one documented instruction.
emulator-ends :
    (bus : Bus) × (c : Cpu Bus) × (emulator ≡ inr (some c))
    × IsBetween c
    × (visible c ≡ isa_step (isa_reset (visible (new_cpu bus))))
emulator-ends =
    let r : Ram = new_ram 0x8000 in
    let m : Rom = record { bytes = replicate 0x8000 0 } in
    let first = first_attached r m (length-replicate 0x8000 0) in
    let (bus, second) = second_attached r m (length-replicate 0x8000 0) in
    let (c, begun, same, between) = reset-isa_reset (new_cpu bus) (unfold new_cpu in refl) in
    let (c', ran, one, still) = execute_instruction-isa_step c bus_access-ReadsBytes between in
    (
      bus,
      c',
      (unfold emulator in
          comes_through r m bus c c' (both_attached r m _ bus first second) begun ran),
      still,
      one ∙ ap isa_step same,
    )
