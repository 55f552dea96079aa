-- ===== src/System/MemoryMap.antt =====
-- src/system/system.cpp: the constructor's memory map.
use sys.Base.{
  ℕ, Option, none, some, inr, List, [], ◌∷◌, ◌≡◌, refl, ap, arith, length, replicate, zero, suc,
  IsWord, ltb, if◌then◌else◌,
}
use sys.Memory.Bus.{Mapping, Bus, attach, find_mapping, contains, any_overlap, overlaps, device_at}
use sys.Memory.Bus.WellFormed.{IsWellFormed, nil, cons}
use sys.Memory.Device.{ram, tty, rom, size}
use sys.Memory.Ram.{Ram, new_ram}
use sys.Memory.Rom.{Rom}
use sys.Peripherals.Tty.{Tty, new_tty}
use sys.System.{attach_all, attach_devices, ram_size}

pub length-replicate : (n a : ℕ) → length (replicate n a) ≡ n
length-replicate zero a = refl
length-replicate (suc n) a = ap suc (length-replicate n a)

-- The three ranges that the constructor asks for.
abbrev pub ram_mapping : Mapping
ram_mapping = record { start = 0x0000; last = 0x7FFF; device = 0 }

abbrev pub tty_mapping : Mapping
tty_mapping = record { start = 0x8000; last = 0x80FF; device = 1 }

abbrev pub rom_mapping : Mapping
rom_mapping = record { start = 0xC000; last = 0xFFFF; device = 2 }

abbrev pub wired_over : Ram → Tty → Rom → Bus
wired_over r t m = record {
  mappings = ram_mapping ∷ tty_mapping ∷ rom_mapping ∷ [];
  devices = ram r ∷ tty t ∷ rom m ∷ [];
}

unfoldable pub wired : Rom → Option (List ℕ) → Bus
wired firmware tape = wired_over (new_ram ram_size) (new_tty tape) firmware

pub accepted :
    (r : Ram) (t : Tty) (m : Rom)
    → length r.bytes ≡ 0x8000
    → length m.bytes ≡ 0x4000
    → (attach 0x0000 0x7FFF 0 (record { mappings = []; devices = ram r ∷ tty t ∷ rom m ∷ [] })
        ≡ inr (record { mappings = ram_mapping ∷ []; devices = ram r ∷ tty t ∷ rom m ∷ [] }))
      × (attach 0x8000 0x80FF 1
            (record { mappings = ram_mapping ∷ []; devices = ram r ∷ tty t ∷ rom m ∷ [] })
          ≡ inr (record {
            mappings = ram_mapping ∷ tty_mapping ∷ [];
            devices = ram r ∷ tty t ∷ rom m ∷ [];
          }))
      × (attach 0xC000 0xFFFF 2 (record {
        mappings = ram_mapping ∷ tty_mapping ∷ [];
        devices = ram r ∷ tty t ∷ rom m ∷ [];
      })
          ≡ inr (wired_over r t m))
unfolding attach any_overlap overlaps device_at size
accepted r t m h k = (ground arith, ground arith, ground arith)

pub wired-IsWellFormed :
    (r : Ram) (t : Tty) (m : Rom)
    → length r.bytes ≡ 0x8000
    → length m.bytes ≡ 0x4000
    → IsWellFormed (wired_over r t m)
unfolding any_overlap overlaps device_at size
wired-IsWellFormed r t m h k =
    cons (record { in_order = omega arith; whole = omega (arith, h) }) refl
      (cons (record { in_order = omega arith; whole = omega arith }) refl
        (cons (record { in_order = omega arith; whole = omega (arith, k) }) refl nil))

pub chained :
    (b₀ b₁ b₂ b₃ : Bus)
    → attach 0x0000 0x7FFF 0 b₀ ≡ inr b₁
    → attach 0x8000 0x80FF 1 b₁ ≡ inr b₂
    → attach 0xC000 0xFFFF 2 b₂ ≡ inr b₃
    → attach_all b₀ ≡ inr b₃
unfolding attach_all
chained b₀ b₁ b₂ b₃ e₁ e₂ e₃ = ground arith

-- With a firmware of 16 KB, the `attach` calls of the constructor succeed, their bus is
-- well-formed, and it routes an address below 0x8000 to the RAM, one below 0x8100 to the TTY, one
-- from 0xC000 to the ROM, and no other.
pub attach_devices-memory_map :
    (firmware : Rom) (tape : Option (List ℕ)) (addr : ℕ)
    → length firmware.bytes ≡ 0x4000
    → IsWord addr
    → (attach_devices firmware tape ≡ inr (wired firmware tape))
      × IsWellFormed (wired firmware tape)
      × (find_mapping addr (wired firmware tape).mappings ≡ (
          if ltb addr 0x8000
          then some ram_mapping
          else if ltb addr 0x8100
          then some tty_mapping
          else if ltb addr 0xC000
          then none
          else some rom_mapping))
unfolding wired
attach_devices-memory_map firmware tape addr h w =
    let size_of_ram = length-replicate ram_size 0 in
    let (e₁, e₂, e₃) = accepted (new_ram ram_size) (new_tty tape) firmware size_of_ram h in
    (
      (unfold attach_devices in chained _ _ _ _ e₁ e₂ e₃),
      wired-IsWellFormed (new_ram ram_size) (new_tty tape) firmware size_of_ram h,
      (unfold find_mapping contains in ground arith),
    )
