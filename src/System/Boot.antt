-- ===== src/System/Boot.antt =====
-- src/system/system.cpp: the constructor with the monitor that it installs, and the first `reset`.
use sys.Base.{
  ℕ, [], ◌∷◌, ◌+◌, ◌<◌, ◌≡◌, refl, ap, ◌∙◌, arith, true, false, Option, none, some, inr, List, u8,
  join,
}
use sys.Cpu.Clock.{reset}
use sys.Cpu.Cycle.{IsBetween}
use sys.Cpu.State.{Cpu, new_cpu}
use sys.Isa.Machine.{Machine, visible}
use sys.Memory.Bus.{Bus, bus_access, bus_read, device_at}
use sys.Memory.Ram.{Ram, new_ram}
use sys.Memory.Rom.{Rom}
use sys.Peripherals.Tty.{Tty, new_tty}
use sys.Refinement.Run.{isa_reset, reset-isa_reset}
use sys.System.{
  System, new_system, new_rom, ram_size, attach_devices, install_monitor, rom_of, put_rom,
  system_reset,
}
use sys.System.Monitor.{HasMonitor, ram_reads, vector_code}
use sys.Isa.Trace.{ReadsAs, CodeAt, cons}
use sys.System.Firmware.{install}
use sys.System.Firmware.Layout.{install-AllHold, free_offset}
use sys.System.MemoryMap.{wired, wired_over, attach_devices-memory_map, length-replicate}

-- The bus of a system that has been made.
unfoldable pub booted : Option (List ℕ) → Bus
booted tape = wired_over (new_ram ram_size) (new_tty tape) (install new_rom).1

installed :
    (r : Ram) (t : Tty) (m : Rom)
    → (install m).0 ≡ none
    → install_monitor (wired_over r t m) ≡ (none, wired_over r t (install m).1)
unfolding install_monitor rom_of put_rom device_at
installed r t m e = ground (arith, e)

module _ {T : Type 0} where
  constructed :
      (term : T) (tape : Option (List ℕ)) (bus bus' : Bus)
      → attach_devices new_rom tape ≡ inr bus
      → install_monitor bus ≡ (none, bus')
      → new_system term tape ≡ inr (record { term = term; cpu = new_cpu bus' })
  unfolding new_system
  constructed term tape bus bus' e f = ground arith

  pub new_system_lem :
      (term : T) (tape : Option (List ℕ))
      → new_system term tape ≡ inr (record { term = term; cpu = new_cpu (booted tape) })
  unfolding booted
  new_system_lem term tape =
      let size = length-replicate 0x4000 0 in
      let (attached, _, _) = attach_devices-memory_map new_rom tape 0 size (omega arith) in
      let (silent, _, _) = install-AllHold new_rom 0x3000 size free_offset in
      constructed term tape (wired new_rom tape) _ attached
        (unfold wired in installed (new_ram ram_size) (new_tty tape) new_rom silent)

pub booted-HasMonitor : (tape : Option (List ℕ)) → HasMonitor (booted tape)
unfolding booted
booted-HasMonitor tape = record {
  ram = new_ram ram_size;
  tty = new_tty tape;
  rom = (install new_rom).1;
  wires = refl;
  held = (install-AllHold new_rom 0x3000 (length-replicate 0x4000 0) free_offset).1;
  sized = length-replicate 0x8000 0;
}

reset_word :
    (m : Machine Bus) (a lo hi : ℕ)
    → ReadsAs m.bus m.pc a
    → ReadsAs m.bus 0xFFFC lo
    → ReadsAs m.bus 0xFFFD hi
    → isa_reset m ≡ record m {
      sp = u8 (u8 (u8 (m.sp + 255) + 255) + 255);
      p_flags = record (m.p_flags) { i = true };
      halted = false;
      pc = join lo hi;
    }
unfolding isa_reset
reset_word m a lo hi e f g =
    let ended : ℕ → ℕ → Bus → Machine Bus = λ lo hi bus. record m {
      bus = bus;
      sp = u8 (u8 (u8 (m.sp + 255) + 255) + 255);
      p_flags = record (m.p_flags) { i = true };
      halted = false;
      pc = join lo hi;
    } in
    let from : Bus → Machine Bus =
      λ bus. let l = bus_read bus 0xFFFC in let h = bus_read l.1 0xFFFD in ended l.0 h.0 h.1 in
    ap (λ (r : ℕ × Bus). from (bus_read r.1 m.pc).1) e
    ∙ ap (λ (r : ℕ × Bus). from r.1) e
    ∙ ap (λ (r : ℕ × Bus). ended r.0 (bus_read r.1 0xFFFD).0 (bus_read r.1 0xFFFD).1) f
    ∙ ap (λ (r : ℕ × Bus). ended lo r.0 r.1) g

vector_loaded :
    (m : Machine Bus) (lo hi : ℕ)
    → HasMonitor m.bus
    → m.pc < 0x8000
    → CodeAt m.bus 0xFFFC (lo ∷ hi ∷ [])
    → isa_reset m ≡ record m {
      sp = u8 (u8 (u8 (m.sp + 255) + 255) + 255);
      p_flags = record (m.p_flags) { i = true };
      halted = false;
      pc = join lo hi;
    }
vector_loaded m lo hi v h (cons e (cons f _)) = reset_word m _ lo hi (ram_reads m.bus m.pc v h) e f

cold_start :
    (bus : Bus)
    → HasMonitor bus
    → isa_reset (visible (new_cpu bus)) ≡ record (visible (new_cpu bus)) {
      pc = 0xCF00;
      sp = 0xFD;
      p_flags = record ((new_cpu bus).p_flags) { i = true };
      halted = false;
    }
unfolding visible new_cpu join
cold_start bus v =
    vector_loaded (visible (new_cpu bus)) 0x00 0xCF v (omega arith) (vector_code bus v)

module _ {T : Type 0} where
  started :
      (s : System T) (c : Cpu Bus)
      → reset s.cpu ≡ some c
      → system_reset s ≡ some (record s { cpu = c })
  unfolding system_reset
  started s c e = ground arith

  -- The constructor throws nothing, whatever the terminal and the tape, and its bus is the wired
  -- one with the monitor in the ROM. The first `reset` then comes to the start of the first
  -- instruction of COLD_START at $CF00, with the stack pointer at $FD, interrupts off and the CPU
  -- not halted, and changes nothing in the devices.
  pub new_system-system_reset :
      (term : T) (tape : Option (List ℕ))
      → (s : System T) × (s' : System T) × (new_system term tape ≡ inr s)
        × HasMonitor s.cpu.bus
        × (system_reset s ≡ some s')
        × IsBetween s'.cpu
        × (visible s'.cpu ≡ record (visible s.cpu) {
          pc = 0xCF00;
          sp = 0xFD;
          p_flags = record (s.cpu.p_flags) { i = true };
          halted = false;
        })
        × (s'.term ≡ term)
  unfolding new_cpu
  new_system-system_reset term tape =
      let s : System T = record { term = term; cpu = new_cpu (booted tape) } in
      let v = booted-HasMonitor tape in
      let (c, ran, same, between) = reset-isa_reset s.cpu refl in
      (
        s,
        record s { cpu = c },
        new_system_lem term tape,
        v,
        started s c ran,
        between,
        same ∙ cold_start (booted tape) v,
        refl,
      )
