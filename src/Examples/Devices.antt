-- ===== src/Examples/Devices.antt =====
-- The bus, the TTY and the loader at concrete inputs.
use sys.Base.{
  length, ◌%◌, ℕ, ◌+◌, ◌-◌, ◌≤◌, ◌<◌, ◌≡◌, ◌↔◌, ◌⊎◌, get_or, set, refl, arith, none, some, inr,
  List, [], ◌∷◌, ◌++◌, map, u8, ◌==◌, if◌then◌else◌,
}
use sys.Examples.Machines.{small_ram, small_mapping, small_bus, small_bus-IsWellFormed}
use sys.Memory.Bus.{
  Mapping, Bus, attach, device_at, find_mapping, contains, any_overlap, overlaps, bus_read,
  bus_write,
}
use sys.Memory.Bus.Access.{
  access-IsWellFormed, find_mapping-in_bounds, bus_read-bus_write, bus_read-bus_write_ne,
}
use sys.Memory.Bus.WellFormed.{
  nil as none_mapped, cons as mapped, IsWellFormed, IsFree, attach-IsWellFormed, attach_iff,
}
use sys.Memory.Device.{ram, rom, size, read as device_get, write as device_put}
use sys.Memory.Rom.{Rom}
use sys.Peripherals.Tty.{Tty, new_tty, receive, read, write}
use sys.Peripherals.Tty.Replay.{write_all, read_all, rewind, replay}
use sys.Peripherals.Tty.Serial.{receive_lem, out-write}
use sys.Peripherals.Tty.Tape.{IsOnTape, access-IsOnTape}
use sys.Utils.ProgramLoader.{strip, load_program, odd_digit_count, invalid_hex_character}
use sys.Utils.ProgramLoader.Errors.{all_digits, leading_bytes, load_program_lem}
use sys.Utils.ProgramLoader.Decode.{IsListing, nil, pair, write_bytes, load_program-listing}
use sys.Utils.ProgramLoader.RamImage.{load_program-ram}
use sys.Utils.ProgramLoader.WhiteSpace.{Spaced, gap, character, nil as no_text}
use sys.Memory.Bus.Reach.{IsUnmapped, IsOnlyIn, access_lem}

-- The small machine with a ROM of two bytes in the store, not yet attached.
abbrev small_rom : Rom
small_rom = record { bytes = 0xEA ∷ 0xEA ∷ [] }

abbrev rom_mapping : Mapping
rom_mapping = record { start = 16; last = 17; device = 1 }

abbrev unattached : Bus
unattached = record { mappings = small_mapping ∷ []; devices = ram small_ram ∷ rom small_rom ∷ [] }

abbrev attached : Bus
attached = record {
  mappings = small_mapping ∷ rom_mapping ∷ [];
  devices = ram small_ram ∷ rom small_rom ∷ [];
}

unattached-IsWellFormed : IsWellFormed unattached
unfolding any_overlap device_at size
unattached-IsWellFormed = mapped (record { in_order = omega arith; whole = refl }) refl none_mapped

attaches : attach 16 17 1 unattached ≡ inr attached
unfolding attach any_overlap overlaps device_at size
attaches = refl

attach-IsWellFormed_example : IsWellFormed attached
attach-IsWellFormed_example =
    attach-IsWellFormed 16 17 1 unattached attached unattached-IsWellFormed attaches

attach_iff_example :
    ((bus' : Bus) × (attach 8 9 1 unattached ≡ inr bus'))
    ↔ ((8 ≤ 9) × (9 - 8 + 1 ≡ size (device_at unattached.devices 1)) × IsFree 8 9 unattached)
attach_iff_example = attach_iff 8 9 1 unattached unattached-IsWellFormed

access_lem_example :
    (IsUnmapped 3 small_bus.mappings
      × (bus_read small_bus 3 ≡ (0xFF, small_bus))
      × (bus_write small_bus 3 7 ≡ small_bus))
    ⊎ ((m : Mapping) × IsOnlyIn 3 m small_bus.mappings
        × (bus_read small_bus 3 ≡ (
          u8 (device_get (device_at small_bus.devices m.device) (3 - m.start)).0,
          record small_bus {
            devices =
                set small_bus.devices m.device
                  (device_get (device_at small_bus.devices m.device) (3 - m.start)).1;
          },
        ))
        × (bus_write small_bus 3 7 ≡ record small_bus {
          devices =
              set small_bus.devices m.device
                (device_put (device_at small_bus.devices m.device) (3 - m.start) 7);
        }))
access_lem_example = access_lem small_bus 3 7 small_bus-IsWellFormed

access-IsWellFormed_example :
    IsWellFormed (bus_read small_bus 3).1 × IsWellFormed (bus_write small_bus 3 7)
access-IsWellFormed_example = access-IsWellFormed small_bus 3 7 small_bus-IsWellFormed

find_mapping-in_bounds_example :
    (small_mapping.start ≤ 3)
    × (3 ≤ small_mapping.last)
    × (3 - small_mapping.start < size (device_at small_bus.devices small_mapping.device))
find_mapping-in_bounds_example =
    find_mapping-in_bounds small_bus.devices small_bus.mappings 3 small_mapping
      small_bus-IsWellFormed (unfold find_mapping contains in refl)

bus_read-bus_write_example : (bus_read (bus_write small_bus 3 7) 3).0 ≡ 7
bus_read-bus_write_example =
    bus_read-bus_write small_bus 3 7 small_mapping small_ram small_bus-IsWellFormed
      (unfold find_mapping contains in refl) (unfold device_at in refl) (omega arith)

bus_read-bus_write_ne_example : (bus_read (bus_write attached 3 7) 16).0 ≡ (bus_read attached 16).0
bus_read-bus_write_ne_example =
    bus_read-bus_write_ne attached 3 16 7 small_mapping rom_mapping
      (unfold find_mapping contains in refl) (unfold find_mapping contains in refl) (λ e. cc)

abbrev blank_tape : Tty
blank_tape = new_tty (some [])

receive_lem_example :
    ((read (receive blank_tape 65) 0).0 ≡ 0x03)
    × ((read (receive blank_tape 65) 1).0 ≡ 65)
    × ((read (read (receive blank_tape 65) 1).1 0).0 ≡ 0x02)
    × (receive (receive blank_tape 65) 66 ≡ receive blank_tape 65)
receive_lem_example = receive_lem blank_tape 65 66 refl (omega arith)

out-write_example :
    (write blank_tape 1 65).out
    ≡ (if 1 == 1 then blank_tape.out ++ (u8 65 ∷ []) else blank_tape.out)
out-write_example = out-write blank_tape 1 65

access-IsOnTape_example :
    IsOnTape (read blank_tape 4).1
    × IsOnTape (write blank_tape 4 65)
    × IsOnTape (receive blank_tape 65)
access-IsOnTape_example = access-IsOnTape blank_tape 4 65 (omega arith)

replay_example :
    read_all 2 (rewind (write_all (rewind blank_tape) (1 ∷ 2 ∷ []))) ≡ map u8 (1 ∷ 2 ∷ [])
replay_example = replay blank_tape [] (1 ∷ 2 ∷ []) refl

-- The text "A9", line feed, " 2a".
abbrev listing : List ℕ
listing = 65 ∷ 57 ∷ 10 ∷ 32 ∷ 50 ∷ 97 ∷ []

abbrev listed_digits : List ℕ
listed_digits = 65 ∷ 57 ∷ 50 ∷ 97 ∷ []

abbrev listed_bytes : List ℕ
listed_bytes = 0xA9 ∷ 0x2A ∷ []

listing-Spaced : Spaced listing listed_digits
listing-Spaced =
    character (λ w. ground arith)
      (character (λ w. ground arith)
        (gap (ground arith) (
          gap (ground arith)
            (character (λ w. ground arith) (character (λ w. ground arith) no_text)))))

listed_digits-IsListing : IsListing listed_digits listed_bytes
listed_digits-IsListing =
    pair {h = 10} {l = 9} (ground arith) (ground arith)
      (pair {h = 2} {l = 10} (ground arith) (ground arith) nil)

load_program-listing_example :
    load_program (ram small_ram) 1 listing
    ≡ (none, write_bytes device_put (ram small_ram) 1 listed_bytes)
load_program-listing_example =
    load_program-listing (ram small_ram) 1 listing listed_digits listed_bytes listing-Spaced
      listed_digits-IsListing

load_program-ram_example :
    ((load_program (ram small_ram) 1 listing).0 ≡ none)
    × ((i : ℕ)
        → i < length listed_bytes
        → (device_get (load_program (ram small_ram) 1 listing).1 (1 + i)).0
          ≡ get_or listed_bytes i 0)
    × ((j : ℕ)
        → (j < 1) ⊎ (1 + length listed_bytes ≤ j)
        → (device_get (load_program (ram small_ram) 1 listing).1 j).0
          ≡ (device_get (ram small_ram) j).0)
load_program-ram_example =
    load_program-ram small_ram 1 listing listed_digits listed_bytes listing-Spaced
      listed_digits-IsListing (unfold size in omega arith) (unfold size in omega arith)

-- A9, then a pair that is not two digits.
abbrev bad_listing : List ℕ
bad_listing = 65 ∷ 57 ∷ 71 ∷ 65 ∷ []

load_program_lem_example :
    Spaced bad_listing (strip bad_listing)
    × (load_program (ram small_ram) 0 bad_listing ≡ (
        if length (strip bad_listing) % 2 == 0
        then (
          (if all_digits (strip bad_listing) then none else some invalid_hex_character),
          write_bytes device_put (ram small_ram) 0 (leading_bytes (strip bad_listing)),
        )
        else (some odd_digit_count, ram small_ram)))
load_program_lem_example = load_program_lem (ram small_ram) 0 bad_listing
