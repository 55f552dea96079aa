-- ===== src/System/Monitor/Frames.antt =====
-- The stack in the RAM around a call.
use sys.Base.{ℕ, ◌+◌, ◌/◌, ◌%◌, ◌≡◌, ◌≢◌, ap, ◌∙◌, arith, length, u8, u16, join, IsByte, length-set}
use sys.Isa.Trace.Stack.{slot}
use sys.Memory.Ram.{Ram, write as ram_write}
use sys.System.Monitor.Writes.{byte_in, pushed_here, pushed_elsewhere, return_in}

-- The RAM after a call from behind which w is the last byte.
abbrev pub with_return : Ram → ℕ → ℕ → Ram
with_return r sp w =
    ram_write (ram_write r (slot sp) (u8 (w / 256))) (slot (u8 (sp + 255))) (w % 256)

pub length-with_return : (r : Ram) (sp w : ℕ) → length (with_return r sp w).bytes ≡ length r.bytes
length-with_return r sp w =
    length-set (ram_write r (slot sp) (u8 (w / 256))).bytes (slot (u8 (sp + 255))) (u8 (w % 256))
    ∙ length-set r.bytes (slot sp) (u8 (u8 (w / 256)))

-- A call leaves the rest of the RAM.
pub kept_by_call :
    (r : Ram) (sp w i : ℕ)
    → slot sp ≢ i
    → slot (u8 (sp + 255)) ≢ i
    → byte_in (with_return r sp w) i ≡ byte_in r i
kept_by_call r sp w i h k =
    pushed_elsewhere (ram_write r (slot sp) (u8 (w / 256))) (slot (u8 (sp + 255))) i (w % 256) k
    ∙ pushed_elsewhere r (slot sp) i (u8 (w / 256)) h

pub high_pushed :
    (r : Ram) (sp w : ℕ)
    → length r.bytes ≡ 0x8000
    → IsByte sp
    → byte_in (with_return r sp w) (slot sp) ≡ u8 (w / 256)
high_pushed r sp w whole b =
    pushed_elsewhere (ram_write r (slot sp) (u8 (w / 256))) (slot (u8 (sp + 255))) (slot sp)
      (w % 256) (λ e. omega (arith, e))
    ∙ pushed_here r (slot sp) (u8 (w / 256)) (omega (arith, whole))
    ∙ omega arith

pub low_pushed :
    (r : Ram) (sp w : ℕ)
    → length r.bytes ≡ 0x8000
    → byte_in (with_return r sp w) (slot (u8 (sp + 255))) ≡ w % 256
low_pushed r sp w whole =
    pushed_here (ram_write r (slot sp) (u8 (w / 256))) (slot (u8 (sp + 255))) (w % 256)
      (omega (arith, whole, length-set r.bytes (slot sp) (u8 (u8 (w / 256)))))
    ∙ omega arith

-- A return from a call goes behind it.
pub return_in-with_return :
    (r : Ram) (sp w : ℕ)
    → length r.bytes ≡ 0x8000
    → IsByte sp
    → return_in (with_return r sp w) (u8 (u8 (sp + 255) + 255))
      ≡ u16 (join (w % 256 % 256) (u8 (w / 256)) + 1)
unfolding return_in
return_in-with_return r sp w whole b =
    let low : u8 (u8 (u8 (sp + 255) + 255) + 1) ≡ u8 (sp + 255) = omega arith in
    let high : u8 (u8 (u8 (u8 (sp + 255) + 255) + 1) + 1) ≡ sp = omega arith in
    let r' = with_return r sp w in
    ap
      (λ (i : ℕ). u16 (
        join (byte_in r' (slot i) % 256)
          (byte_in r' (slot (u8 (u8 (u8 (u8 (sp + 255) + 255) + 1) + 1))))
        + 1))
      low
    ∙ ap (λ (i : ℕ). u16 (join (byte_in r' (slot (u8 (sp + 255))) % 256) (byte_in r' (slot i)) + 1))
        high
    ∙ ap (λ (v : ℕ). u16 (join (v % 256) (byte_in r' (slot sp)) + 1)) (low_pushed r sp w whole)
    ∙ ap (λ (v : ℕ). u16 (join (w % 256 % 256) v + 1)) (high_pushed r sp w whole b)

-- What a return finds depends on the two places above the stack pointer alone.
pub return_in-same :
    (r r' : Ram) (sp : ℕ)
    → byte_in r' (slot (u8 (sp + 1))) ≡ byte_in r (slot (u8 (sp + 1)))
    → byte_in r' (slot (u8 (u8 (sp + 1) + 1))) ≡ byte_in r (slot (u8 (u8 (sp + 1) + 1)))
    → return_in r' sp ≡ return_in r sp
unfolding return_in
return_in-same r r' sp e f =
    ap (λ (v : ℕ). u16 (join (v % 256) (byte_in r' (slot (u8 (u8 (sp + 1) + 1)))) + 1)) e
    ∙ ap (λ (v : ℕ). u16 (join (byte_in r (slot (u8 (sp + 1))) % 256) v + 1)) f
