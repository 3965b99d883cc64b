-- ===== src/Io.antt =====
-- io.h: the port instructions. What a port gives is the hardware's: the parameter `dev` of the
-- drivers says what the next read of a port returns after the accesses made so far.
use shad_os.Base.{ℕ, ◌%◌, List, ◌∷◌}

-- One executed port instruction.
pub data Access : Type 0 where
  out8 : (port val : ℕ) → Access
  out16 : (port val : ℕ) → Access
  out32 : (port val : ℕ) → Access
  in8 : (port : ℕ) → Access
  in16 : (port : ℕ) → Access
  in32 : (port : ℕ) → Access

-- The accesses so far, the last one first.
abbrev pub Log : Type 0
Log = List Access

abbrev pub Device : Type 0
Device = Log → (port : ℕ) → ℕ

-- A driver routine takes the accesses before it and returns those up to its end.
abbrev pub Io : Type 0 → Type 0
Io A = Log → A × Log

infixl 5 ◌>>=◌ ◌>>◌
abbrev pub ◌>>=◌ : {A B : Type 0} → Io A → (A → Io B) → Io B
(m >>= f) l = f (m l).0 (m l).1

abbrev pub ◌>>◌ : {A B : Type 0} → Io A → Io B → Io B
(m >> k) l = k (m l).1

abbrev pub pure : {A : Type 0} → A → Io A
pure a l = (a, l)

abbrev pub outb : ℕ → ℕ → Io (Unit {0})
outb port val l = (tt, out8 port val ∷ l)

abbrev pub outw : ℕ → ℕ → Io (Unit {0})
outw port val l = (tt, out16 port val ∷ l)

abbrev pub outl : ℕ → ℕ → Io (Unit {0})
outl port val l = (tt, out32 port val ∷ l)

abbrev pub io_wait : Io (Unit {0})
io_wait = outb 0x80 0

module _ (dev : Device) where
  abbrev pub inb : ℕ → Io ℕ
  inb port l = (dev l port % 0x100, in8 port ∷ l)

  abbrev pub inw : ℕ → Io ℕ
  inw port l = (dev l port % 0x1_0000, in16 port ∷ l)

  abbrev pub inl : ℕ → Io ℕ
  inl port l = (dev l port % 0x1_0000_0000, in32 port ∷ l)
