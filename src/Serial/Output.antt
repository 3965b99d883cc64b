-- ===== src/Serial/Output.antt =====
-- What serial.c sends over the line.
use shad_os.Base.{ℕ, ◌≡◌, Bool, true, List, [], ◌∷◌, ◌++◌, ◌==◌, if◌then◌else◌}
use shad_os.Io.{Io, Log, Device, out8, out16, out32, in8, in16, in32}
use shad_os.Serial.{com1, wait_empty}

-- The bytes that the accesses of a log put on the line, in the order in which they were made.
unfoldable pub transmitted : Log → List ℕ
transmitted [] = []
transmitted (out8 port val ∷ l) =
    if port == com1 then transmitted l ++ (val ∷ []) else transmitted l
transmitted (out16 port val ∷ l) = transmitted l
transmitted (out32 port val ∷ l) = transmitted l
transmitted (in8 port ∷ l) = transmitted l
transmitted (in16 port ∷ l) = transmitted l
transmitted (in32 port ∷ l) = transmitted l

-- A line end is sent as carriage return and line feed.
unfoldable pub with_returns : List ℕ → List ℕ
with_returns [] = []
with_returns (c ∷ s) = if c == 10 then 13 ∷ c ∷ with_returns s else c ∷ with_returns s

-- The line is ready within `polls` polls, whatever was done before.
abbrev pub IsLive : Device → ℕ → Type 0
IsLive dev polls = (l : Log) → (wait_empty dev polls l).0 ≡ true

-- A routine that ends and puts `s` on the line.
abbrev Sends : Io Bool → List ℕ → Type 0
Sends m s = (l : Log) → ((m l).0 ≡ true) × (transmitted (m l).1 ≡ transmitted l ++ s)
