-- ===== src/Serial/Tests.antt =====
-- The theorems about serial.c at concrete inputs.
use shad_os.Base.{ℕ, ◌≡◌, refl, List}
use shad_os.Base.Text.{codes}
use shad_os.Io.{Device}
use shad_os.Serial.Output.{with_returns}

-- A line that is always ready.
abbrev idle : Device
idle l p = 0x60

abbrev boot_line : List ℕ
boot_line = codes "boot\n"

shows_returns : with_returns boot_line ≡ codes "boot\r\n"
unfolding with_returns
shows_returns = refl
