-- ===== src/Mouse/Tests.antt =====
-- The theorems about mouse.c at concrete inputs.
use shad_os.Base.{ℕ, ◌≡◌, refl, false, List, [], ◌∷◌, arith}
use shad_os.Base.Int.{pos, ◌+ℤ◌, ◌-ℤ◌}
use shad_os.Mouse.{Mouse, take_byte}
use shad_os.Mouse.Packet.{
  pointer, feed, packets, move_all, IsOnScreen, feed-packets, feed-IsOnScreen,
}

-- The variables at boot.
abbrev booted : Mouse
booted = record {
  cycle = 0;
  packet0 = 0;
  packet1 = 0;
  packet2 = 0;
  x = pos 40;
  y = pos 12;
  buttons = 0;
  ready = false;
}

-- A stray acknowledgement, then a packet: left button, 5 to the right, 20 up.
abbrev stream : List ℕ
stream = 0xf2 ∷ 0x09 ∷ 5 ∷ 20 ∷ []

moved : pointer (feed booted stream) ≡ record { x = pos 45; y = pos 0; buttons = 1 }
unfolding feed take_byte ◌+ℤ◌ ◌-ℤ◌
moved = refl

feed-packets_example : pointer (feed booted stream) ≡ move_all (pointer booted) (packets stream)
feed-packets_example = feed-packets booted stream refl

feed-IsOnScreen_example : IsOnScreen (feed booted stream)
feed-IsOnScreen_example = feed-IsOnScreen booted stream (omega arith)
