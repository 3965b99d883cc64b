-- ===== src/Mouse/Packet.antt =====
-- The byte machine of mouse.c against packets of three bytes.
use shad_os.Base.{
  ℕ, ◌<◌, ◌≡◌, refl, ◌∙◌, ap, subst, sym, true, false, List, [], ◌∷◌, bit_and, arith, ◌==◌,
  if◌then◌else◌, Bool-cases, inl, inr,
}
use shad_os.Base.Int.{ℤ, pos, ◌+ℤ◌, ◌-ℤ◌, ◌≤ℤ◌, signed8}
use shad_os.Mouse.{Mouse, clamp300, take_byte}

unfoldable pub feed : Mouse → List ℕ → Mouse
feed s [] = s
feed s (b ∷ bs) = feed (take_byte s b).0 bs

-- What a packet moves.
pub record Pointer : Type 0 where
  pub x : ℤ
  pub y : ℤ
  pub buttons : ℕ

abbrev pub pointer : Mouse → Pointer
pointer s = record { x = s.x; y = s.y; buttons = s.buttons }

-- The packets of a stream: a byte without bit 3 where one should begin is skipped, and so is an
-- unfinished packet at the end.
unfoldable pub packets : List ℕ → List (ℕ × ℕ × ℕ)
packets [] = []
packets (a ∷ []) = []
packets (a ∷ b ∷ []) = []
packets (a ∷ b ∷ c ∷ bs) =
    let skipped = packets (b ∷ c ∷ bs) in
    let taken = (a, b, c) ∷ packets bs in if bit_and a 0x08 == 0 then skipped else taken

-- The pointer after a packet: the vertical movement counts upwards.
unfoldable pub move : Pointer → ℕ × ℕ × ℕ → Pointer
unfolding clamp300
move p (flags, dx, dy) = record {
  x = clamp300 (p.x +ℤ signed8 dx);
  y = clamp300 (p.y -ℤ signed8 dy);
  buttons = bit_and flags 0x07;
}

unfoldable pub move_all : Pointer → List (ℕ × ℕ × ℕ) → Pointer
move_all p [] = p
move_all p (k ∷ ks) = move_all (move p k) ks

-- A byte that cannot begin a packet changes nothing.
skip_byte : (s : Mouse) (a : ℕ) → s.cycle ≡ 0 → (bit_and a 0x08 == 0) ≡ true → (take_byte s a).0 ≡ s
unfolding take_byte
skip_byte s a start bad = rw (start, bad)

-- Three bytes from the start of a packet on.
take_packet :
    (s : Mouse) (a b c : ℕ)
    → s.cycle ≡ 0
    → (bit_and a 0x08 == 0) ≡ false
    → let t = (take_byte (take_byte (take_byte s a).0 b).0 c).0 in
      (t.cycle ≡ 0) × (pointer t ≡ move (pointer s) (a, b, c))
unfolding take_byte move
take_packet s a b c start good = rw (start, good) (refl, refl)

-- Fewer bytes move nothing.
one_byte : (s : Mouse) (a : ℕ) → s.cycle ≡ 0 → pointer (take_byte s a).0 ≡ pointer s
unfolding take_byte
one_byte s a start = ground arith

two_bytes :
    (s : Mouse) (a b : ℕ) → s.cycle ≡ 0 → pointer (take_byte (take_byte s a).0 b).0 ≡ pointer s
unfolding take_byte
two_bytes s a b start = ground arith

-- From the start of a packet, whatever bytes come, the driver moves its pointer by the packets
-- that they hold.
pub feed-packets :
    (s : Mouse) (bytes : List ℕ)
    → s.cycle ≡ 0
    → pointer (feed s bytes) ≡ move_all (pointer s) (packets bytes)
unfolding feed packets move_all
feed-packets s [] start = refl
feed-packets s (a ∷ []) start = one_byte s a start
feed-packets s (a ∷ b ∷ []) start = two_bytes s a b start
feed-packets s (a ∷ b ∷ c ∷ bs) start = elim (Bool-cases (bit_and a 0x08 == 0)) [
  | inl bad ↦ rw bad (
      subst (λ t. pointer (feed t (b ∷ c ∷ bs)) ≡ move_all (pointer s) (packets (b ∷ c ∷ bs)))
        (sym (skip_byte s a start bad)) (feed-packets s (b ∷ c ∷ bs) start))
  | inr good ↦
      let (ready, moved) = take_packet s a b c start good in
      rw good (
        feed-packets (take_byte (take_byte (take_byte s a).0 b).0 c).0 bs ready
        ∙ ap (λ p. move_all p (packets bs)) moved)
]

-- The position lies in the square that the clamps leave.
pub record IsOnScreen (s : Mouse) : Type 0 where
  pub cycle : s.cycle < 3
  pub left : pos 0 ≤ℤ s.x
  pub right : s.x ≤ℤ pos 300
  pub top : pos 0 ≤ℤ s.y
  pub bottom : s.y ≤ℤ pos 300

clamp300_bounds : (v : ℤ) → (pos 0 ≤ℤ clamp300 v) × (clamp300 v ≤ℤ pos 300)
unfolding clamp300
clamp300_bounds v = ground arith

take_byte-IsOnScreen : (s : Mouse) (b : ℕ) → IsOnScreen s → IsOnScreen (take_byte s b).0
unfolding take_byte
take_byte-IsOnScreen s b i =
    ground (arith, clamp300_bounds (s.x +ℤ signed8 s.packet1), clamp300_bounds (s.y -ℤ signed8 b))

-- From a position in its bounds and one of the three cycles, no stream of bytes takes the driver
-- out of them.
pub feed-IsOnScreen : (s : Mouse) (bytes : List ℕ) → IsOnScreen s → IsOnScreen (feed s bytes)
unfolding feed
feed-IsOnScreen s [] i = i
feed-IsOnScreen s (b ∷ bs) i = feed-IsOnScreen (take_byte s b).0 bs (take_byte-IsOnScreen s b i)
