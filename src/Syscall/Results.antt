-- ===== src/Syscall/Results.antt =====
-- What a system call returns and shows.
use shad_os.Base.{
  bit_and, ap, ◌*◌, ◌/◌, ◌^◌, ℕ, zero, suc, ◌+◌, ◌%◌, ◌<◌, ◌≡◌, refl, ◌≢◌, List, [], ◌∷◌, ◌++◌,
  length, length-append, get_or, arith, word, ◌==◌, if◌then◌else◌, Bool-cases, true, ◌∙◌, inl, inr,
}
use shad_os.String.{Bytes, write_hex}
use shad_os.Base.Bits.{bit_and-ones}
use shad_os.Base.Text.{codes}
use shad_os.Terminal.{
  Call, put_char, write_string, write_number, set_color, vga_entry_color, yellow, black, light_grey,
}
use shad_os.Syscall.{Registers, back, sys_write, put_bytes, announce, syscall_dispatch}

length-put_bytes : (m : Bytes) (buf len : ℕ) → length (put_bytes m buf len) ≡ len
unfolding put_bytes
length-put_bytes m buf zero = refl
length-put_bytes m buf (suc len) = omega (
  arith,
  length-append (put_bytes m buf len) (put_char (m ((buf + len) % word)) ∷ []),
  length-put_bytes m buf len,
)

get_or-append_left :
    {A : Type 0} (xs ys : List A) (i : ℕ) (d : A)
    → i < length xs
    → get_or (xs ++ ys) i d ≡ get_or xs i d
get_or-append_left [] ys i d h = absurd (omega arith)
get_or-append_left (x ∷ xs) ys zero d h = refl
get_or-append_left (x ∷ xs) ys (suc i) d h = get_or-append_left xs ys i d (omega arith)

get_or-append_last :
    {A : Type 0} (xs : List A) (x : A) (i : ℕ) (d : A)
    → i ≡ length xs
    → get_or (xs ++ (x ∷ [])) i d ≡ x
get_or-append_last [] x zero d h = refl
get_or-append_last [] x (suc i) d h = absurd (omega arith)
get_or-append_last (y ∷ xs) x zero d h = absurd (omega arith)
get_or-append_last (y ∷ xs) x (suc i) d h = get_or-append_last xs x i d (omega arith)

get_or-put_bytes :
    (m : Bytes) (buf len i : ℕ) (d : Call)
    → i < len
    → get_or (put_bytes m buf len) i d ≡ put_char (m ((buf + i) % word))
unfolding put_bytes
get_or-put_bytes m buf zero i d h = absurd (omega arith)
get_or-put_bytes m buf (suc len) i d h = elim (Bool-cases (i == len)) [
  | inl last ↦
      let e : i ≡ len = ground arith in
      rw
        (get_or-append_last (put_bytes m buf len) (put_char (m ((buf + len) % word))) i d
          (omega (arith, length-put_bytes m buf len)))
        (rw e refl)
  | inr before ↦
      get_or-append_left (put_bytes m buf len) _ i d (ground (arith, length-put_bytes m buf len))
      ∙ get_or-put_bytes m buf len i d (ground arith)
]

low_two_bits : (x : ℕ) → bit_and x 0x3 ≡ x % 4
low_two_bits x =
    ap (λ y. bit_and y 0x3) {x = x} {y = x / 2 ^ 2 * 2 ^ 2 + x % 2 ^ 2} (omega arith)
    ∙ bit_and-ones 2 (x % 2 ^ 2) (x / 2 ^ 2) (omega arith)

-- The proof of the change of ring: in yellow, the selector of the caller's code segment in
-- hexadecimal and its lowest two bits, the privilege level, as a number.
abbrev pub ring_shown : (cs : ℕ) → List Call
ring_shown cs =
    set_color (vga_entry_color yellow black)
    ∷ write_string (codes "[noyau] syscall recu depuis CS=0x")
    ∷ write_string (write_hex cs)
    ∷ write_string (codes " (RPL=")
    ∷ write_number (cs % 4)
    ∷ write_string (codes ") -> ring3 confirme\n")
    ∷ set_color (vga_entry_color light_grey black)
    ∷ []

-- A write returns the number in `ecx` to its caller, with no other register changed, and shows that
-- many bytes of memory from `ebx` on, in order. Before them the first call of all, and no later one,
-- shows the selector of the caller's code segment and its privilege level.
pub syscall_dispatch-write :
    (m : Bytes) (count : ℕ) (regs : Registers) (d : Call)
    → regs.eax ≡ sys_write
    → let r = syscall_dispatch m count regs in
      (r.ending ≡ back (record regs { eax = regs.ecx }))
      × ((before bytes : List Call) × (r.calls ≡ before ++ bytes)
          × (count ≡ 0 → before ≡ ring_shown regs.cs)
          × (count ≢ 0 → before ≡ [])
          × (length bytes ≡ regs.ecx)
          × ((i : ℕ) → i < regs.ecx → get_or bytes i d ≡ put_char (m ((regs.ebx + i) % word))))
unfolding syscall_dispatch announce
syscall_dispatch-write m count regs d e =
    let is_write : (regs.eax == sys_write) ≡ true = ground arith in
    rw is_write (
      refl,
      (
        (if count + 1 == 1 then announce regs else []),
        put_bytes m regs.ebx regs.ecx,
        refl,
        (λ first.
            let hit : (count + 1 == 1) ≡ true = ground arith in
            rw (hit, low_two_bits regs.cs) refl),
        (λ later. ground arith),
        length-put_bytes m regs.ebx regs.ecx,
        λ i h. get_or-put_bytes m regs.ebx regs.ecx i d h,
      ),
    )
