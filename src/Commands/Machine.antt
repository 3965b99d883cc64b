-- ===== src/Commands/Machine.antt =====
-- The commands of shell.c on devices: the mouse, the screen, the network and the reset.
use shad_os.Base.{
  ℕ, zero, suc, ◌+◌, ◌-◌, ◌/◌, ◌%◌, not, Option, none, some, List, [], ◌∷◌, ◌++◌, bit_and, ltb,
  ◌==◌, if◌then◌else◌, word,
}
use shad_os.Base.Int.{ℤ, pos, negsuc}
use shad_os.Io.{Log, Device, inb, outb}
use shad_os.Terminal.{Call, write_number, graphics_demo}
use shad_os.Mouse.{Mouse, mouse_get_state, mouse_is_ready}
use shad_os.Rtl8139.{get_mac, get_rx_count}
use shad_os.Net.{net_is_ready, net_send_arp_request}
use shad_os.Commands.{World, ◌>>=◌, say, say_hex}

-- `(uint32_t) x` of an `int`.
abbrev pub unsigned : ℤ → ℕ
unsigned (pos n) = n % word
unsigned (negsuc n) = word - 1 - n % word

unfoldable pub cmd_mouse : Mouse → List Call
cmd_mouse s =
    let (x, y, buttons) = mouse_get_state s in
    say "Souris PS/2 : "
    ∷ (if mouse_is_ready s then say "active\n" else say "non initialisee\n")
    ∷ say "  Position : x="
    ∷ write_number (unsigned x)
    ∷ say " y="
    ∷ write_number (unsigned y)
    ∷ say "\n  Boutons  : gauche="
    ∷ write_number (bit_and buttons 0x01)
    ∷ say " milieu="
    ∷ write_number (bit_and (buttons / 4) 0x01)
    ∷ say " droit="
    ∷ write_number (bit_and (buttons / 2) 0x01)
    ∷ say "\n  (La position se met a jour en direct en bas a droite de l'ecran.)\n"
    ∷ []

unfoldable pub cmd_gfx : World → List Call
cmd_gfx w =
    if not w.graphics_available
    then say "Framebuffer non disponible pour cette session de boot.\n" ∷ []
    else say "Basculement en mode graphique ("
      ∷ write_number w.width
      ∷ say "x"
      ∷ write_number w.height
      ∷ say ", irreversible sans reboot)...\n"
      ∷ graphics_demo
      ∷ []

-- `terminal_write_hex(mac[i]); if (i < 5) terminal_writestring(":");` for the bytes from `i` on.
unfoldable pub mac_calls : (i : ℕ) → List ℕ → List Call
mac_calls i [] = []
mac_calls i (b ∷ bs) = say_hex b ∷ ((if ltb i 5 then say ":" ∷ [] else []) ++ mac_calls (i + 1) bs)

abbrev pub gateway : List ℕ
gateway = 10 ∷ 0 ∷ 2 ∷ 2 ∷ []

unfoldable pub cmd_nettest : World → Log → (World × List Call) × Log
unfolding mac_calls
cmd_nettest w l =
    let ((ok, m, rtl), l') = net_send_arp_request w.net_ready w.fs.mem w.rtl w.frame gateway l in
    if not (net_is_ready w.net_ready)
    then ((w, say "Aucune carte reseau RTL8139 detectee sur le bus PCI.\n" ∷ []), l)
    else (
      (
        record w { fs = record w.fs { mem = m }; rtl = rtl },
        say "Carte RTL8139 initialisee. Adresse MAC : "
            ∷ (mac_calls 0 (get_mac w.rtl)
                ++ say "\n"
                  ∷ say "Envoi d'une requete ARP broadcast (qui a 10.0.2.2 ?)...\n"
                  ∷ (if ok
                      then say "Trame envoyee a la carte reseau.\n"
                      else say "Echec de l'envoi.\n")
                  ∷ say "Paquets recus depuis le demarrage : "
                  ∷ write_number (get_rx_count rtl)
                  ∷ say "\n"
                  ∷ []),
      ),
      l',
    )

-- `while (good & 0x02) good = inb(0x64);`, which the model follows for a number of polls.
unfoldable pub wait_keyboard : Device → (polls : ℕ) → Log → Option Log
wait_keyboard dev zero l = none
wait_keyboard dev (suc polls) l =
    let again = wait_keyboard dev polls (inb dev 0x64 l).1 in
    if bit_and (inb dev 0x64 l).0 0x02 == 0 then some (inb dev 0x64 l).1 else again

-- The accesses up to the halt behind the reset, which the command does not come back from.
unfoldable pub cmd_reboot : Device → (polls : ℕ) → Log → Option (List Call × Log)
unfolding wait_keyboard
cmd_reboot dev polls l =
    wait_keyboard dev polls l >>= λ l'. some (say "Redemarrage...\n" ∷ [], (outb 0x64 0xfe l').1)
