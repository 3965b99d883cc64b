-- ===== src/Commands.antt =====
-- The commands of shell.c on texts, files and numbers, and the state that all commands share.
-- `none` throughout: the heap or a string has no end.
pub mod Alloctest
pub mod Machine
pub mod Strings
pub mod Texts
pub mod Report
pub mod Alloc
mod Tests
use Prim.Native.String.{String}
use shad_os.Base.{
  ℕ, zero, suc, ◌+◌, ◌-◌, ◌*◌, ◌/◌, ◌%◌, Bool, true, false, not, ◌&&◌, ◌||◌, Option, none, some,
  List, [], ◌∷◌, ◌++◌, map, bit_and, ltb, ◌==◌, if◌then◌else◌, word,
}
use shad_os.Base.Text.{codes}
use shad_os.Base.Int.{ℤ, pos, negsuc}
use shad_os.Base.Copy.{read_bytes}
use shad_os.Io.{Log, Device, inb, outb}
use shad_os.Heap.{Heap, Stats, kmalloc, kfree, heap_get_stats, heap_get_base, null}
use shad_os.String.{Bytes, strlen, write_hex}
use shad_os.Terminal.{Call, write_string, write_number, put_char, graphics_demo, usermode_run_demo}
use shad_os.Ramfs.{Ramfs, ramfs_read, ramfs_write, ramfs_delete, ramfs_list}
use shad_os.Tasking.{Tasking}
use shad_os.Tasking.Listing.{tasking_list}
use shad_os.Mouse.{Mouse, mouse_get_state, mouse_is_ready}
use shad_os.Rtl8139.{Rtl, get_mac, get_rx_count}
use shad_os.Net.{net_is_ready, net_send_arp_request, store_bytes}

-- The state of the kernel that commands use. Memory and the heap stand in `fs`. The last fields are
-- what code outside the repository returns, and where the frame of net.c stands on the stack.
pub record World : Type 0 where
  pub fs : Ramfs
  pub tasking : Tasking
  pub mouse : Mouse
  pub net_ready : Bool
  pub rtl : Rtl
  pub seconds : ℕ
  pub ticks : ℕ
  pub graphics_available : Bool
  pub width : ℕ
  pub height : ℕ
  pub frame : ℕ

infixl 5 ◌>>=◌
abbrev pub ◌>>=◌ : {A B : Type 0} → Option A → (A → Option B) → Option B
none >>= f = none
some a >>= f = f a

abbrev pub say : String → Call
say t = write_string (codes t)

abbrev pub say_hex : ℕ → Call
say_hex n = write_string (write_hex n)

-- The string at an address, as the library functions read it.
unfoldable pub text_at : Bytes → ℕ → Option (List ℕ)
text_at m p = elim (strlen m p) [ none ↦ none | some n ↦ some (read_bytes m p n) ]

abbrev pub help_text : List ℕ
help_text =
    codes "Commandes disponibles :\n"
    ++ codes "  help     - affiche cette aide\n"
    ++ codes "  clear    - efface l'ecran\n"
    ++ codes "  echo T   - affiche le texte T\n"
    ++ codes "  uptime   - temps ecoule depuis le demarrage\n"
    ++ codes "  meminfo  - etat du tas dynamique (kmalloc/kfree)\n"
    ++ codes "  alloctest- demontre kmalloc/kfree en direct\n"
    ++ codes "  ps       - liste les taches et leur etat\n"
    ++ codes "  ls       - liste les fichiers (systeme de fichiers RAM)\n"
    ++ codes "  cat F    - affiche le contenu du fichier F\n"
    ++ codes "  write F T- ecrit le texte T dans le fichier F (le cree si besoin)\n"
    ++ codes "  rm F     - supprime le fichier F\n"
    ++ codes "  mouse    - affiche l'etat courant de la souris PS/2\n"
    ++ codes "  gfx      - demo mode graphique VESA (irreversible sans reboot)\n"
    ++ codes "  usertest - execute du code en ring3 (mode utilisateur) via syscall\n"
    ++ codes "  nettest  - detecte la carte reseau et envoie une requete ARP\n"
    ++ codes "  reboot   - redemarre la machine\n"

unfoldable pub cmd_help : List Call
cmd_help = write_string help_text ∷ []

unfoldable pub cmd_uptime : World → List Call
cmd_uptime w =
    say "Uptime : "
    ∷ write_number w.seconds
    ∷ say " s ("
    ∷ write_number w.ticks
    ∷ say " ticks)\n"
    ∷ []

unfoldable pub cmd_meminfo : Heap → Option (List Call)
cmd_meminfo h = elim (heap_get_stats h) [
  | none ↦ none
  | some s ↦ some (
      write_string (
        codes "Pagination : ACTIVE (identity mapping 16 Mo)\n"
        ++ codes "Tas dynamique (heap) :\n"
        ++ codes "  Base       : ")
      ∷ say_hex (heap_get_base h)
      ∷ say "\n  Taille totale : "
      ∷ write_number s.total
      ∷ say " octets\n  Utilisee      : "
      ∷ write_number s.used
      ∷ say " octets\n  Libre         : "
      ∷ write_number s.free_bytes
      ∷ say " octets\n  Blocs libres  : "
      ∷ write_number s.free_blocks
      ∷ say "\n"
      ∷ [])
]

abbrev pub not_found : List ℕ → List Call
not_found name = say "Fichier introuvable : " ∷ write_string name ∷ say "\n" ∷ []

-- A name is a string, so that its first byte is `\0` exactly when it has none.
unfoldable pub cmd_cat : List ℕ → Ramfs → List Call
cmd_cat [] s = say "Usage : cat <fichier>\n" ∷ []
cmd_cat (c ∷ cs) s = elim (ramfs_read (c ∷ cs) s) [
  | none ↦ not_found (c ∷ cs)
  | some (p, n) ↦
      map put_char (read_bytes s.mem p n)
      ++ (if n == 0 || not (s.mem (p + n - 1) == 10) then put_char 10 ∷ [] else [])
]

-- What `cmd_write` says, for the result of `ramfs_write`; the length is measured again.
abbrev pub write_answer :
    (name : List ℕ) → (content : ℕ) → (ok : Bool) → Ramfs → Option (Ramfs × List Call)
write_answer name content ok t =
    if ok
    then (strlen t.mem content >>= λ n.
        some (
          t,
          say "Ecrit : " ∷ write_string name ∷ say " (" ∷ write_number n ∷ say " octets)\n" ∷ [],
        ))
    else some (t, say "Echec de l'ecriture (table de fichiers pleine ou tas sature).\n" ∷ [])

-- `content` is the address that `split_command` gives for the rest of the line.
unfoldable pub cmd_write : (name : List ℕ) → (content : ℕ) → Ramfs → Option (Ramfs × List Call)
cmd_write [] content s = some (s, say "Usage : write <fichier> <texte>\n" ∷ [])
cmd_write (c ∷ cs) content s = strlen s.mem content >>= λ n.
    ramfs_write (c ∷ cs) content n s >>= λ (ok, t). write_answer (c ∷ cs) content ok t

unfoldable pub cmd_rm : List ℕ → Ramfs → Option (Ramfs × List Call)
cmd_rm [] s = some (s, say "Usage : rm <fichier>\n" ∷ [])
cmd_rm (c ∷ cs) s = ramfs_delete (c ∷ cs) s >>= λ (ok, t). some (
  t,
  if ok then say "Supprime : " ∷ write_string (c ∷ cs) ∷ say "\n" ∷ [] else not_found (c ∷ cs),
)
