-- ===== src/Commands/Texts.antt =====
-- `cat`, `write` and `rm` of shell.c: what one command shows of what another has done.
use shad_os.Base.{
  ℕ, zero, suc, ◌+◌, ◌-◌, ◌≤◌, ◌<◌, ◌≡◌, ◌≢◌, ◌∙◌, refl, sym, ap, inl, inr, Bool, true, false, not,
  ◌||◌, Option, none, some, List, [], ◌∷◌, ◌++◌, map, length, ◌==◌, if◌then◌else◌, arith, word,
  Bool-cases, Option-cases,
}
use shad_os.Base.Copy.{read_bytes}
use shad_os.Heap.{Heap}
use shad_os.Heap.Layout.{Block}
use shad_os.String.{Bytes}
use shad_os.String.Compare.{IsString, IsString-same, strlen-length, read_bytes-string}
use shad_os.Terminal.{Call, write_string, write_number, put_char}
use shad_os.Ramfs.{Ramfs, ramfs_read}
use shad_os.Ramfs.Store.{contents, IsStore, IsOutside}
use shad_os.Ramfs.Write.{Written, done, refused, ramfs_write-Written}
use shad_os.Ramfs.Delete.{ramfs_delete-Deleted}
use shad_os.Commands.{say, cmd_cat, cmd_write, write_answer, cmd_rm, not_found}

abbrev pub ends_line : List ℕ → Bool
ends_line [] = false
ends_line (c ∷ []) = c == 10
ends_line (c ∷ d ∷ s) = ends_line (d ∷ s)

-- The bytes of a file, and a new line behind a last line that has no end.
abbrev pub printed : List ℕ → List Call
printed bytes = map put_char bytes ++ (if ends_line bytes then [] else put_char 10 ∷ [])

abbrev pub shown : (name : List ℕ) → Option (List ℕ) → List Call
shown name none = not_found name
shown name (some bytes) = printed bytes

ends_line-read_bytes :
    (m : Bytes) (p n : ℕ) → ends_line (read_bytes m p (suc n)) ≡ (m (p + n) == 10)
ends_line-read_bytes m p zero = ap (λ x. m x == 10) {y = p + 0} (omega arith)
ends_line-read_bytes m p (suc n) =
    ends_line-read_bytes m (p + 1) n ∙ ap (λ x. m x == 10) {x = p + 1 + n} (omega arith)

printed-read_bytes :
    (m : Bytes) (p n : ℕ)
    → map put_char (read_bytes m p n)
        ++ (if n == 0 || not (m (p + n - 1) == 10) then put_char 10 ∷ [] else [])
      ≡ printed (read_bytes m p n)
printed-read_bytes m p zero = refl
printed-read_bytes m p (suc n) =
    let ends = ends_line-read_bytes m p n in
    let some_left : (suc n == 0) ≡ false = ground arith in
    let last : p + suc n - 1 ≡ p + n = omega arith in
    elim (Bool-cases (m (p + n) == 10)) [
      | inl line ↦ rw (last, ends, line, some_left) refl
      | inr open_line ↦ rw (last, ends, open_line, some_left) refl
    ]

pub cmd_cat-shown :
    (c : ℕ) (cs : List ℕ) (s : Ramfs) → cmd_cat (c ∷ cs) s ≡ shown (c ∷ cs) (contents s (c ∷ cs))
unfolding cmd_cat contents
cmd_cat-shown c cs s = elim (Option-cases (ramfs_read (c ∷ cs) s)) [
  | inl missing ↦ rw (missing, cmd_cat, contents) refl
  | inr ((p, n), found) ↦ rw (found, cmd_cat, contents) (printed-read_bytes s.mem p n)
]

-- `cat` shows for every other name what it showed before.
abbrev pub ShowsSame : (name : List ℕ) (s t : Ramfs) → Type 0
ShowsSame name s t = (d : ℕ) (ds : List ℕ) → d ∷ ds ≢ name → cmd_cat (d ∷ ds) t ≡ cmd_cat (d ∷ ds) s

pub shows_same :
    (name : List ℕ) (s t : Ramfs)
    → ((q : List ℕ) → q ≢ name → contents t q ≡ contents s q)
    → ShowsSame name s t
shows_same name s t same d ds other =
    cmd_cat-shown d ds t ∙ ap (shown (d ∷ ds)) (same (d ∷ ds) other) ∙ sym (cmd_cat-shown d ds s)

-- The table is as ready as before, and the heap's zone stands where it stood.
abbrev pub Stays : (s t : Ramfs) → Type 0
Stays s t = (t.ready ≡ s.ready) × (t.heap.base ≡ s.heap.base)

-- What `write` has printed, and what `cat` shows afterwards.
pub data WriteShown (name text : List ℕ) (t : Ramfs) : List Call → Type 0 where
  written :
      cmd_cat name t ≡ printed text
      → ((r : List Block) × IsStore t r)
      → WriteShown name text t (
          say "Ecrit : "
          ∷ write_string name
          ∷ say " ("
          ∷ write_number (length text)
          ∷ say " octets)\n"
          ∷ [])
  failed :
      ((r : List Block) × IsStore t r)
      → WriteShown name text t
          (say "Echec de l'ecriture (table de fichiers pleine ou tas sature).\n" ∷ [])

Written-WriteShown :
    {n : ℕ} {bytes : List ℕ} {bs : List Block} {r : Bool} {t : Ramfs} (c : ℕ) (cs text : List ℕ)
    (content : ℕ) (s : Ramfs)
    → bytes ≡ text
    → IsString s.mem content text
    → IsOutside s content (length text + 1)
    → length text < word
    → Written (c ∷ cs) bytes n s bs r t
    → (calls : List Call) × (write_answer (c ∷ cs) content r t ≡ some (t, calls))
      × WriteShown (c ∷ cs) text t calls
      × ShowsSame (c ∷ cs) s t
      × Stays s t
Written-WriteShown {t} c cs text content s e is outside small (done f) =
    let still : IsString t.mem content text =
      IsString-same s.mem t.mem content text (λ x low high. f.outside x (omega arith)) is in
    (
      _,
      rw (strlen-length t.mem content text still small) refl,
      written (cmd_cat-shown c cs t ∙ ap (shown (c ∷ cs)) (f.here ∙ ap some e)) f.store,
      shows_same (c ∷ cs) s t f.elsewhere,
      (f.ready, f.base),
    )
Written-WriteShown {bs} {t} c cs text content s e is outside small (refused why k) = (
  _,
  refl,
  failed (bs, k.store),
  shows_same (c ∷ cs) s t k.elsewhere,
  (k.ready, ap (λ (h : Heap). h.base) k.heap),
)

-- On a table in order, ready, with a string of up to 2^32 - 8 bytes outside the heap's zone:
-- `write` ends, with the table in order. Either it says how many bytes it has written, and then
-- `cat` of the name prints the text, with a new line behind it if it does not end in one; or it
-- says that it has failed. In both cases `cat` of any other name prints what it printed before,
-- the table stays ready and the heap's zone stays in its place.
pub cmd_write-WriteShown :
    (c : ℕ) (cs : List ℕ) (content : ℕ) (text : List ℕ) (s : Ramfs) (bs : List Block)
    → s.ready ≡ true
    → IsStore s bs
    → IsString s.mem content text
    → IsOutside s content (length text + 1)
    → length text ≤ word - 8
    → (t : Ramfs) × (calls : List Call) × (cmd_write (c ∷ cs) content s ≡ some (t, calls))
      × WriteShown (c ∷ cs) text t calls
      × ShowsSame (c ∷ cs) s t
      × Stays s t
unfolding cmd_write
cmd_write-WriteShown c cs content text s bs ready ok is outside small =
    let name : List ℕ = c ∷ cs in
    let measured = strlen-length s.mem content text is (omega arith) in
    let (r, t, wrote, w) =
      ramfs_write-Written name content (length text) s bs ready ok (omega arith) small in
    let (calls, said, ends, same, stays) =
      Written-WriteShown c cs text content s (read_bytes-string s.mem content text is) is outside
        (omega arith) w in
    (t, calls, rw (measured, wrote) said, ends, same, stays)

-- What `rm` has printed, and what `cat` shows afterwards.
pub data RmShown (name : List ℕ) (s t : Ramfs) : List Call → Type 0 where
  gone :
      contents s name ≢ none
      → cmd_cat name t ≡ not_found name
      → ((r : List Block) × IsStore t r)
      → RmShown name s t (say "Supprime : " ∷ write_string name ∷ say "\n" ∷ [])
  missing : cmd_cat name s ≡ not_found name → t ≡ s → RmShown name s t (not_found name)

-- On a table in order `rm` ends. Either `cat` showed a file of that name, which is gone: it is now
-- not found; or the name was not found, and nothing changes. `cat` of any other name prints what it
-- printed before; `ramfs_ready` and the place of the heap's zone do not change.
pub cmd_rm-RmShown :
    (c : ℕ) (cs : List ℕ) (s : Ramfs) (bs : List Block)
    → IsStore s bs
    → (t : Ramfs) × (calls : List Call) × (cmd_rm (c ∷ cs) s ≡ some (t, calls))
      × RmShown (c ∷ cs) s t calls
      × ShowsSame (c ∷ cs) s t
      × Stays s t
unfolding cmd_rm
cmd_rm-RmShown c cs s bs ok =
    let name : List ℕ = c ∷ cs in
    elim (ramfs_delete-Deleted name s bs ok) [
      | inl (t, deleted, there, d) ↦ (
        t,
        _,
        rw deleted refl,
        gone there (cmd_cat-shown c cs t ∙ ap (shown name) d.here) d.store,
        shows_same name s t d.elsewhere,
        (d.ready, d.base),
      )
      | inr (kept, none_there) ↦ (
        s,
        _,
        rw kept refl,
        missing (cmd_cat-shown c cs s ∙ ap (shown name) none_there) refl,
        λ d ds _. refl,
        (refl, refl),
      )
    ]
