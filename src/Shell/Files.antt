-- ===== src/Shell/Files.antt =====
-- Lines that name files, from the keys to the RAM file system.
use shad_os.Base.{ℕ, ◌≡◌, ◌∙◌, refl, sym, ap, subst, true, some, List, [], ◌∷◌, ◌++◌, arith}
use shad_os.Base.Text.{codes}
use shad_os.Base.Copy.{Apart}
use shad_os.Io.{Log, Device}
use shad_os.Heap.{heap_size}
use shad_os.Heap.Layout.{Block}
use shad_os.String.{Bytes}
use shad_os.String.Range.{AllNe}
use shad_os.Terminal.{Call, put_char}
use shad_os.Ramfs.{Ramfs, same}
use shad_os.Ramfs.Store.{contents-mem, IsStore, IsStore-mem, SameZone}
use shad_os.Commands.{World, text_at}
use shad_os.Commands.Texts.{shown, cmd_cat-shown, WriteShown, ShowsSame, cmd_write-WriteShown}
use shad_os.Commands.Strings.{text_at-string}
use shad_os.Shell.{
  Shell, waits, went, Rounds, cmd_buffer_size, set_mem, set_fs, run_command, print_prompt,
}
use shad_os.Shell.Split.{first_word, after_word, split_command-Halves, first_word-le}
use shad_os.Shell.Editor.{edit_lines}
use shad_os.Shell.Enter.{press, Arguments, press-run_line}

run_command-write :
    (dev : Device) (n : Rounds) (line : List ℕ) (g : Bytes) (q : ℕ) (w : World) (bs : List Block)
    (buffer c : ℕ) (cs : List ℕ) (l : Log)
    → first_word line ≡ codes "write"
    → first_word (after_word line) ≡ c ∷ cs
    → Arguments buffer line w g q
    → Apart buffer cmd_buffer_size w.fs.heap.base heap_size
    → w.fs.ready ≡ true
    → IsStore w.fs bs
    → (t : Ramfs) × (calls : List Call) × (run_command dev n (first_word line) q (set_mem g w) l
        ≡ some (went (set_fs t w) calls, l))
      × WriteShown (c ∷ cs) (after_word (after_word line)) t calls
      × ShowsSame (c ∷ cs) w.fs t
unfolding run_command same
run_command-write dev n line g q w bs buffer c cs l is_write named a apart ready ok =
    let (g', q', cut, h) =
      split_command-Halves g q (after_word line) a.text (omega (arith, a.low, a.size)) in
    let text : List ℕ = after_word (after_word line) in
    let read : text_at g' q ≡ some (c ∷ cs) =
      subst (λ x. text_at g' q ≡ some x) named
        (text_at-string g' q (first_word (after_word line)) h.command
          (omega (arith, first_word-le (after_word line), a.low, a.size))) in
    let fs : Ramfs = record w.fs { mem = g' } in
    let zone : SameZone w.fs g' =
      λ x low high. h.elsewhere x (omega (arith, a.low, a.size)) ∙ a.elsewhere x (omega arith) in
    let (t, calls, wrote, ends, kept, _) =
      cmd_write-WriteShown c cs q' text fs bs ready (IsStore-mem w.fs bs g' ok) h.arguments
        (omega (arith, h.low, h.size, a.low, a.size))
        (omega (arith, h.low, h.size, a.low, a.size)) in
    (
      t,
      calls,
      rw (is_write, cut, read, wrote) refl,
      ends,
      λ d ds other.
          kept d ds other
          ∙ cmd_cat-shown d ds fs
          ∙ ap (shown (d ∷ ds)) (contents-mem w.fs bs g' (d ∷ ds) ok zone)
          ∙ sym (cmd_cat-shown d ds w.fs),
    )

-- From an empty line, with the buffer outside the heap's zone and the table of files in order and
-- ready: characters without a 0 and a `\n` that make a line `write NAME TEXT`, and then Enter. The
-- shell waits for the next line with `cmd_len` 0, having printed what `write` says and the prompt,
-- in the world as it was but for the file system. Where it says that it has written, `cat NAME`
-- prints the text, with a new line behind it if it does not end in one; the table is in order; and
-- `cat` of any other name prints what it printed before.
pub press-WriteShown :
    (dev : Device) (n : Rounds) (buffer : ℕ) (keys : List ℕ) (s : Shell) (bs : List Block) (l : Log)
    (c : ℕ) (cs : List ℕ)
    → s.cmd_len ≡ 0
    → AllNe 0 keys
    → AllNe 10 keys
    → first_word (edit_lines [] keys) ≡ codes "write"
    → first_word (after_word (edit_lines [] keys)) ≡ c ∷ cs
    → Apart buffer cmd_buffer_size s.world.fs.heap.base heap_size
    → s.world.fs.ready ≡ true
    → IsStore s.world.fs bs
    → (t : Ramfs) × (calls : List Call) × (press dev n buffer (keys ++ 10 ∷ []) (waits s []) l
        ≡ some (
          waits
              (record { world = set_fs t s.world; cmd_len = 0 })
              (put_char 10 ∷ (calls ++ print_prompt)),
          l,
        ))
      × WriteShown (c ∷ cs) (after_word (after_word (edit_lines [] keys))) t calls
      × ShowsSame (c ∷ cs) s.world.fs t
press-WriteShown dev n buffer keys s bs l c cs empty no_zero no_enter is_write named apart ready
      ok =
    let (g, q, ran, a) = press-run_line dev n buffer keys s l empty no_zero no_enter in
    let (t, calls, wrote, ends, kept) =
      run_command-write dev n (edit_lines [] keys) g q s.world bs buffer c cs l is_write named a
        apart ready ok in
    (t, calls, ran ∙ rw wrote refl, ends, kept)
