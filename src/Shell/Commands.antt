-- ===== src/Shell/Commands.antt =====
-- What a line runs in `shell_execute`: every branch of its chain ends with the kernel in order.
use shad_os.Base.{
  ℕ, ◌+◌, ◌≤◌, ◌<◌, ◌≡◌, refl, inl, inr, Bool, true, false, not, Option, some, List, [], ◌∷◌,
  length, if◌then◌else◌, arith, word,
}
use shad_os.Base.Text.{codes}
use shad_os.Io.{Log, Device}
use shad_os.Heap.Totals.{heap_get_stats-blocks}
use shad_os.String.{Bytes}
use shad_os.String.Compare.{IsString}
use shad_os.Ramfs.{Ramfs, same}
use shad_os.Ramfs.Store.{IsStore-mem}
use shad_os.Terminal.{Call, write_string}
use shad_os.Net.{net_is_ready}
use shad_os.Tasking.{Tasking}
use shad_os.Tasking.Listing.{tasking_list}
use shad_os.Tasking.Ring.{tasking_list-read_rows}
use shad_os.Commands.{World, text_at, cmd_meminfo, cmd_write, cmd_rm}
use shad_os.Commands.Alloctest.{cmd_alloctest}
use shad_os.Commands.Machine.{cmd_nettest, cmd_reboot, wait_keyboard}
use shad_os.Commands.Strings.{text_at-string}
use shad_os.Commands.Alloc.{cmd_alloctest-Tested}
use shad_os.Commands.Texts.{cmd_write-WriteShown, cmd_rm-RmShown}
use shad_os.Shell.{
  Ending, went, halted, ◌>>=◌, Rounds, cmd_buffer_size, set_fs, split_command, run_command,
}
use shad_os.Shell.Split.{first_word, first_word-le, after_word, split_command-Halves}
use shad_os.Shell.Sound.{
  IsListed, IsInOrder, EndsInOrder, moved-IsInOrder, filed-IsInOrder, Tested-IsInOrder,
  WriteShown-IsStore, RmShown-IsStore,
}

-- The keyboard controller takes the reset within the polls, whatever was done before.
abbrev pub TakesReset : Device → (polls : ℕ) → Type 0
TakesReset dev polls = (l : Log) → (l' : Log) × (wait_keyboard dev polls l ≡ some l')

choose :
    (buffer rounds : ℕ) (test : Bool) (x y : Option (Ending × Log))
    → EndsInOrder buffer rounds x
    → EndsInOrder buffer rounds y
    → EndsInOrder buffer rounds (if test then x else y)
choose buffer rounds true x y h k = h
choose buffer rounds false x y h k = k

choose_world :
    (buffer rounds : ℕ) (test : Bool) (x y : (World × List Call) × Log)
    → IsInOrder buffer rounds x.0.0
    → IsInOrder buffer rounds y.0.0
    → IsInOrder buffer rounds (if test then x else y).0.0
choose_world buffer rounds true x y h k = h
choose_world buffer rounds false x y h k = k

IsListed-ends :
    (rounds : ℕ) (t : Tasking)
    → IsListed rounds t
    → (calls : List Call) × (tasking_list rounds t ≡ some calls)
unfolding tasking_list
IsListed-ends rounds t (inl off) =
    (write_string (codes "Multitache non initialise.\n") ∷ [], rw (off, tasking_list) refl)
IsListed-ends rounds t (inr (on, (ts, ring, few))) =
    let (calls, ends, _) = tasking_list-read_rows rounds t ts on ring few in (_, ends)

module _ (dev : Device) (n : Rounds) (buffer : ℕ) (w : World) (ok : IsInOrder buffer n.tasks w)
    (args : ℕ) (text : List ℕ) (is : IsString w.fs.mem args text) (low : buffer ≤ args)
    (room : args + length text < buffer + cmd_buffer_size) (l : Log) where
  abbrev Ends : Option (Ending × Log) → Type 0
  Ends = EndsInOrder buffer n.tasks

  args-text : text_at w.fs.mem args ≡ some text
  args-text = text_at-string w.fs.mem args text is (omega arith)

  meminfo : Ends (cmd_meminfo w.fs.heap >>= λ calls. some (went w calls, l))
  unfolding cmd_meminfo
  meminfo =
      let (s, measured, _, _, _, _, _) = heap_get_stats-blocks ok.store.1.heap in
      rw (measured, cmd_meminfo) ok

  alloctest : Ends (
      cmd_alloctest w.fs.mem w.fs.heap >>= λ (m, h, calls).
      some (went (set_fs (record w.fs { mem = m; heap = h }) w) calls, l))
  alloctest =
      let (m, g, calls, ran, tested) =
        cmd_alloctest-Tested w.fs.mem w.fs.heap ok.store.0 ok.store.1.heap in
      rw ran (Tested-IsInOrder buffer n.tasks w ok tested)

  ps : Ends (tasking_list n.tasks w.tasking >>= λ calls. some (went w calls, l))
  ps = let (calls, listed) = IsListed-ends n.tasks w.tasking ok.tasks in rw listed ok

  write_named :
      (g : Bytes) (q : ℕ) (name rest : List ℕ)
      → IsString g q rest
      → buffer ≤ q
      → q + length rest < buffer + cmd_buffer_size
      → Ends (
          cmd_write name q (record w.fs { mem = g }) >>= λ (s, calls).
          some (went (set_fs s w) calls, l))
  unfolding cmd_write
  write_named g q [] rest is' low' room' = moved-IsInOrder buffer n.tasks w g ok
  write_named g q (c ∷ cs) rest is' low' room' =
      let fs : Ramfs = record w.fs { mem = g } in
      let apart = ok.apart in
      let (t, calls, ran, shown, _, stays) =
        cmd_write-WriteShown c cs q rest fs ok.store.0 ok.ready
          (IsStore-mem w.fs ok.store.0 g ok.store.1) is' (omega arith) (omega arith) in
      rw ran (filed-IsInOrder buffer n.tasks w t ok (WriteShown-IsStore shown) stays.0 stays.1)

  write_line : Ends (
      split_command args w.fs.mem >>= λ (m, content). text_at m args >>= λ name.
      cmd_write name content (record w.fs { mem = m }) >>= λ (s, calls).
      some (went (set_fs s w) calls, l))
  write_line =
      let (g, q, cut, h) = split_command-Halves w.fs.mem args text is (omega arith) in
      let named =
        text_at-string g args (first_word text) h.command (omega (arith, first_word-le text)) in
      rw (cut, named)
        (write_named g q (first_word text) (after_word text) h.arguments (omega (arith, h.low))
          (omega (arith, h.size)))

  rm_line :
      (name : List ℕ) → Ends (cmd_rm name w.fs >>= λ (s, calls). some (went (set_fs s w) calls, l))
  unfolding cmd_rm
  rm_line [] = ok
  rm_line (c ∷ cs) =
      let (t, calls, ran, shown, _, stays) = cmd_rm-RmShown c cs w.fs ok.store.0 ok.store.1 in
      rw ran (
        filed-IsInOrder buffer n.tasks w t ok (RmShown-IsStore ok.store.0 ok.store.1 shown) stays.0
          stays.1)

  nettest : Ends (let ((u, calls), l') = cmd_nettest w l in some (went u calls, l'))
  unfolding cmd_nettest
  nettest = choose_world buffer n.tasks (not (net_is_ready w.net_ready)) _ _ ok (record {
    store = (ok.store.0, IsStore-mem w.fs ok.store.0 _ ok.store.1);
    ready = ok.ready;
    apart = ok.apart;
    tasks = ok.tasks;
  })

  reboot :
      TakesReset dev n.polls
      → Ends (cmd_reboot dev n.polls l >>= λ (calls, l'). some (halted calls, l'))
  unfolding cmd_reboot
  reboot takes = let (l', polled) = takes l in rw (polled, cmd_reboot) tt

  -- Whatever the word is, the command that it names, or the message that there is none, ends.
  pub run_command-InOrder :
      (word : List ℕ) → TakesReset dev n.polls → Ends (run_command dev n word args w l)
  unfolding run_command
  run_command-InOrder word takes = choose buffer n.tasks (same word []) _ _ ok (
      choose buffer n.tasks (same word (codes "help")) _ _ ok (
        choose buffer n.tasks (same word (codes "clear")) _ _ ok (
          choose buffer n.tasks (same word (codes "echo")) _ _ (rw args-text ok) (
            choose buffer n.tasks (same word (codes "uptime")) _ _ ok (
              choose buffer n.tasks (same word (codes "meminfo")) _ _ meminfo (
                choose buffer n.tasks (same word (codes "alloctest")) _ _ alloctest (
                  choose buffer n.tasks (same word (codes "ps")) _ _ ps (
                    choose buffer n.tasks (same word (codes "ls")) _ _ ok (
                      choose buffer n.tasks (same word (codes "cat")) _ _ (rw args-text ok) (
                        choose buffer n.tasks (same word (codes "write")) _ _ write_line (
                          choose buffer n.tasks (same word (codes "rm")) _ _
                            (rw args-text (rm_line text))
                            (choose buffer n.tasks (same word (codes "mouse")) _ _ ok (
                              choose buffer n.tasks (same word (codes "gfx")) _ _ ok (
                                choose buffer n.tasks (same word (codes "usertest")) _ _ ok (
                                  choose buffer n.tasks (same word (codes "nettest")) _ _ nettest (
                                    choose buffer n.tasks (same word (codes "reboot")) _ _
                                      (reboot takes) ok))))))))))))))))
