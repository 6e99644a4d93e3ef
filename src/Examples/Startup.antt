-- ===== src/Examples/Startup.antt =====
-- A program of two words: at 200, which has code at 5000, and after it at 300. The area is mapped
-- at 4096, and the session reads files over a world that only counts.
use smolforth.Base.{
  ℕ, ◌+◌, ◌≡◌, ◌≢◌, refl, arith, List, [], ◌∷◌, some, codes, ◌++◌, if◌then◌else◌, ◌==◌, same_text,
  ==_iff,
}
use smolforth.Memory.{Mem, get_byte, set_byte, load, store}
use smolforth.Compiler.{Compiler, Section}
use smolforth.Dictionary.{to_body}
use smolforth.RiscV.Compile.{has_code}
use smolforth.Startup.{Mmap}
use smolforth.Startup.Walk.{gather}
use smolforth.Startup.Lists.{joined, entries}
use smolforth.Startup.Built.{Ready}
use smolforth.Startup.Session.{
  Session, Calls, skip_arguments, run_files, main_session, x86_unknown, open_source, interpret,
  report, set_terminals, ended,
}
use smolforth.Startup.Ended.{
  NoDashes, KeepsSettings, NoDashes, KeepsSettings, run_files-skip_arguments,
}
use smolforth.Examples.Machines.{no_memory, two_up}

abbrev linked_words : Mem
linked_words = store 8 (store 8 (set_byte no_memory 199 16) 208 5000) 300 200

abbrev section_zero : Section
section_zero = record { start = 0; gate = 0; here = 0; end_ = 0; flags = 0 }

abbrev starting : Compiler
starting = record {
  machine = record (two_up 0 0 0 0 0 0) { mem = linked_words };
  section_at = λ a. section_zero;
  active_section = 1;
  cdata = 1;
  idata = 1;
  wdata = 0;
  wl_search_order = 700;
  next_word = 0;
}

abbrev at_4096 : Mmap
at_4096 size mem = some (4096, mem)

abbrev words : List ℕ
words = 300 ∷ 200 ∷ []

entries_are : entries linked_words words ≡ 300 ∷ 200 ∷ 308 ∷ 216 ∷ 5000 ∷ []
unfolding entries gather has_code to_body load get_byte set_byte store
entries_are = refl

joined-words : joined (words ∷ []) ≡ words
unfolding joined
joined-words = refl

-- The world counts the calls of QUIT; the settings of the terminals are numbers.
abbrev World : Type 0
World = ℕ × (ℕ → ℕ)

abbrev counting : Calls World ℕ
counting = record {
  tcgetattr = λ fd w. w.1 fd;
  tcsetattr = λ fd t w. (w.0, λ x. if x == fd then t else w.1 x);
  open_read = λ a w. (some 5, w);
  close = λ f w. w;
  print_unknown = λ s. s.world;
  quit = λ st rst s. record s { world = (s.world.0 + 1, s.world.1) };
}

abbrev first_session : Session World
first_session = record {
  source_id = 0;
  errno = 0;
  quit_caught = 0;
  stack_ptr = 1000;
  return_stack_ptr = 2000;
  world = (0, λ fd. fd + 7);
}

abbrev two_files : List (List ℕ)
two_files = codes "a" ∷ codes "-" ∷ []

-- Both files are read.
two_files_read :
    let r = main_session counting x86_unknown 9 two_files first_session in
    (r.0 ≡ some 0) × (r.1.world.0 ≡ 2)
unfolding main_session run_files open_source interpret report set_terminals ended same_text
two_files_read = (refl, refl)

no_dashes : NoDashes (codes "forth" ∷ two_files)
unfolding same_text
no_dashes = (refl, (refl, (refl, tt)))

run_files-skip_arguments_example :
    (skip_arguments (codes "forth" ∷ two_files ++ codes "--" ∷ codes "x" ∷ []) ≡ codes "x" ∷ [])
    × (run_files counting x86_unknown (two_files ++ codes "--" ∷ codes "x" ∷ []) first_session
        ≡ run_files counting x86_unknown two_files first_session)
run_files-skip_arguments_example =
    run_files-skip_arguments counting x86_unknown (codes "forth") two_files (codes "x" ∷ [])
      first_session no_dashes

-- The session after both files.
abbrev both_read : Session World
both_read = record first_session { source_id = 0; world = (2, λ fd. fd + 7) }

counting-KeepsSettings : KeepsSettings counting x86_unknown
counting-KeepsSettings fd t w =
    (rw ((==_iff fd fd).1 refl) refl, λ other h. not_set other fd t (w.1 other) h)
  where
    not_set : (other fd t u : ℕ) → other ≢ fd → (if other == fd then t else u) ≡ u
    not_set other fd t u h = ground arith
