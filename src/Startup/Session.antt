-- ===== src/Startup/Session.antt =====
-- The rest of main.c of each port: the arguments, the first values of `sf_header`, the terminal, and
-- the files that are interpreted one after the other. Both ports have the same text but for the
-- return stack.
use smolforth.Base.{
  ℕ, ◌+◌, ◌-◌, ◌*◌, ◌%◌, ◌^◌, bit_and, if◌then◌else◌, ◌==◌, ◌&&◌, Option, none, some, List, [], ◌∷◌,
  codes, same_text, Bool,
}
use smolforth.Memory.{store, load}
use smolforth.Compiler.{Compiler, set_mem, set_header}

-- `for(i < argc)`: `sf_argv` moves behind the first "--", or behind all arguments.
unfoldable pub skip_arguments : List (List ℕ) → List (List ℕ)
unfolding same_text
skip_arguments [] = []
skip_arguments (a ∷ more) =
    let rest = skip_arguments more in if same_text a (codes "--") then more else rest

-- The sections that are named by role in `sf_header`, next to those of `Compiler`.
pub record Roles : Type 0 where
  pub udata : ℕ
  pub uidata : ℕ
  pub icdata : ℕ
  pub stack_size : ℕ

-- `sf_header.base = 10` up to `sf_header.stack_size = 1024`, with `sf_header.code` at `code`.
unfoldable pub first_header : ℕ → Compiler → Compiler × Roles
first_header code c = (
  set_header (record c.machine.header { base = 10 })
      (record c {
        active_section = code;
        section_at =
            λ a. if a == code then record (c.section_at code) { flags = 7 } else c.section_at a;
        cdata = code;
        idata = code;
        wdata = 0;
      }),
  record { udata = code; uidata = code; icdata = code; stack_size = 1024 },
)

-- `wl_search_order[WL_SO_MAX-1] = wl_search_order[0]` and `(&FORTH)[2] = &sf_FORTH_end`.
unfoldable pub first_lists : ℕ → ℕ → Compiler → Compiler
first_lists forth last c =
    let mem = c.machine.mem in
    let current = store 8 mem (c.wl_search_order + 8 * 15) (load 8 mem c.wl_search_order) in
    set_mem (store 8 current (forth + 16) last) c

-- The pointer and the size of the return stack over `2*4096` bytes at `c`.
unfoldable pub x86_return_stack : ℕ → ℕ × ℕ
x86_return_stack c =
    let top = bit_and ((c + 2 * 4096) % 2 ^ 64) (2 ^ 64 - 32) in
    (top, (top + (2 ^ 64 - bit_and c (2 ^ 64 - 32))) % 2 ^ 64)

unfoldable pub riscv_return_stack : ℕ → ℕ × ℕ
riscv_return_stack c = (c, 2 * 4096)

-- What main keeps in `sf_header` while it runs, `(&FORTH$QUIT_CAUGHT)[2]`, and all that lies
-- outside: files, terminals, and the memory of the words.
pub record Session (W : Type 0) : Type 0 where
  pub source_id : ℕ
  pub errno : ℕ
  pub quit_caught : ℕ
  pub stack_ptr : ℕ
  pub return_stack_ptr : ℕ
  pub world : W

-- The calls of main: of the operating system, with settings `T` of a terminal, and of QUIT, which
-- is given the two stack pointers.
pub record Calls (W T : Type 0) : Type 0 where
  pub tcgetattr : ℕ → W → T
  pub tcsetattr : ℕ → T → W → W
  pub open_read : List ℕ → W → Option ℕ × W
  pub close : ℕ → W → W
  pub print_unknown : Session W → W
  pub quit : ℕ → ℕ → Session W → Session W

-- How the loop over the files ends: behind the last, at an error, or by `exit(1)`.
pub data Ending : Type 0 where
  finished : Ending
  failed : (errno : ℕ) → Ending
  exited : Ending

-- `-13 == sf_header.errno`, and of the RISC-V port `-13 == rc`, which is an `int`.
unfoldable pub x86_unknown : ℕ → Bool
x86_unknown errno = errno == 2 ^ 64 - 13

unfoldable pub riscv_unknown : ℕ → Bool
riscv_unknown errno = errno % 2 ^ 32 == 2 ^ 32 - 13

module _ {W T : Type 0} (calls : Calls W T) (is_unknown : ℕ → Bool) where
  abbrev pub outside : (W → W) → Session W → Session W
  outside f s = record s { world = f s.world }

  unfoldable pub interpret : ℕ → Session W → Session W
  interpret f s =
      let done = calls.quit s.stack_ptr s.return_stack_ptr (record s { source_id = f }) in
      if f == 0 then done else outside (calls.close f) done

  unfoldable pub report : Session W → Session W
  report s =
      if (s.quit_caught == 0) && is_unknown s.errno
      then record s { world = calls.print_unknown s }
      else s

  unfoldable pub open_source : List ℕ → Session W → Option ℕ × Session W
  unfolding same_text
  open_source a s =
      let opened = calls.open_read a s.world in
      if same_text a (codes "-") then (some 0, s) else (opened.0, record s { world = opened.1 })

  -- `for(int i = 1; i < argc; ++i)`
  unfoldable pub run_files : List (List ℕ) → Session W → Ending × Session W
  unfolding same_text open_source interpret report
  run_files [] s = (finished, s)
  run_files (a ∷ more) s =
      let opened = open_source a s in
      if same_text a (codes "--") then (finished, s) else elim opened.0 [
        | none ↦ (exited, opened.1)
        | some f ↦
            let done = interpret f opened.1 in
            let rest = run_files more done in
            if done.errno == 0 then rest else (failed done.errno, report done)
      ]

  -- `tcsetattr` of both terminals.
  unfoldable pub set_terminals : T → T → Session W → Session W
  set_terminals t0 t1 s = outside (λ w. calls.tcsetattr 1 t1 (calls.tcsetattr 0 t0 w)) s

  -- What main returns, or `none` after `exit(1)`: `rc` is an `int`.
  unfoldable pub ended : T → T → Ending × Session W → Option ℕ × Session W
  unfolding set_terminals
  ended t0 t1 (finished, s) = (some 0, set_terminals t0 t1 s)
  ended t0 t1 (failed errno, s) = (some (errno % 2 ^ 32), set_terminals t0 t1 s)
  ended t0 t1 (exited, s) = (none, s)

  -- From the saving of the settings on; `nterm` are those set up with `cfmakeraw`.
  unfoldable pub main_session : T → List (List ℕ) → Session W → Option ℕ × Session W
  unfolding set_terminals run_files ended
  main_session nterm files s =
      let pterm0 = calls.tcgetattr 0 s.world in
      let pterm1 = calls.tcgetattr 1 s.world in
      ended pterm0 pterm1 (run_files files (set_terminals nterm nterm s))

-- Of the two ports.
unfoldable pub x86_main_session :
    {W T : Type 0} → Calls W T → T → List (List ℕ) → Session W → Option ℕ × Session W
unfolding main_session x86_unknown
x86_main_session calls = main_session calls x86_unknown

unfoldable pub riscv_main_session :
    {W T : Type 0} → Calls W T → T → List (List ℕ) → Session W → Option ℕ × Session W
unfolding main_session riscv_unknown
riscv_main_session calls = main_session calls riscv_unknown
