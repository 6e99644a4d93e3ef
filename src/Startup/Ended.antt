-- ===== src/Startup/Ended.antt =====
-- How main.c ends: which arguments are whose, in what order the files are read, and what the
-- terminal and the return stack are left as.
use smolforth.Base.{
  ℕ, ◌+◌, ◌-◌, ◌*◌, ◌/◌, ◌%◌, ◌^◌, ◌≤◌, ◌<◌, ◌≡◌, ◌≢◌, inl, inr, refl, ◌∙◌, arith, bit_and, Bool,
  false, Bool-cases, Option, none, some, Option-cases, List, [], ◌∷◌, ◌++◌, codes, same_text,
  if◌then◌else◌, ◌==◌,
}
use smolforth.Base.Bits.{bit_and_digit, bit_and_mask}
use smolforth.Startup.Session.{
  Session, Calls, Ending, finished, failed, exited, skip_arguments, run_files, open_source,
  interpret, report, main_session, ended, set_terminals, x86_return_stack,
}

-- No argument is the text "--".
abbrev pub NoDashes : List (List ℕ) → Type 0
NoDashes [] = Unit
NoDashes (a ∷ more) = (same_text a (codes "--") ≡ false) × NoDashes more

-- Cut down to a multiple of 32.
down : (a : ℕ) → a < 2 ^ 64 → bit_and a (2 ^ 64 - 32) ≡ a / 32 * 32
down a h = omega (
  arith,
  bit_and_digit a (2 ^ 64 - 32),
  bit_and_digit (a / 2) (2 ^ 63 - 16),
  bit_and_digit (a / 2 / 2) (2 ^ 62 - 8),
  bit_and_digit (a / 2 / 2 / 2) (2 ^ 61 - 4),
  bit_and_digit (a / 2 / 2 / 2 / 2) (2 ^ 60 - 2),
  bit_and_mask 59 (a / 2 / 2 / 2 / 2 / 2),
)

-- The return stack of the x86-64 port, over a block of 8192 bytes at `c`: its pointer is a multiple
-- of 32 inside the block, its size is that of the block, and so it may begin up to 31 bytes below it.
pub x86_return_stack-bounds :
    (c : ℕ)
    → c + 8192 < 2 ^ 64
    → let r = x86_return_stack c in
      (r.0 % 32 ≡ 0) × (r.0 ≤ c + 8192) × (r.1 ≡ 8192) × (r.0 - r.1 ≤ c) × (c < r.0 - r.1 + 32)
unfolding x86_return_stack
x86_return_stack-bounds c h =
    rw (top, down c (omega arith)) (omega arith, omega arith, omega arith, omega arith, omega arith)
  where
    top : bit_and ((c + 2 * 4096) % 2 ^ 64) (2 ^ 64 - 32) ≡ (c + 8192) / 32 * 32
    top = omega (arith, down ((c + 2 * 4096) % 2 ^ 64) (omega arith))

skip_arguments-append :
    (xs ys : List (List ℕ)) → NoDashes xs → skip_arguments (xs ++ codes "--" ∷ ys) ≡ ys
unfolding skip_arguments
skip_arguments-append [] ys h = refl
skip_arguments-append (x ∷ xs) ys h = rw (h.0, skip_arguments-append xs ys h.1) refl

module _ {W T : Type 0} (calls : Calls W T) (is_unknown : ℕ → Bool) where
  -- The files that follow are read if the loop has come to their place.
  abbrev pub resume : List (List ℕ) → Ending × Session W → Ending × Session W
  resume more (finished, s) = run_files calls is_unknown more s
  resume more (failed e, s) = (failed e, s)
  resume more (exited, s) = (exited, s)

  -- Files are read in order, and those behind an error or a file that is not opened are not.
  pub run_files-append :
      (xs ys : List (List ℕ)) (s : Session W)
      → NoDashes xs
      → run_files calls is_unknown (xs ++ ys) s ≡ resume ys (run_files calls is_unknown xs s)
  unfolding run_files
  run_files-append [] ys s h = refl
  run_files-append (x ∷ xs) ys s h = elim (Option-cases (open_source calls is_unknown x s).0) [
    | inl closed ↦ rw (h.0, closed) refl
    | inr opened ↦
        let done = interpret calls is_unknown opened.0 (open_source calls is_unknown x s).1 in
        rw (h.0, opened.1)
          (read_on (run_files calls is_unknown (xs ++ ys) done) (run_files calls is_unknown xs done)
            (report calls is_unknown done) done.errno (run_files-append xs ys done h.1))
  ]
    where
      read_on :
          (p q : Ending × Session W) (t : Session W) (e : ℕ)
          → p ≡ resume ys q
          → (if e == 0 then p else (failed e, t)) ≡ resume ys (if e == 0 then q else (failed e, t))
      read_on p q t e h = elim (Bool-cases (e == 0)) [
        | inl ended_well ↦ rw ended_well h
        | inr other ↦ rw other refl
      ]

  nothing_more : (ys : List (List ℕ)) (r : Ending × Session W) → resume (codes "--" ∷ ys) r ≡ r
  unfolding run_files
  nothing_more ys (finished, s) = refl
  nothing_more ys (failed e, s) = refl
  nothing_more ys (exited, s) = refl

  -- The arguments before the first "--", of which the first is the name of the program, are the
  -- files that are read; those behind it are left to the words, in `sf_argv`.
  pub run_files-skip_arguments :
      (name : List ℕ) (xs ys : List (List ℕ)) (s : Session W)
      → NoDashes (name ∷ xs)
      → (skip_arguments (name ∷ xs ++ codes "--" ∷ ys) ≡ ys)
        × (run_files calls is_unknown (xs ++ codes "--" ∷ ys) s ≡ run_files calls is_unknown xs s)
  run_files-skip_arguments name xs ys s h = (
    skip_arguments-append (name ∷ xs) ys h,
    run_files-append xs (codes "--" ∷ ys) s h.1 ∙ nothing_more ys (run_files calls is_unknown xs s),
  )

  -- The settings last set are the ones that are read, and those of another terminal stay.
  abbrev pub KeepsSettings : Type 0
  KeepsSettings =
      (fd : ℕ) (t : T) (w : W)
      → (calls.tcgetattr fd (calls.tcsetattr fd t w) ≡ t)
        × ((other : ℕ)
            → other ≢ fd
            → calls.tcgetattr other (calls.tcsetattr fd t w) ≡ calls.tcgetattr other w)

  -- The settings of both terminals, of a session that returned.
  abbrev pub SettingsOf : T → T → Option ℕ × Session W → Type 0
  SettingsOf t0 t1 (none, s) = Unit
  SettingsOf t0 t1 (some rc, s) =
      (calls.tcgetattr 0 s.world ≡ t0) × (calls.tcgetattr 1 s.world ≡ t1)

  -- When main returns, with any result, both terminals have the settings that they had before, for
  -- whatever QUIT and the calls of the system did. (After `exit(1)` nothing sets them back.)
  pub main_session-SettingsOf :
      (nterm : T) (files : List (List ℕ)) (s : Session W)
      → KeepsSettings
      → SettingsOf
          (calls.tcgetattr 0 s.world)
          (calls.tcgetattr 1 s.world)
          (main_session calls is_unknown nterm files s)
  unfolding main_session set_terminals ended
  main_session-SettingsOf nterm files s keeps =
      both (calls.tcgetattr 0 s.world) (calls.tcgetattr 1 s.world)
        (run_files calls is_unknown files (set_terminals calls is_unknown nterm nterm s))
    where
      restored :
          (t0 t1 : T) (r : Session W)
          → let w = (set_terminals calls is_unknown t0 t1 r).world in
            (calls.tcgetattr 0 w ≡ t0) × (calls.tcgetattr 1 w ≡ t1)
      restored t0 t1 r = (
        (keeps 1 t1 (calls.tcsetattr 0 t0 r.world)).1 0 (omega arith) ∙ (keeps 0 t0 r.world).0,
        (keeps 1 t1 (calls.tcsetattr 0 t0 r.world)).0,
      )

      both :
          (t0 t1 : T) (r : Ending × Session W) → SettingsOf t0 t1 (ended calls is_unknown t0 t1 r)
      both t0 t1 (finished, r) = restored t0 t1 r
      both t0 t1 (failed e, r) = restored t0 t1 r
      both t0 t1 (exited, r) = tt
