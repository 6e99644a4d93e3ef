-- ===== src/Startup/Sources.antt =====
-- The loop of main.c over the files: which are read, and where it stops.
use smolforth.Base.{ℕ, ◌≡◌, false, List, [], ◌∷◌, codes, same_text, some, Bool}
use smolforth.Startup.Session.{Session, Calls, open_source, interpret}

module _ {W T : Type 0} (calls : Calls W T) (is_unknown : ℕ → Bool) where
  -- The session after the source at `a`, opened as `f`, has been interpreted.
  abbrev pub read_source : List ℕ → ℕ → Session W → Session W
  read_source a f s = interpret calls is_unknown f (open_source calls is_unknown a s).1

  -- Files, none of them called "--", that are opened and leave no error, one after the other, and
  -- the session before and after them.
  pub data Reads : List (List ℕ) → Session W → Session W → Type 0 where
    nothing : (s : Session W) → Reads [] s s
    one_more :
        (a : List ℕ) (more : List (List ℕ)) (f : ℕ) (s t : Session W)
        → same_text a (codes "--") ≡ false
        → (open_source calls is_unknown a s).0 ≡ some f
        → (read_source a f s).errno ≡ 0
        → Reads more (read_source a f s) t
        → Reads (a ∷ more) s t
