-- ===== src/Files/Paths.antt =====
-- file/OPEN_FILE.c, CREATE_FILE.c, DELETE_FILE.c, RENAME_FILE.c and FILE_STATUS.c: the words that
-- name a file. The flags of <fcntl.h> and the calls are parameters.
use smolforth.Base.{
  ℕ, ◌*◌, bit_and, bit_or, Bool, if◌then◌else◌, ◌==◌, ◌||◌, Option, none, some, List, [], ◌∷◌,
}
use smolforth.Machine.{Machine, M}
use smolforth.Stack.{on_st, pop, upop, push}
use smolforth.Files.{bytes_at, not_positive, minus_one, push_two}

-- The flags that the words combine.
pub record OpenFlags : Type 0 where
  pub o_rdonly : ℕ
  pub o_wronly : ℕ
  pub o_rdwr : ℕ
  pub o_creat : ℕ
  pub o_trunc : ℕ

-- What a call sees of a `char*`: the bytes before the first null byte.
unfoldable pub c_string : List ℕ → List ℕ
c_string [] = []
c_string (b ∷ bs) = let rest = c_string bs in if b == 0 then [] else b ∷ rest

-- `(fam & 07) << 6`
abbrev pub mode_of : ℕ → ℕ
mode_of fam = bit_and fam 7 * 64

-- The flags for an access method; none of them if its bits are all zero.
unfoldable pub open_flags : OpenFlags → ℕ → Option ℕ
open_flags o mode =
    if mode == 256
    then some o.o_rdonly
    else (if mode == 128 then some o.o_wronly else (if mode == 0 then none else some o.o_rdwr))

unfoldable pub create_flags : OpenFlags → ℕ → Option ℕ
create_flags o mode =
    if mode == 256
    then some (bit_or o.o_creat o.o_rdonly)
    else (if mode == 128
        then some (bit_or o.o_creat (bit_or o.o_wronly o.o_trunc))
        else (if mode == 0 then none else some (bit_or o.o_creat o.o_rdwr)))

-- `open`: a path, flags, and permissions where they are given; -1 is `none`.
abbrev pub OpenCall : Type 0 → Type 0
OpenCall Os = List ℕ → ℕ → Option ℕ → Os → Option ℕ × Os

-- A descriptor or a mode and 0, or 0 and -1.
unfoldable pub push_found : Option ℕ → M (Unit {0})
unfolding push_two
push_found none = push_two 0 minus_one
push_found (some n) = push_two n 0

abbrev pub status : Bool → ℕ
status done = if done then 0 else minus_one

module _ {Os : Type 0} where
  unfoldable pub open_path :
      OpenCall Os → List ℕ → Option ℕ → Option ℕ → Machine → Os → Machine × Os
  unfolding push_found
  open_path open_ path none permissions m os = ((push_found none m).1, os)
  open_path open_ path (some flags) permissions m os =
      let r = open_ path flags permissions os in ((push_found r.0 m).1, r.1)

  -- OPEN-FILE and CREATE-FILE, by the flags for a mode and the permissions.
  unfoldable pub open_named : OpenCall Os → (ℕ → Option ℕ) → Option ℕ → Machine → Os → Machine × Os
  unfolding pop upop not_positive bytes_at c_string open_path push_found
  open_named open_ flags permissions m os =
      let fam = pop on_st m in
      let u = pop on_st fam.1 in
      let addr = upop on_st u.1 in
      if not_positive u.0
      then ((push_found none addr.1).1, os)
      else open_path open_ (c_string (bytes_at addr.1.mem addr.0 u.0)) (flags (mode_of fam.0))
          permissions addr.1 os

  unfoldable pub open_file : OpenCall Os → OpenFlags → Machine → Os → Machine × Os
  unfolding open_named open_flags
  open_file open_ o = open_named open_ (open_flags o) none

  unfoldable pub create_file : OpenCall Os → OpenFlags → Machine → Os → Machine × Os
  unfolding open_named create_flags
  create_file open_ o = open_named open_ (create_flags o) (some 384)

  -- `unlink`: whether it succeeded.
  unfoldable pub delete_file : (List ℕ → Os → Bool × Os) → Machine → Os → Machine × Os
  unfolding pop upop push not_positive bytes_at c_string
  delete_file unlink m os =
      let u = pop on_st m in
      let addr = upop on_st u.1 in
      let r = unlink (c_string (bytes_at addr.1.mem addr.0 u.0)) os in
      if not_positive u.0
      then ((push minus_one on_st addr.1).1, os)
      else ((push (status r.0) on_st addr.1).1, r.1)

  -- `rename` from the path below to the path on top.
  unfoldable pub rename_file : (List ℕ → List ℕ → Os → Bool × Os) → Machine → Os → Machine × Os
  unfolding pop upop push not_positive bytes_at c_string
  rename_file rename m os =
      let u1 = pop on_st m in
      let addr1 = upop on_st u1.1 in
      let u0 = pop on_st addr1.1 in
      let addr0 = upop on_st u0.1 in
      let mem = addr0.1.mem in
      let r =
        rename (c_string (bytes_at mem addr0.0 u0.0)) (c_string (bytes_at mem addr1.0 u1.0)) os in
      if not_positive u0.0 || not_positive u1.0
      then ((push minus_one on_st addr0.1).1, os)
      else ((push (status r.0) on_st addr0.1).1, r.1)

  -- `stat`: the mode of the file.
  unfoldable pub file_status : (List ℕ → Os → Option ℕ × Os) → Machine → Os → Machine × Os
  unfolding pop upop push_found not_positive bytes_at c_string
  file_status stat m os =
      let u = pop on_st m in
      let addr = upop on_st u.1 in
      let r = stat (c_string (bytes_at addr.1.mem addr.0 u.0)) os in
      if not_positive u.0
      then ((push_found none addr.1).1, os)
      else ((push_found r.0 addr.1).1, r.1)
