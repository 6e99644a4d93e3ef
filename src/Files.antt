-- ===== src/Files.antt =====
-- file/*.c: the words that read, write and seek. The operating system is a state and the functions
-- that the words call: `none` is the answer -1.
pub mod Written
pub mod Paths
pub mod Opened
pub mod Asked
use smolforth.Base.{
  ℕ, zero, suc, ◌+◌, ◌-◌, ◌*◌, ◌/◌, ◌%◌, ◌^◌, Bool, true, false, if◌then◌else◌, ◌==◌, leb, ◌||◌,
}
use smolforth.Base.{Option, none, some, List, [], ◌∷◌}
use smolforth.Memory.{Mem, get_byte, set_byte}
use smolforth.Machine.{Machine, M, pure, ◌>>=◌, ◌>>◌}
use smolforth.Stack.{on_st, pop, upop, push, udpop, dpush, udpush}

-- The bytes of memory from an address up.
unfoldable pub bytes_at : Mem → ℕ → ℕ → List ℕ
bytes_at mem a zero = []
bytes_at mem a (suc n) = get_byte mem a ∷ bytes_at mem (a + 1) n

-- `u <= 0` of a signed cell.
unfoldable pub not_positive : ℕ → Bool
not_positive u = (u == 0) || leb (2 ^ 63) u

-- What `read` of one byte answers.
pub data OneByte : Type 0 where
  got : ℕ → OneByte
  at_end failed : OneByte

-- Where the loop of READ-LINE ends: with a line of `l` bytes, at the end of the file, or in an
-- error.
pub data LineEnd : Type 0 where
  line : ℕ → LineEnd
  no_line read_error : LineEnd

-- `write`: how many of the bytes were taken.
abbrev pub WriteCall : Type 0 → Type 0
WriteCall Os = ℕ → List ℕ → Os → Option ℕ × Os

abbrev pub ReadByte : Type 0 → Type 0
ReadByte Os = ℕ → Os → OneByte × Os

-- `read` of up to `u` bytes: the bytes that were read.
abbrev pub ReadCall : Type 0 → Type 0
ReadCall Os = ℕ → ℕ → Os → Option (List ℕ) × Os

-- `lseek64`: the offset and whence, and the position reached.
pub data Whence : Type 0 where
  seek_set seek_cur seek_end : Whence

abbrev pub SeekCall : Type 0 → Type 0
SeekCall Os = ℕ → ℕ → Whence → Os → Option ℕ × Os

abbrev pub minus_one : ℕ
minus_one = 2 ^ 64 - 1

-- The two or three cells that a word leaves.
unfoldable pub push_two : ℕ → ℕ → M (Unit {0})
unfolding push
push_two a b = do push a on_st; push b on_st

unfoldable pub push_three : ℕ → ℕ → ℕ → M (Unit {0})
unfolding push
push_three a b c = do push a on_st; push b on_st; push c on_st

unfoldable pub store_bytes : List ℕ → ℕ → Mem → Mem
store_bytes [] a mem = mem
store_bytes (b ∷ bs) a mem = store_bytes bs (a + 1) (set_byte mem a b)

unfoldable pub length_of : List ℕ → ℕ
length_of [] = 0
length_of (b ∷ bs) = length_of bs + 1

unfoldable pub finish_line : LineEnd → M (Unit {0})
unfolding push_three
finish_line (line l) = push_three l minus_one 0
finish_line no_line = push_three 0 0 0
finish_line read_error = push_three 0 0 minus_one

unfoldable pub finish_read : Option (List ℕ) → ℕ → Machine → Machine
unfolding push_two store_bytes length_of
finish_read none addr m = (push_two 0 minus_one m).1
finish_read (some bs) addr m =
    (push_two (length_of bs) 0 (record m { mem = store_bytes bs addr m.mem })).1

-- A double cell and a cell.
unfoldable pub answer : Option ℕ → M (Unit {0})
unfolding dpush push
answer none = do dpush 0 on_st; push minus_one on_st
answer (some l) = do dpush l on_st; push 0 on_st

module _ {Os : Type 0} where
  -- `while(u > 0)` on fuel: whether all was written, or -1 came back; `none` if fuel runs out.
  unfoldable pub write_loop : WriteCall Os → ℕ → ℕ → Mem → ℕ → ℕ → Os → Option (Bool × Os)
  unfolding bytes_at
  write_loop write fid fuel mem addr zero os = some (true, os)
  write_loop write fid zero mem addr (suc u) os = none
  write_loop write fid (suc fuel) mem addr (suc u) os =
      let (answer, os') = write fid (bytes_at mem addr (suc u)) os in
      elim answer [
        | none ↦ some (false, os')
        | some r ↦ write_loop write fid fuel mem (addr + r) (suc u - r) os'
      ]

  unfoldable pub finish_write : Option (Bool × Os) → Machine → Option (Machine × Os)
  unfolding push
  finish_write none m = none
  finish_write (some (all, os)) m = some ((push (if all then 0 else minus_one) on_st m).1, os)

  unfoldable pub write_file : WriteCall Os → Machine → Os → Option (Machine × Os)
  unfolding pop upop push write_loop finish_write not_positive
  write_file write m os =
      let fid = pop on_st m in
      let u = pop on_st fid.1 in
      let addr = upop on_st u.1 in
      if not_positive u.0
      then some ((push 0 on_st addr.1).1, os)
      else finish_write (write_loop write fid.0 u.0 addr.1.mem addr.0 u.0 os) addr.1

  -- The loop of READ-LINE, which takes at most `u` bytes; `l` are stored.
  unfoldable pub read_line_loop : ReadByte Os → ℕ → ℕ → ℕ → ℕ → Mem → Os → LineEnd × Mem × Os
  read_line_loop read fid zero addr l mem os = (line l, mem, os)
  read_line_loop read fid (suc u) addr l mem os =
      let (byte, os') = read fid os in
      elim byte [
        | got c ↦
            let rest = read_line_loop read fid u (addr + 1) (l + 1) (set_byte mem addr c) os' in
            if c == 13
            then (line l, mem, (read fid os').1)
            else (if c == 10 then (line l, mem, os') else rest)
        | at_end ↦ (if l == 0 then no_line else line l, mem, os')
        | failed ↦ (read_error, mem, os')
      ]

  unfoldable pub read_line : ReadByte Os → Machine → Os → Machine × Os
  unfolding pop upop push_three read_line_loop finish_line not_positive
  read_line read m os =
      let fid = pop on_st m in
      let u = pop on_st fid.1 in
      let addr = upop on_st u.1 in
      let r = read_line_loop read fid.0 u.0 addr.0 0 addr.1.mem os in
      if not_positive u.0
      then ((push_three 0 minus_one 0 addr.1).1, os)
      else ((finish_line r.0 (record addr.1 { mem = r.1 })).1, r.2)

  unfoldable pub read_file : ReadCall Os → Machine → Os → Machine × Os
  unfolding pop upop push_two finish_read not_positive
  read_file read m os =
      let fid = pop on_st m in
      let u = pop on_st fid.1 in
      let addr = upop on_st u.1 in
      let r = read fid.0 u.0 os in
      if not_positive u.0
      then ((push_two 0 minus_one addr.1).1, os)
      else (finish_read r.0 addr.0 addr.1, r.1)

  unfoldable pub file_position : SeekCall Os → Machine → Os → Machine × Os
  unfolding pop answer
  file_position seek m os =
      let fid = pop on_st m in let l = seek fid.0 0 seek_cur os in ((answer l.0 fid.1).1, l.1)

  -- The end is sought to learn the size, and then the old position again.
  unfoldable pub file_size : SeekCall Os → Machine → Os → Machine × Os
  unfolding pop answer
  file_size seek m os =
      let fid = pop on_st m in
      let (now, os1) = seek fid.0 0 seek_cur os in
      let (last, os2) = seek fid.0 0 seek_end os1 in
      elim now [
        | none ↦ ((answer none fid.1).1, os1)
        | some l ↦ elim last [
          | none ↦ ((answer none fid.1).1, os2)
          | some size ↦ ((answer (some size) fid.1).1, (seek fid.0 l seek_set os2).1)
        ]
      ]

  unfoldable pub reposition_file : SeekCall Os → Machine → Os → Machine × Os
  unfolding pop udpop push
  reposition_file seek m os =
      let fid = pop on_st m in
      let off = udpop on_st fid.1 in
      let (reached, os') = seek fid.0 (off.0 % 2 ^ 64) seek_set os in
      elim reached [
        | none ↦ ((push minus_one on_st off.1).1, os')
        | some l ↦ ((push 0 on_st off.1).1, os')
      ]

  -- `ftruncate64`: whether it succeeded.
  unfoldable pub resize_file : (ℕ → ℕ → Os → Bool × Os) → Machine → Os → Machine × Os
  unfolding pop udpop push
  resize_file truncate m os =
      let id = pop on_st m in
      let size = udpop on_st id.1 in
      let r = truncate id.0 (size.0 % 2 ^ 64) os in
      ((push (if r.0 then 0 else minus_one) on_st size.1).1, r.1)
