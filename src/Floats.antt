-- ===== src/Floats.antt =====
-- float/float.c, to_FLOAT.c, D_to_F.c and F_to_D.c. The type of floating-point numbers and what the
-- C library does with them are parameters. A write outside an array, which has no meaning in C,
-- is `none`.
pub mod Scan
pub mod Text
pub mod Reads
pub mod Pushes
pub mod Spelled
pub mod Answers
pub mod Represent
pub mod Digits
use smolforth.Base.{
  ℕ, zero, suc, ◌+◌, ◌-◌, ◌*◌, ◌^◌, Bool, true, false, ◌&&◌, ◌||◌, not, if◌then◌else◌, ◌==◌, ltb,
  leb, Option, none, some, List, [], ◌∷◌, ◌++◌, length, take,
}
use mathlib.Core.Option
use smolforth.Machine.{Machine}
use smolforth.Stack.{on_st, upop, push, dpop, dpush}
use smolforth.Files.{bytes_at}

-- `float_stack`, and `fps` as an index into it.
pub record FloatStack (F : Type 0) : Type 0 where
  pub float_stack : ℕ → F
  pub fps : ℕ

abbrev pub float_stack_cells : ℕ
float_stack_cells = 8

unfoldable pub fpush : {F : Type 0} → F → FloatStack F → Option (FloatStack F)
fpush x s =
    if ltb s.fps float_stack_cells
    then some
        (record { float_stack = λ i. if i == s.fps then x else s.float_stack i; fps = s.fps + 1 })
    else none

unfoldable pub fpop : {F : Type 0} → FloatStack F → Option (F × FloatStack F)
fpop s =
    if (s.fps == 0) || ltb float_stack_cells s.fps
    then none
    else some (s.float_stack (s.fps - 1), record s { fps = s.fps - 1 })

-- The conversions of C, `isspace` of ctype.h, and `sscanf` with "%f" or "%lf", which answers a number
-- if the text begins with one.
pub record Numbers (F : Type 0) : Type 0 where
  pub of_zero : F
  pub of_dcell : ℕ → F
  pub to_dcell : F → ℕ
  pub isspace : ℕ → Bool
  pub sscanf : List ℕ → Option F

unfoldable pub is_digit : ℕ → Bool
is_digit c = leb 48 c && leb c 57

-- `case 'e': case 'E': case 'd': case 'D':`
unfoldable pub is_exponent : ℕ → Bool
is_exponent c = (c == 101) || (c == 69) || (c == 100) || (c == 68)

unfoldable pub is_sign : ℕ → Bool
is_sign c = (c == 43) || (c == 45)

-- The characters of the first `switch`: digits, point, letters, signs and the space.
unfoldable pub is_allowed : ℕ → Bool
unfolding is_digit is_exponent is_sign
is_allowed c = is_digit c || (c == 46) || is_exponent c || is_sign c || (c == 32)

pub record Flags : Type 0 where
  pub has_non_space : Bool
  pub has_space : Bool
  pub has_e : Bool
  pub has_sign : Bool

abbrev pub no_flags : Flags
no_flags = record { has_non_space = false; has_space = false; has_e = false; has_sign = false }

-- The second `switch`, for a character at `i` that is no space.
unfoldable pub mark_char : ℕ → ℕ → Flags → Option Flags
unfolding is_exponent is_sign
mark_char i c f =
    if is_exponent c
    then (if f.has_e then none else some (record f { has_e = true }))
    else some (if is_sign c && not (i == 0) then record f { has_sign = true } else f)

-- A round of the first loop; `none` returns false to the program.
unfoldable pub scan_char : (ℕ → Bool) → ℕ → ℕ → Flags → Option Flags
unfolding is_allowed mark_char
scan_char isspace i c f =
    let g =
      if isspace c then record f { has_space = true } else record f { has_non_space = true } in
    if not (is_allowed c)
    then none
    else (if g.has_non_space && g.has_space
        then none
        else (if isspace c then some g else mark_char i c g))

unfoldable pub scan_text : (ℕ → Bool) → ℕ → List ℕ → Flags → Option Flags
unfolding scan_char
scan_text isspace i [] f = some f
scan_text isspace i (c ∷ cs) f = elim (scan_char isspace i c f) [
  | none ↦ none
  | some g ↦ scan_text isspace (i + 1) cs g
]

-- `has_sign && !has_e`
abbrev pub inserts : Flags → Bool
inserts f = f.has_sign && not f.has_e

-- What a round of the second loop writes: an exponent is an 'E', and so is put before a sign that is
-- not the first character, if the text has none.
unfoldable pub copy_char : Bool → ℕ → ℕ → List ℕ
unfolding is_sign
copy_char insert i c =
    if (c == 100) || (c == 68)
    then 69 ∷ []
    else (if is_sign c && not (i == 0) && insert then 69 ∷ c ∷ [] else c ∷ [])

unfoldable pub copy_text : Bool → ℕ → List ℕ → List ℕ
unfolding copy_char
copy_text insert i [] = []
copy_text insert i (c ∷ cs) = copy_char insert i c ++ copy_text insert (i + 1) cs

-- `k`, the size of the buffer.
unfoldable pub buffer_size : Bool → ℕ → ℕ
buffer_size insert l = l + 1 + (if insert then 1 else 0)

-- The text in the buffer, which ends at the null byte that is written last.
unfoldable pub buffer_text : Bool → List ℕ → Option (List ℕ)
unfolding buffer_size copy_text
buffer_text insert cs =
    let k = buffer_size insert (length cs) in
    let copied = copy_text insert 0 cs in
    if ltb k (length copied) then none else some (take (k - 1) copied)

-- What is pushed: a number and true, or false.
unfoldable pub push_float :
    {F : Type 0} → Option F → Machine × FloatStack F → Option (Machine × FloatStack F)
unfolding fpush push
push_float none (m, s) = some ((push 0 on_st m).1, s)
push_float (some x) (m, s) = Option.map (λ t. ((push (2 ^ 64 - 1) on_st m).1, t)) (fpush x s)

-- `sscanf` of the text in the buffer, if it was not left.
unfoldable pub read_buffer : {F : Type 0} → Numbers F → Option (List ℕ) → Option (Option F)
read_buffer ops none = none
read_buffer ops (some text) = some (ops.sscanf text)

-- What follows the first loop.
unfoldable pub read_scanned : {F : Type 0} → Numbers F → List ℕ → Option Flags → Option (Option F)
unfolding buffer_text read_buffer
read_scanned ops cs none = some none
read_scanned ops cs (some f) =
    if not f.has_non_space && f.has_space
    then some (some ops.of_zero)
    else read_buffer ops (buffer_text (inserts f) cs)

-- The number of a text, the outer `none` if the buffer is left.
unfoldable pub float_of : {F : Type 0} → Numbers F → List ℕ → Option (Option F)
unfolding scan_text read_scanned
float_of ops [] = some (some ops.of_zero)
float_of ops (c ∷ cs) = read_scanned ops (c ∷ cs) (scan_text ops.isspace 0 (c ∷ cs) no_flags)

unfoldable pub push_read :
    {F : Type 0} → Machine × FloatStack F → Option (Option F) → Option (Machine × FloatStack F)
unfolding push_float
push_read s none = none
push_read s (some x) = push_float x s

unfoldable pub to_float :
    {F : Type 0} → Numbers F → Machine × FloatStack F → Option (Machine × FloatStack F)
unfolding upop float_of push_read
to_float ops (m, s) =
    let l = upop on_st m in
    let addr = upop on_st l.1 in
    push_read (addr.1, s) (float_of ops (bytes_at addr.1.mem addr.0 l.0))

unfoldable pub d_to_f :
    {F : Type 0} → Numbers F → Machine × FloatStack F → Option (Machine × FloatStack F)
unfolding dpop fpush
d_to_f ops (m, s) = let d = dpop on_st m in Option.map (λ t. (d.1, t)) (fpush (ops.of_dcell d.0) s)

unfoldable pub f_to_d :
    {F : Type 0} → Numbers F → Machine × FloatStack F → Option (Machine × FloatStack F)
unfolding fpop dpush
f_to_d {F = F} ops (m, s) =
    Option.map (λ (r : F × FloatStack F). ((dpush (ops.to_dcell r.0) on_st m).1, r.1)) (fpop s)
