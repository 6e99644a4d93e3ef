-- ===== src/Floats/Pushes.antt =====
-- What >FLOAT leaves on both stacks.
use smolforth.Base.{
  Gives, ℕ, ◌+◌, ◌-◌, ◌^◌, ◌<◌, ◌≡◌, refl, sym, ◌∙◌, ap, arith, Option, none, some, false, List,
  ◌∷◌, if◌then◌else◌, ◌==◌, lt→ltb, ==_iff,
}
use smolforth.Machine.{Machine}
use smolforth.Stack.{on_st, upop, push}
use smolforth.Stack.Laws.{Holds, upop-Holds, push-Holds}
use smolforth.Files.{bytes_at}
use smolforth.Floats.{Numbers, FloatStack, fpush, push_float, push_read, float_of, to_float}
use mathlib.Core.Option
use mathlib.Core.Path.{subst}

-- True, all bits set, with a number, and false without.
abbrev pub flag_cell : {F : Type 0} → Option F → ℕ
flag_cell none = 0
flag_cell (some x) = 2 ^ 64 - 1

-- The number is the top of the float stack, and the others are under it as before.
abbrev pub FloatsAfter : {F : Type 0} → Option F → FloatStack F → FloatStack F → Type 0
FloatsAfter none s t = t ≡ s
FloatsAfter (some x) s t =
    (t.fps ≡ s.fps + 1)
    × (t.float_stack s.fps ≡ x)
    × ((i : ℕ) → i < s.fps → t.float_stack i ≡ s.float_stack i)

pushed : {F : Type 0} → F → FloatStack F → FloatStack F
pushed x s = record {
  float_stack = λ i. if i == s.fps then x else s.float_stack i;
  fps = s.fps + 1;
}

fpush-pushed : {F : Type 0} (x : F) (s : FloatStack F) → s.fps < 8 → fpush x s ≡ some (pushed x s)
unfolding fpush pushed
fpush-pushed x s room = rw (lt→ltb s.fps 8 room) refl

pushed-FloatsAfter : {F : Type 0} (x : F) (s : FloatStack F) → FloatsAfter (some x) s (pushed x s)
unfolding pushed
pushed-FloatsAfter x s =
    (refl, rw ((==_iff s.fps s.fps).1 refl) refl, λ i lt. rw (apart i s.fps lt) refl)
  where
    apart : (i n : ℕ) → i < n → (i == n) ≡ false
    apart i n h = ground arith

pushes :
    {F : Type 0} (o : Option F) (m : Machine) (s : FloatStack F) (xs : List ℕ)
    → Holds on_st m xs
    → s.fps < 8
    → Gives (λ r. Holds on_st r.0 (flag_cell o ∷ xs) × FloatsAfter o s r.1) (push_float o (m, s))
unfolding push_float
pushes none m s xs h room = (push-Holds on_st m 0 xs (omega arith) h, refl)
pushes {F = F} (some x) m s xs h room =
    subst (λ o. Gives after (Option.map with_flag o)) (sym (fpush-pushed x s room))
      (push-Holds on_st m (2 ^ 64 - 1) xs (omega arith) h, pushed-FloatsAfter x s)
  where
    with_flag : FloatStack F → Machine × FloatStack F
    with_flag t = ((push (2 ^ 64 - 1) on_st m).1, t)

    after : Machine × FloatStack F → Type 0
    after r = Holds on_st r.0 ((2 ^ 64 - 1) ∷ xs) × FloatsAfter (some x) s r.1

-- >FLOAT takes the length and the address of a text for which the buffer is not left, and leaves true
-- and what is read on top of the float stack, or false and the float stack as it was, as long as the
-- float stack has room for one more. Nothing else on the stack changes.
pub to_float-Holds :
    {F : Type 0} (ops : Numbers F) (m : Machine) (s : FloatStack F) (l addr : ℕ) (xs : List ℕ)
    (o : Option F)
    → Holds on_st m (l ∷ addr ∷ xs)
    → float_of ops (bytes_at m.mem addr l) ≡ some o
    → s.fps < 8
    → Gives (λ r. Holds on_st r.0 (flag_cell o ∷ xs) × FloatsAfter o s r.1) (to_float ops (m, s))
unfolding to_float upop push_read
to_float-Holds {F = F} ops m s l addr xs o h e room =
    let second = upop-Holds on_st m l (addr ∷ xs) h in
    let third = upop-Holds on_st (upop on_st m).1 addr xs second.1 in
    subst (Gives after) (sym (ap (push_read (rest.1, s)) (text second.0 third.0 ∙ e)))
      (pushes o rest.1 s xs third.1 room)
  where
    rest : ℕ × Machine
    rest = upop on_st (upop on_st m).1

    after : Machine × FloatStack F → Type 0
    after r = Holds on_st r.0 (flag_cell o ∷ xs) × FloatsAfter o s r.1

    text :
        (upop on_st m).0 ≡ l
        → rest.0 ≡ addr
        → float_of ops (bytes_at m.mem rest.0 (upop on_st m).0)
          ≡ float_of ops (bytes_at m.mem addr l)
    text p q = rw (p, q) refl
