-- ===== src/Base/Results.antt =====
-- Results of code that may end the program.
use mathlib.Core.Option.{Option, none, some}
use mathlib.Core.Bool.{Bool, true, false}
use mathlib.Core.Path.{◌≡◌, refl}
use smolforth.Base.Tests.{if◌then◌else◌}

-- The code answers, and the answer has the property.
abbrev pub Gives : {A : Type 0} → (A → Type 0) → Option A → Type 0
Gives P none = ⊥
Gives P (some a) = P a

pub Gives-map :
    {A : Type 0} (P Q : A → Type 0) (o : Option A) → ((a : A) → P a → Q a) → Gives P o → Gives Q o
Gives-map P Q none h g = g
Gives-map P Q (some a) h g = h a g

pub Gives-if :
    {A : Type 0} (P : A → Type 0) (b : Bool) (x y : Option A)
    → (b ≡ true → Gives P x)
    → (b ≡ false → Gives P y)
    → Gives P (if b then x else y)
Gives-if P true x y h k = h refl
Gives-if P false x y h k = k refl
