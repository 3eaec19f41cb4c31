-- ===== src/Store/Monad.antt =====
-- A service call: it reads and changes the world and ends with a result or a domain error. What was
-- written before an error stays written, unless it was written inside a transaction.
use qr_dining.Base.{⊤, Bool, true, false, Option, none, some, ◌∷◌}
use qr_dining.Domain.{Error}
use qr_dining.Store.Model.{World, Effect}

pub data Result (A : Type 0) : Type 0 where
  ok : A → Result A
  err : Error → Result A

abbrev pub Op : Type 0 → Type 0
Op A = World → Result A × World

module _ {A : Type 0} where
  abbrev pub pure : A → Op A
  pure a w = (ok a, w)

  abbrev pub fail : Error → Op A
  fail e w = (err e, w)

  abbrev pub gets : (World → A) → Op A
  gets f w = (ok (f w), w)

  -- A missing row as the error that the repository returns for it.
  abbrev pub or_fail : Option A → Error → Op A
  or_fail none e = fail e
  or_fail (some a) _ = pure a

  -- Repos.WithTx: an error rolls back every write, effects included.
  abbrev pub with_tx : Op A → Op A
  with_tx m w = let (r, w') = m w in elim r [ ok a ↦ (ok a, w') | err e ↦ (err e, w) ]

-- `if found { … }`: what to do with a value that is there, and what without one.
abbrev pub if_found : {A B : Type 0} → Option A → (A → Op B) → Op B → Op B
if_found (some a) k _ = k a
if_found none _ m = m

infixl 5 ◌>>=◌ ◌>>◌
abbrev pub ◌>>=◌ : {A B : Type 0} → Op A → (A → Op B) → Op B
◌>>=◌ m f w = let (r, w') = m w in elim r [ ok a ↦ f a w' | err e ↦ (err e, w') ]

abbrev pub ◌>>◌ : {A B : Type 0} → Op A → Op B → Op B
m >> k = m >>= λ _. k

abbrev pub fail_if : Bool → Error → Op ⊤
fail_if true e = fail e
fail_if false e = pure tt

abbrev pub when : Bool → Op ⊤ → Op ⊤
when true m = m
when false m = pure tt

abbrev pub modify : (World → World) → Op ⊤
modify f w = (ok tt, f w)

-- The newest effect stands first.
abbrev pub emit : Effect → Op ⊤
emit e w = (ok tt, record w { effects = e ∷ w.effects })

-- `if err := …; err != nil { … }`: what comes after an error too.
abbrev pub attempt : {A B : Type 0} → Op A → (Result A → Op B) → Op B
attempt m k w = let (r, w') = m w in k r w'
