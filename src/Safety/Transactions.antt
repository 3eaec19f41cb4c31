-- ===== src/Safety/Transactions.antt =====
-- What a transaction keeps: inside it only a call that succeeds has to keep the rules (Repos.WithTx of
-- backend/internal/repository).
use qr_dining.Base.{◌≡◌, refl}
use qr_dining.Store.{World, Op, Result, ok, err, with_tx, ◌>>=◌}
use qr_dining.Safety.Rules.{Good, Good-refl, Good-trans, Keeps, keeps, kept}

-- A call that keeps the rules whenever it succeeds.
pub data KeepsDone {A : Type 0} (m : Op A) : Type 0 where
  keeps_done : ((w : World) (a : A) → (m w).0 ≡ ok a → Good w (m w).1) → KeepsDone m

pub done_kept :
    {A : Type 0} {m : Op A} → KeepsDone m → (w : World) (a : A) → (m w).0 ≡ ok a → Good w (m w).1
done_kept (keeps_done h) = h

pub KeepsDone-bind :
    {A B : Type 0} (m : Op A) (f : A → Op B)
    → Keeps m
    → ((a : A) → KeepsDone (f a))
    → KeepsDone (m >>= f)
KeepsDone-bind {A} {B} m f k h = keeps_done λ w. go (m w) (kept k w)
  where
    go :
        {w : World} (r : Result A × World)
        → Good w r.1
        → (b : B) → (((λ _. r) >>= f) w).0 ≡ ok b
        → Good w (((λ _. r) >>= f) w).1
    go (ok a, w') g b e = Good-trans g (done_kept (h a) w' b e)
    go (err e', w') g b e = absurd (cc)

pub KeepsDone-then :
    {A B : Type 0} (m : Op A) (f : A → Op B)
    → KeepsDone m
    → ((a : A) → Keeps (f a))
    → KeepsDone (m >>= f)
KeepsDone-then {A} {B} m f h k = keeps_done λ w. go (m w) (done_kept h w)
  where
    go :
        {w : World} (r : Result A × World)
        → ((a : A) → r.0 ≡ ok a → Good w r.1)
        → (b : B) → (((λ _. r) >>= f) w).0 ≡ ok b
        → Good w (((λ _. r) >>= f) w).1
    go (ok a, w') g b e = Good-trans (g a refl) (kept (k a) w')
    go (err e', w') g b e = absurd (cc)

pub Keeps-transaction : {A : Type 0} (m : Op A) → KeepsDone m → Keeps (with_tx m)
Keeps-transaction {A} m h = keeps λ w. go (m w) (done_kept h w)
  where
    go :
        {w : World} (r : Result A × World)
        → ((a : A) → r.0 ≡ ok a → Good w r.1)
        → Good w (with_tx (λ _. r) w).1
    go (ok a, w') g = g a refl
    go (err e, w') g = Good-refl
