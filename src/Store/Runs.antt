-- ===== src/Store/Runs.antt =====
-- What a service call that succeeded went through, and calls that only read.
use qr_dining.Base.{Bool, true, false, Option, none, some, ◌≡◌, refl, sym, ap, ◌∙◌}
use qr_dining.Domain.{Error}
use qr_dining.Store.Model.{World}
use qr_dining.Store.Monad.{Op, Result, ok, err, pure, gets, or_fail, fail_if, ◌>>=◌}

-- A chain that succeeds went through its first call, and the rest succeeded after it.
pub done_bind :
    {A B : Type 0} (m : Op A) (f : A → Op B) (w w' : World) (b : B)
    → (m >>= f) w ≡ (ok b, w')
    → (a : A) × (w₁ : World) × (m w ≡ (ok a, w₁)) × (f a w₁ ≡ (ok b, w'))
done_bind {A} {B} m f w w' b h = go (m w) h
  where
    go :
        (r : Result A × World)
        → ((λ _. r) >>= f) w ≡ (ok b, w')
        → (a : A) × (w₁ : World) × (r ≡ (ok a, w₁)) × (f a w₁ ≡ (ok b, w'))
    go (ok a, w₁) e = (a, w₁, refl, e)
    go (err x, w₁) e = absurd (cc)

-- A call that leaves the world as it is.
pub data Reads {A : Type 0} (m : Op A) : Type 0 where
  reads : ((w : World) → (m w).1 ≡ w) → Reads m

pub read_only : {A : Type 0} {m : Op A} → Reads m → (w : World) → (m w).1 ≡ w
read_only (reads h) = h

module _ {A : Type 0} where
  pub Reads-pure : (a : A) → Reads (pure a)
  Reads-pure a = reads λ w. refl

  pub Reads-gets : (f : World → A) → Reads (gets f)
  Reads-gets f = reads λ w. refl

  pub Reads-or_fail : (o : Option A) (e : Error) → Reads (or_fail o e)
  Reads-or_fail none e = reads λ w. refl
  Reads-or_fail (some a) e = reads λ w. refl

pub Reads-fail_if : (b : Bool) (e : Error) → Reads (fail_if b e)
Reads-fail_if true e = reads λ w. refl
Reads-fail_if false e = reads λ w. refl

pub Reads-bind :
    {A B : Type 0} (m : Op A) (f : A → Op B) → Reads m → ((a : A) → Reads (f a)) → Reads (m >>= f)
Reads-bind {A} {B} m f (reads h) k = reads λ w. go (m w) (h w)
  where
    go : {w : World} (r : Result A × World) → r.1 ≡ w → (((λ _. r) >>= f) w).1 ≡ w
    go (ok a, w') e = read_only (k a) w' ∙ e
    go (err e', w') e = e

-- What a call that only reads ends with.
pub Reads-done :
    {A : Type 0} {m : Op A} {w w' : World} {a : A} → Reads m → m w ≡ (ok a, w') → w' ≡ w
Reads-done {A} {m} {w} r h = sym (ap (λ (p : Result A × World). p.1) h) ∙ read_only r w

pub done_or_fail :
    {A : Type 0} (o : Option A) (e : Error) (w w' : World) (a : A)
    → or_fail o e w ≡ (ok a, w')
    → (o ≡ some a) × (w' ≡ w)
done_or_fail none e w w' a h = absurd (cc)
done_or_fail (some b) e w w' a h = (cc, cc)

pub done_fail_if :
    (b : Bool) (e : Error) (w w' : World) → fail_if b e w ≡ (ok tt, w') → (b ≡ false) × (w' ≡ w)
done_fail_if true e w w' h = absurd (cc)
done_fail_if false e w w' h = (refl, cc)

pub done_pure : {A : Type 0} (a b : A) (w w' : World) → pure a w ≡ (ok b, w') → (a ≡ b) × (w' ≡ w)
done_pure a b w w' h = (cc, cc)

-- A chain goes on where its first call succeeded.
pub go_on :
    {A B : Type 0} (m : Op A) (f : A → Op B) (w w₁ : World) (a : A) (r : Result B × World)
    → m w ≡ (ok a, w₁)
    → f a w₁ ≡ r
    → (m >>= f) w ≡ r
go_on m f w w₁ a r e e' = ap (λ p. ((λ _. p) >>= f) w) e ∙ e'
