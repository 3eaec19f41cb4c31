-- ===== src/Base/Rows.antt =====
-- Database rows as lists: the first row that meets a condition, and an update of all that do.
use Prim.Native.Nat.{ℕ, suc, ◌≤◌, compare, Ordering}
use mathlib.Core.Path.{◌≡◌, refl, subst, ◌∙◌, ap}
use mathlib.Core.Bool.{Bool, true, false, ◌&&◌, ◌||◌}
use mathlib.Core.Option.{Option, none, some}
use mathlib.Core.List.{List, [], ◌∷◌, ◌++◌}
use native.Mathlib.Omega.{arith}

module _ {A : Type 0} where
  abbrev pub choose : Bool → A → A → A
  choose true x _ = x
  choose false _ y = y

  -- `SELECT … WHERE p`, the first row.
  abbrev pub find? : (A → Bool) → List A → Option A
  find? p [] = none
  find? p (x ∷ xs) = elim (p x) [ true ↦ some x | false ↦ find? p xs ]

  -- `UPDATE … SET f WHERE p`
  abbrev pub update_where : (A → Bool) → (A → A) → List A → List A
  update_where p f [] = []
  update_where p f (x ∷ xs) = choose (p x) (f x) x ∷ update_where p f xs

  -- `SELECT … WHERE p`, all rows.
  abbrev pub select : (A → Bool) → List A → List A
  select p [] = []
  select p (x ∷ xs) = let rest = select p xs in elim (p x) [ true ↦ x ∷ rest | false ↦ rest ]

  -- `EXISTS (SELECT 1 … WHERE p)`
  abbrev pub exists : (A → Bool) → List A → Bool
  exists p [] = false
  exists p (x ∷ xs) = p x || exists p xs

  abbrev pub all : (A → Bool) → List A → Bool
  all p [] = true
  all p (x ∷ xs) = p x && all p xs

  abbrev pub length : List A → ℕ
  length [] = 0
  length (_ ∷ xs) = suc (length xs)

  abbrev pub count : (A → Bool) → List A → ℕ
  count p [] = 0
  count p (x ∷ xs) = let rest = count p xs in elim (p x) [ true ↦ suc rest | false ↦ rest ]

  -- An update that makes no row meet a condition anew.
  pub count-update_where :
      (q p : A → Bool) (f : A → A)
      → ((x : A) → p x ≡ true → q (f x) ≡ true → q x ≡ true)
      → (xs : List A) → count q (update_where p f xs) ≤ count q xs
  count-update_where q p f h [] = omega arith
  count-update_where q p f h (x ∷ xs) = ground (arith, h x, count-update_where q p f h xs)

  pub count-append_one :
      (q : A → Bool) (xs : List A) (x : A) → count q (xs ++ x ∷ []) ≡ count q (x ∷ xs)
  count-append_one q [] x = refl
  count-append_one q (y ∷ ys) x = ground (arith, count-append_one q ys x)

  -- No row meets the condition.
  pub count-none : (q : A → Bool) (xs : List A) → exists q xs ≡ false → count q xs ≡ 0
  count-none q [] h = refl
  count-none q (x ∷ xs) h = ground (arith, count-none q xs)

  pub find?-append_one :
      (p : A → Bool) (xs : List A) (x y : A) → find? p xs ≡ some y → find? p (xs ++ x ∷ []) ≡ some y
  find?-append_one p [] x y h = cc
  find?-append_one p (z ∷ zs) x y h = ground (arith, find?-append_one p zs x y)

  pub exists-append :
      (p : A → Bool) (xs ys : List A) → exists p (xs ++ ys) ≡ (exists p xs || exists p ys)
  exists-append p [] ys = refl
  exists-append p (x ∷ xs) ys = ground (arith, exists-append p xs ys)

  pub exists-append_one :
      (p : A → Bool) (xs : List A) (x : A) → exists p (xs ++ x ∷ []) ≡ (exists p xs || p x)
  exists-append_one p [] x = ground arith
  exists-append_one p (y ∷ ys) x = ground (arith, exists-append_one p ys x)

  -- An update that meets no row changes nothing.
  pub update_where-none :
      (p : A → Bool) (f : A → A) (xs : List A) → exists p xs ≡ false → update_where p f xs ≡ xs
  update_where-none p f [] h = refl
  update_where-none p f (x ∷ xs) h = ground (arith, update_where-none p f xs)

  abbrev map_option : (A → A) → Option A → Option A
  map_option f none = none
  map_option f (some a) = some (f a)

-- `==` on the keys of rows.
infix 50 ◌same◌
abbrev ◌same◌ : ℕ → ℕ → Bool
a same b = elim (compare a b) [ Ordering.eq ↦ true | _ ↦ false ]

module _ {A : Type 0} (key : A → ℕ) where
  -- The row of a key, after an update of that key under a condition.
  pub find?-update_where_self :
      (c : A → Bool) (f : A → A) (k : ℕ) (xs : List A)
      → ((a : A) → key (f a) ≡ key a)
      → find? (λ r. key r same k) (update_where (λ r. key r same k && c r) f xs)
        ≡ map_option (λ r. choose (c r) (f r) r) (find? (λ r. key r same k) xs)
  find?-update_where_self c f k [] h = refl
  find?-update_where_self c f k (x ∷ xs) h = ground (arith, h x, find?-update_where_self c f k xs h)

  -- An update that keeps the keys, seen from any row.
  pub find?-update_where :
      (p : A → Bool) (f : A → A) (k : ℕ) (xs : List A)
      → ((a : A) → key (f a) ≡ key a)
      → find? (λ r. key r same k) (update_where p f xs)
        ≡ map_option (λ r. choose (p r) (f r) r) (find? (λ r. key r same k) xs)
  find?-update_where p f k [] h = refl
  find?-update_where p f k (x ∷ xs) h = ground (arith, h x, find?-update_where p f k xs h)

-- Rows before and after, side by side.
abbrev pub Pairwise : {A : Type 0} → (A → A → Type 0) → List A → List A → Type 0
Pairwise R [] [] = Unit
Pairwise R (x ∷ xs) (y ∷ ys) = R x y × Pairwise R xs ys
Pairwise R _ _ = ⊥

-- Every row meets the condition.
abbrev pub All : {A : Type 0} → (A → Type 0) → List A → Type 0
All P [] = Unit
All P (x ∷ xs) = P x × All P xs

module _ {A : Type 0} where
  -- What an update does to each row it does to the table, row by row.
  pub update_where-Pairwise :
      (R : A → A → Type 0) (p : A → Bool) (f : A → A)
      → ((x : A) → R x (choose (p x) (f x) x))
      → (xs : List A) → Pairwise R xs (update_where p f xs)
  update_where-Pairwise R p f h [] = tt
  update_where-Pairwise R p f h (x ∷ xs) = (h x, update_where-Pairwise R p f h xs)

  -- A row that was found meets what all rows meet.
  pub All-find? :
      (P : A → Type 0) (p : A → Bool) (xs : List A) {x : A} → All P xs → find? p xs ≡ some x → P x
  All-find? P p [] h e = cc
  All-find? P p (y ∷ ys) {x} (hy, hys) e = go (p y) e (All-find? P p ys hys)
    where
      go :
          (b : Bool)
          → elim b [ true ↦ some y | false ↦ find? p ys ] ≡ some x
          → (find? p ys ≡ some x → P x)
          → P x
      go true e rest = subst P (cc) hy
      go false e rest = rest e

  -- What was found meets the condition.
  pub find?-holds : (p : A → Bool) (xs : List A) {x : A} → find? p xs ≡ some x → p x ≡ true
  find?-holds p [] e = cc
  find?-holds p (y ∷ ys) {x} e = go (p y) refl e (find?-holds p ys)
    where
      go :
          (b : Bool)
          → p y ≡ b
          → elim b [ true ↦ some y | false ↦ find? p ys ] ≡ some x
          → (find? p ys ≡ some x → p x ≡ true)
          → p x ≡ true
      go true known e' rest = subst (λ z. p z ≡ true) (cc) known
      go false known e' rest = rest e'

  -- What a query selects of rows that follow one another.
  pub select-append :
      (p : A → Bool) (xs ys : List A) → select p (xs ++ ys) ≡ select p xs ++ select p ys
  select-append p [] ys = refl
  select-append p (x ∷ xs) ys = ground (arith, select-append p xs ys)

  pub select-none : (p : A → Bool) (xs : List A) → All (λ x. p x ≡ false) xs → select p xs ≡ []
  select-none p [] h = refl
  select-none p (x ∷ xs) (h, hs) = ground (arith, select-none p xs hs)

  pub select-All : (p : A → Bool) (xs : List A) → All (λ x. p x ≡ true) xs → select p xs ≡ xs
  select-All p [] h = refl
  select-All p (x ∷ xs) (h, hs) = ground (arith, select-All p xs hs)

  -- A query that selects what was appended and nothing of what was there.
  pub select-later :
      (p : A → Bool) (old new : List A)
      → All (λ x. p x ≡ false) old
      → All (λ x. p x ≡ true) new
      → select p (old ++ new) ≡ new
  select-later p old new before after =
      select-append p old new
      ∙ ap (λ t. t ++ select p new) (select-none p old before)
      ∙ select-All p new after

  pub All-append : (P : A → Type 0) (xs ys : List A) → All P xs → All P ys → All P (xs ++ ys)
  All-append P [] ys h h' = h'
  All-append P (x ∷ xs) ys (h, hs) h' = (h, All-append P xs ys hs h')

  pub All-imp : (P Q : A → Type 0) → ((x : A) → P x → Q x) → (xs : List A) → All P xs → All Q xs
  All-imp P Q f [] h = tt
  All-imp P Q f (x ∷ xs) (h, hs) = (f x h, All-imp P Q f xs hs)

  pub All-select : (P : A → Type 0) (p : A → Bool) (xs : List A) → All P xs → All P (select p xs)
  All-select P p [] h = tt
  All-select P p (x ∷ xs) (h, hs) =
      elim (p x) as (λ b. All P (elim b [ true ↦ x ∷ select p xs | false ↦ select p xs ])) [
        | true ↦ (h, All-select P p xs hs)
        | false ↦ All-select P p xs hs
      ]
