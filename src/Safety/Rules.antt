-- ===== src/Safety/Rules.antt =====
-- What a call keeps, as a relation between the rows before and after it, and how it composes.
use Prim.Native.String.{String}
use text.Mathlib.Text.{◌==◌ as str_eq}
use qr_dining.Base.{
  ℕ, suc, ◌≤◌, ◌<◌, ◌≡◌, refl, ◌⊎◌, inl, ⊤, Bool, true, false, ◌&&◌, Option, none, some, List, [],
  ◌∷◌, ◌==◌, arith, if◌then◌else◌,
}
use qr_dining.Base.Int.{pos}
use qr_dining.Base.Rows.{find?, count, exists, All}
use qr_dining.Domain.{
  SessionStatus, OrderStatus, active, payment_pending, awaiting_reactivation, closed, abandoned,
  expired, Error, validate_session_transition,
}
use qr_dining.Domain.Transitions.{OrderPath, start, move}
use qr_dining.Billing.{lines_total}
use qr_dining.Store.{
  World, Session, Order, OrderItem, list_order_items, WebhookEvent, Op, Result, ok, err, is_live,
  is_open_for, pure, fail, fail_if, when, gets, if_found, attempt, or_fail, emit, with_tx, ◌>>=◌,
  ◌>>◌, Effect,
}

-- The index idx_sessions_one_active_per_table.
abbrev pub OneLiveSession : World → Type 0
OneLiveSession w =
    (table_id : ℕ) → count (λ s. s.table_id == table_id && is_live s.status) w.sessions ≤ 1

-- The index idx_payments_one_non_terminal_per_session.
abbrev pub OneOpenPayment : World → Type 0
OneOpenPayment w = (session_id : ℕ) → count (is_open_for session_id) w.payments ≤ 1

-- A status that stays, or that moves as the transition table of the domain allows.
abbrev pub Moves : SessionStatus → SessionStatus → Type 0
Moves s t = (s ≡ t) ⊎ (validate_session_transition s t ≡ none)

abbrev pub session_of : ℕ → World → Option Session
session_of id w = find? (λ s. s.id == id) w.sessions

-- No session is lost, and each moves as the table allows.
abbrev pub Follows : World → World → Type 0
Follows w w' =
    (id : ℕ) (s : Session)
    → session_of id w ≡ some s
    → (s' : Session) × (session_of id w' ≡ some s') × Moves s.status s'.status

-- A provider's event that was recorded stays recorded.
abbrev pub Remembers : World → World → Type 0
Remembers w w' =
    (event : String)
    → exists (λ (e : WebhookEvent). str_eq e.external_event_id event) w.webhook_events ≡ true
    → exists (λ (e : WebhookEvent). str_eq e.external_event_id event) w'.webhook_events ≡ true

abbrev pub order_of : ℕ → World → Option Order
order_of id w = find? (λ o. o.id == id) w.orders

-- The books are in order: the ids of orders have been given out, and each order's total is the sum of
-- its lines as the bill computes it.
abbrev pub IsBilledRight : World → Order → Type 0
IsBilledRight w o =
    (o.id < w.next_id) × (o.total_amount ≡ lines_total (list_order_items o.id w) (pos 0))

pub data Books (w : World) : Type 0 where
  books : All (IsBilledRight w) w.orders → All (λ i. i.order_id < w.next_id) w.order_items → Books w

-- An order later: its status has moved along the table of the domain, and nothing else of it has
-- changed but the time of the change.
pub data Advances (o o' : Order) : Type 0 where
  advances :
      (n : ℕ)
      → OrderPath o.status o'.status n
      → o' ≡ record o { status = o'.status; updated_at = o'.updated_at }
      → Advances o o'

abbrev pub OrdersAdvance : World → World → Type 0
OrdersAdvance w w' =
    (id : ℕ) (o : Order)
    → order_of id w ≡ some o
    → (o' : Order) × (order_of id w' ≡ some o') × Advances o o'

-- Nothing of the books has changed but the number of ids given out.
abbrev pub SameBooks : World → World → Type 0
SameBooks w w' =
    (w'.orders ≡ w.orders) × (w'.order_items ≡ w.order_items) × (w.next_id ≤ w'.next_id)

pub data Good (w w' : World) : Type 0 where
  good :
      (OneLiveSession w → OneLiveSession w')
      → (OneOpenPayment w → OneOpenPayment w')
      → Follows w w'
      → Remembers w w'
      → (Books w → Books w' × OrdersAdvance w w')
      → Good w w'

pub one_live_of : {w w' : World} → Good w w' → OneLiveSession w → OneLiveSession w'
one_live_of (good live _ _ _ _) = live

pub one_open_of : {w w' : World} → Good w w' → OneOpenPayment w → OneOpenPayment w'
one_open_of (good _ unpaid _ _ _) = unpaid

pub Follows-of : {w w' : World} → Good w w' → Follows w w'
Follows-of (good _ _ follows _ _) = follows

pub Remembers-of : {w w' : World} → Good w w' → Remembers w w'
Remembers-of (good _ _ _ remembers _) = remembers

pub Books-of : {w w' : World} → Good w w' → Books w → Books w'
Books-of (good _ _ _ _ b) h = (b h).0

pub OrdersAdvance-of : {w w' : World} → Good w w' → Books w → OrdersAdvance w w'
OrdersAdvance-of (good _ _ _ _ b) h = (b h).1

OrderPath-trans :
    {s t u : OrderStatus} {n m : ℕ} → OrderPath s t n → OrderPath t u m → (k : ℕ) × OrderPath s u k
OrderPath-trans {n} p start = (n, p)
OrderPath-trans p (move q h) = let (k, r) = OrderPath-trans p q in (suc k, move r h)

pub Advances-refl : (o : Order) → Advances o o
Advances-refl o = advances 0 start refl

pub Advances-trans : {o p q : Order} → Advances o p → Advances p q → Advances o q
Advances-trans (advances n a e) (advances m b e') =
    let (k, c) = OrderPath-trans a b in advances k c (ground arith)

-- More ids given out spoil no books.
Books-grow :
    (w w' : World) (os : List Order)
    → w'.order_items ≡ w.order_items
    → w.next_id ≤ w'.next_id
    → All (IsBilledRight w) os
    → All (IsBilledRight w') os
unfolding list_order_items
Books-grow w w' [] items more h = tt
Books-grow w w' (o ∷ os) items more h =
    ((omega arith, rw items h.0.1), Books-grow w w' os items more h.1)

given-grow :
    (n m : ℕ) (is : List OrderItem)
    → n ≤ m
    → All (λ (i : OrderItem). i.order_id < n) is
    → All (λ (i : OrderItem). i.order_id < m) is
given-grow n m [] more h = tt
given-grow n m (i ∷ is) more h = (omega arith, given-grow n m is more h.1)

pub Books-same : (w w' : World) → SameBooks w w' → Books w → Books w' × OrdersAdvance w w'
unfolding list_order_items
Books-same w w' (orders, items, more) (books right given) = (
  books (rw orders (Books-grow w w' w.orders items more right))
      (rw items (given-grow w.next_id w'.next_id w.order_items more given)),
  λ id o h. (o, rw orders h, Advances-refl o),
)

pub Moves-trans : (r s t : SessionStatus) → Moves r s → Moves s t → Moves r t
unfolding validate_session_transition
Moves-trans r s t a b = ground arith

pub Good-refl : {w : World} → Good w w
Good-refl {w} =
    good (λ h. h) (λ h. h) (λ id s h. (s, h, inl refl)) (λ e h. h)
      (λ b. (b, λ id o h. (o, h, Advances-refl o)))

pub Good-trans : {u v w : World} → Good u v → Good v w → Good u w
Good-trans (good live unpaid follows known right) (good live' unpaid' follows' known' right') =
    good (λ h. live' (live h)) (λ h. unpaid' (unpaid h))
      (λ id s h.
        let (s', h', m) = follows id s h in
        let (s'', h'', m') = follows' id s' h' in
        (s'', h'', Moves-trans s.status s'.status s''.status m m'))
      (λ e h. known' e (known e h))
      (λ b.
        let (b', advance) = right b in
        let (b'', advance') = right' b' in
        (
          b'',
          λ id o h.
              let (p, h', a) = advance id o h in
              let (q, h'', a') = advance' id p h' in (q, h'', Advances-trans a a'),
        ))

-- A call that keeps the rules from every state, on every path.
pub data Keeps {A : Type 0} (m : Op A) : Type 0 where
  keeps : ((w : World) → Good w (m w).1) → Keeps m

pub kept : {A : Type 0} {m : Op A} → Keeps m → (w : World) → Good w (m w).1
kept (keeps h) = h

module _ {A : Type 0} where
  pub Keeps-pure : (a : A) → Keeps (pure a)
  Keeps-pure a = keeps λ w. Good-refl

  pub Keeps-fail : (e : Error) → Keeps {A = A} (fail e)
  Keeps-fail e = keeps λ w. Good-refl

  pub Keeps-gets : (f : World → A) → Keeps (gets f)
  Keeps-gets f = keeps λ w. Good-refl

  pub Keeps-or_fail : (o : Option A) (e : Error) → Keeps (or_fail o e)
  Keeps-or_fail none e = keeps λ w. Good-refl
  Keeps-or_fail (some a) e = keeps λ w. Good-refl

  pub Keeps-with_tx : (m : Op A) → Keeps m → Keeps (with_tx m)
  Keeps-with_tx m (keeps h) = keeps λ w. go (m w) (h w)
    where
      go : {w : World} (r : Result A × World) → Good w r.1 → Good w (with_tx (λ _. r) w).1
      go (ok a, w') g = g
      go (err e, w') g = Good-refl

pub Keeps-bind :
    {A B : Type 0} (m : Op A) (f : A → Op B) → Keeps m → ((a : A) → Keeps (f a)) → Keeps (m >>= f)
Keeps-bind {A} {B} m f (keeps h) k = keeps λ w. go (m w) (h w)
  where
    go : {w : World} (r : Result A × World) → Good w r.1 → Good w (((λ _. r) >>= f) w).1
    go (ok a, w') g = Good-trans g (kept (k a) w')
    go (err e, w') g = g

pub Keeps-attempt :
    {A B : Type 0} (m : Op A) (k : Result A → Op B)
    → Keeps m
    → ((r : Result A) → Keeps (k r))
    → Keeps (attempt m k)
Keeps-attempt m k (keeps h) h' = keeps λ w. Good-trans (h w) (kept (h' (m w).0) (m w).1)

pub Keeps-then : {A B : Type 0} (m : Op A) (k : Op B) → Keeps m → Keeps k → Keeps (m >> k)
Keeps-then m k h h' = Keeps-bind m (λ _. k) h (λ _. h')

pub Keeps-fail_if : (b : Bool) (e : Error) → Keeps (fail_if b e)
Keeps-fail_if true e = keeps λ w. Good-refl
Keeps-fail_if false e = keeps λ w. Good-refl

pub Keeps-when : (b : Bool) (m : Op ⊤) → Keeps m → Keeps (when b m)
Keeps-when true m h = h
Keeps-when false m h = keeps λ w. Good-refl

pub Keeps-if : {A : Type 0} (b : Bool) (m k : Op A) → Keeps m → Keeps k → Keeps (if b then m else k)
Keeps-if true m k h h' = h
Keeps-if false m k h h' = h'

-- A test on the state that was read.
pub Good-if :
    {A : Type 0} {w : World} (b : Bool) (x y : A × World)
    → (b ≡ true → Good w x.1)
    → (b ≡ false → Good w y.1)
    → Good w (if b then x else y).1
Good-if true x y h h' = h refl
Good-if false x y h h' = h' refl

pub Keeps-emit : (e : Effect) → Keeps (emit e)
Keeps-emit e = keeps λ w.
    good (λ h. h) (λ h. h) (λ id s h. (s, h, inl refl)) (λ e h. h)
      (Books-same w _ (refl, refl, omega arith))

-- A case on a value that was read.
pub Good-option :
    {A B : Type 0} {w : World} (o : Option A) (x : B × World) (f : A → B × World)
    → Good w x.1
    → ((a : A) → Good w (f a).1)
    → Good w (elim o as (λ _. B × World) [ none ↦ x | some a ↦ f a ]).1
Good-option none x f h h' = h
Good-option (some a) x f h h' = h' a

pub Keeps-if_found :
    {A B : Type 0} (o : Option A) (f : A → Op B) (m : Op B)
    → ((a : A) → Keeps (f a))
    → Keeps m
    → Keeps (if_found o f m)
Keeps-if_found none f m h h' = h'
Keeps-if_found (some a) f m h h' = h a

-- A switch on the status of a session.
pub Keeps-status :
    {A : Type 0} (s : SessionStatus) (a b c d : Op A)
    → Keeps a
    → Keeps b
    → Keeps c
    → Keeps d
    → Keeps (elim s as (λ _. Op A) [
      | active ↦ a
      | payment_pending ↦ b
      | awaiting_reactivation ↦ c
      | _ ↦ d
    ])
Keeps-status active a b c d ha hb hc hd = ha
Keeps-status payment_pending a b c d ha hb hc hd = hb
Keeps-status awaiting_reactivation a b c d ha hb hc hd = hc
Keeps-status closed a b c d ha hb hc hd = hd
Keeps-status abandoned a b c d ha hb hc hd = hd
Keeps-status expired a b c d ha hb hc hd = hd

-- A change of columns that no rule reads.
pub Good-same :
    (w w' : World)
    → w'.sessions ≡ w.sessions
    → w'.payments ≡ w.payments
    → w'.webhook_events ≡ w.webhook_events
    → SameBooks w w'
    → Good w w'
Good-same w w' hs hp he hb =
    good (λ h t. rw hs (h t)) (λ h s. rw hp (h s)) (λ id s h. (s, rw hs h, inl refl))
      (λ e h. rw he h) (Books-same w w' hb)

pub Keeps-same :
    {A : Type 0} (m : Op A)
    → ((w : World) → (m w).1.sessions ≡ w.sessions)
    → ((w : World) → (m w).1.payments ≡ w.payments)
    → ((w : World) → (m w).1.webhook_events ≡ w.webhook_events)
    → ((w : World) → SameBooks w (m w).1)
    → Keeps m
Keeps-same m hs hp he hb = keeps λ w. Good-same w (m w).1 (hs w) (hp w) (he w) (hb w)

-- The rules for do blocks.
pub ruleset keeps_rules = (
  Keeps-pure, Keeps-fail, Keeps-gets, Keeps-or_fail, Keeps-with_tx, Keeps-bind, Keeps-fail_if,
  Keeps-when, Keeps-if, Keeps-emit, Keeps-if_found, Keeps-attempt, Keeps-status,
)
