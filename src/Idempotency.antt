-- ===== src/Idempotency.antt =====
-- The reservation of idempotency keys (backend/internal/repository/idempotency.go): what a request finds
-- when it is sent again.
use Prim.Native.String.{String}
use text.Mathlib.TextEquality.{eq_iff}
use qr_dining.Base.{
  none, ℕ, ◌≡◌, ◌≤◌, refl, Bool, true, false, ◌&&◌, List, [], ◌∷◌, some, arith, leb, ltb,
  Bool-cases, inl, inr,
}
use qr_dining.Base.Rows.{find?, select, exists, update_where, update_where-none, length}
use qr_dining.Store.{
  World, IdempotencyScope, IdempotencyKey, KeyStatus, ok, same_scope, create_idempotency_key,
  get_idempotency_key, complete_idempotency_key,
}

-- The rows of one scope, of which the unique index admits one.
abbrev pub key_rows : IdempotencyScope → World → List IdempotencyKey
key_rows scope w = select (λ k. same_scope k.scope scope) w.idempotency_keys

module _ {A : Type 0} (p : A → Bool) where
  found_one :
      (q : A → Bool) (xs : List A) (x : A)
      → select p xs ≡ x ∷ []
      → q x ≡ true
      → find? (λ y. p y && q y) xs ≡ some x
  found_one q [] x h t = absurd (cc)
  found_one q (y ∷ ys) x h t = elim (Bool-cases (p y)) [
    | inl mine ↦ ground arith
    | inr other ↦ ground (arith, found_one q ys x)
  ]

  no_other : (q : A → Bool) (xs : List A) → select p xs ≡ [] → exists (λ y. p y && q y) xs ≡ false
  no_other q [] h = refl
  no_other q (y ∷ ys) h = ground (arith, no_other q ys)

  unmet :
      (q : A → Bool) (xs : List A) (x : A)
      → select p xs ≡ x ∷ []
      → q x ≡ false
      → exists (λ y. p y && q y) xs ≡ false
  unmet q [] x h t = refl
  unmet q (y ∷ ys) x h t = ground (arith, unmet q ys x, no_other q ys)

  met : (xs : List A) (x : A) → select p xs ≡ x ∷ [] → exists p xs ≡ true
  met [] x h = absurd (cc)
  met (y ∷ ys) x h = ground (arith, met ys x)

  unselected : (xs : List A) → exists p xs ≡ false → select p xs ≡ []
  unselected [] h = refl
  unselected (x ∷ xs) h = ground (arith, unselected xs)

  at_most_none : (xs : List A) → length (select p xs) ≤ 0 → select p xs ≡ []
  at_most_none [] h = refl
  at_most_none (x ∷ xs) h = ground (arith, at_most_none xs)

  replaced_one :
      (q : A → Bool) (xs : List A) (y : A)
      → length (select p xs) ≤ 1
      → exists (λ x. p x && q x) xs ≡ true
      → p y ≡ true
      → select p (update_where (λ x. p x && q x) (λ x. y) xs) ≡ y ∷ []
  replaced_one q [] y h e t = absurd (cc)
  replaced_one q (x ∷ xs) y h e t = elim (Bool-cases (p x)) [
    | inl mine ↦
        let rest = at_most_none xs (ground arith) in
        let others = no_other q xs rest in
        let same = update_where-none (λ z. p z && q z) (λ z. y) xs others in
        ground (arith, rest, others, same)
    | inr other ↦ ground (arith, replaced_one q xs y)
  ]

  updated_none :
      (f : A → A) (xs : List A)
      → ((z : A) → p (f z) ≡ p z)
      → select p xs ≡ []
      → select p (update_where p f xs) ≡ []
  updated_none f [] same h = refl
  updated_none f (x ∷ xs) same h = ground (arith, same x, updated_none f xs same)

  updated_one :
      (f : A → A) (xs : List A) (x : A)
      → ((z : A) → p (f z) ≡ p z)
      → select p xs ≡ x ∷ []
      → select p (update_where p f xs) ≡ f x ∷ []
  updated_one f [] x same h = absurd (cc)
  updated_one f (y ∷ ys) x same h = elim (Bool-cases (p y)) [
    | inl mine ↦
        let rest : select p ys ≡ [] = ground arith in
        let first : y ≡ x = ground arith in ground (arith, same y, updated_none f ys same rest)
    | inr other ↦ ground (arith, same y, updated_one f ys x same)
  ]

-- The row of a key that has just been reserved.
abbrev pub reserved_key : IdempotencyScope → String → ℕ → IdempotencyKey
reserved_key scope request_hash expires_at = record {
  scope = scope;
  request_hash = request_hash;
  expires_at = expires_at;
  status = KeyStatus.pending;
  response_resource_id = none;
}

-- The row of a key whose request has led to a resource.
abbrev pub completed_key : IdempotencyKey → ℕ → IdempotencyKey
completed_key k id = record k { status = KeyStatus.completed; response_resource_id = some id }

same_scope_refl : (scope : IdempotencyScope) → same_scope scope scope ≡ true
same_scope_refl scope =
    let a = (eq_iff scope.actor_type scope.actor_type).1 refl in
    let k = (eq_iff scope.key scope.key).1 refl in ground arith

module _ (scope : IdempotencyScope) (w : World) where
  abbrev expired : IdempotencyKey → Bool
  expired k = leb k.expires_at w.now

  -- A reservation that fails writes nothing.
  pub create_idempotency_key-refused :
      (request_hash : String) (expires_at : ℕ) (w₁ : World)
      → create_idempotency_key scope request_hash expires_at w ≡ (ok false, w₁)
      → w₁ ≡ w
  unfolding create_idempotency_key
  create_idempotency_key-refused request_hash expires_at w₁ h =
      elim (Bool-cases (exists (λ k. same_scope k.scope scope) w.idempotency_keys)) [
        | inl known ↦
            elim (Bool-cases
              (exists (λ k. same_scope k.scope scope && expired k) w.idempotency_keys)) [
                | inl old ↦ absurd (ground arith)
                | inr live ↦
                    let same =
                      update_where-none (λ k. same_scope k.scope scope && expired k)
                        (λ k. reserved_key scope request_hash expires_at) w.idempotency_keys live in
                    ground (arith, same)
              ]
        | inr new ↦ absurd (ground arith)
      ]

  -- A reservation that succeeds leaves its row as the only one of the scope.
  pub create_idempotency_key-reserved :
      (request_hash : String) (expires_at : ℕ) (w₁ : World)
      → length (key_rows scope w) ≤ 1
      → create_idempotency_key scope request_hash expires_at w ≡ (ok true, w₁)
      → (w₁ ≡ record w { idempotency_keys = w₁.idempotency_keys })
        × (key_rows scope w₁ ≡ reserved_key scope request_hash expires_at ∷ [])
  unfolding create_idempotency_key
  create_idempotency_key-reserved request_hash expires_at w₁ one h =
      let mine = same_scope_refl scope in
      let row = reserved_key scope request_hash expires_at in
      let p : IdempotencyKey → Bool = λ k. same_scope k.scope scope in
      elim (Bool-cases (exists p w.idempotency_keys)) [
        | inl known ↦ elim (Bool-cases (exists (λ k. p k && expired k) w.idempotency_keys)) [
          | inl old ↦
              let e : w₁ ≡ record w {
                idempotency_keys =
                    update_where (λ k. p k && expired k) (λ k. row) w.idempotency_keys;
              } =
                ground arith in
              rw e (refl, replaced_one p expired w.idempotency_keys row one old mine)
          | inr live ↦ absurd (ground arith)
        ]
        | inr new ↦
            let e : w₁ ≡ record w { idempotency_keys = row ∷ w.idempotency_keys } = ground arith in
            let others = unselected p w.idempotency_keys new in
            rw e (refl, ground (arith, mine, others))
      ]

  module _ (k : IdempotencyKey) (only : key_rows scope w ≡ k ∷ []) where
    -- While a key is live, no second request reserves it, and its row is read back.
    pub create_idempotency_key-again :
        ltb w.now k.expires_at ≡ true
        → (request_hash : String) (expires_at : ℕ)
        → create_idempotency_key scope request_hash expires_at w ≡ (ok false, w)
    unfolding create_idempotency_key
    create_idempotency_key-again live request_hash expires_at =
        let p : IdempotencyKey → Bool = λ r. same_scope r.scope scope in
        let known = met p w.idempotency_keys k only in
        let none_ =
          unmet p (λ r. leb r.expires_at w.now) w.idempotency_keys k only (ground arith) in
        let same =
          update_where-none (λ r. p r && expired r)
            (λ r. reserved_key scope request_hash expires_at) w.idempotency_keys none_ in
        ground (arith, known, none_, same)

    pub get_idempotency_key-live :
        ltb w.now k.expires_at ≡ true → get_idempotency_key scope w ≡ (ok k, w)
    unfolding get_idempotency_key
    get_idempotency_key-live live =
        let found =
          found_one (λ r. same_scope r.scope scope) (λ r. ltb w.now r.expires_at) w.idempotency_keys
            k only live in
        rw found refl

    pub complete_idempotency_key-one :
        (id : ℕ) → key_rows scope (complete_idempotency_key scope id w).1 ≡ completed_key k id ∷ []
    unfolding complete_idempotency_key
    complete_idempotency_key-one id =
        updated_one (λ r. same_scope r.scope scope) (λ r. completed_key r id) w.idempotency_keys k
          (λ r. refl) only
