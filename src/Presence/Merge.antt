-- ===== src/Presence/Merge.antt =====
-- What the two presence hashes say together (backend/internal/redis/presence.go).
use qr_dining.Base.{ℕ, ◌≡◌, true, false, Option, none, some, [], ◌∷◌, arith, ltb, ◌==◌}
use qr_dining.Presence.{LastSeen, seen_at, newer, merge_into, merge_last_seen}

-- The later of two heartbeats.
abbrev pub later : Option ℕ → Option ℕ → Option ℕ
later none b = b
later (some a) none = some a
later (some a) (some b) = some (elim (ltb a b) [ true ↦ b | false ↦ a ])

seen_at-newer :
    (k id t : ℕ) (m : LastSeen)
    → seen_at k (newer id t m)
      ≡ (elim (id == k) [ true ↦ later (seen_at k m) (some t) | false ↦ seen_at k m ])
seen_at-newer k id t [] = ground arith
seen_at-newer k id t ((j, u) ∷ m) = ground (arith, seen_at-newer k id t m)

-- The latest heartbeat of a participant in one hash.
abbrev pub latest : ℕ → LastSeen → Option ℕ
latest k [] = none
latest k ((j, t) ∷ m) = later (elim (j == k) [ true ↦ some t | false ↦ none ]) (latest k m)

later_assoc : (a b c : Option ℕ) → later (later a b) c ≡ later a (later b c)
later_assoc a b c = ground arith

seen_at-merge_into :
    (k : ℕ) (m s : LastSeen) → seen_at k (merge_into m s) ≡ later (seen_at k m) (latest k s)
seen_at-merge_into k m [] = ground arith
seen_at-merge_into k m ((id, t) ∷ s) = ground (
  arith,
  seen_at-merge_into k (newer id t m) s,
  seen_at-newer k id t m,
  later_assoc (seen_at k m) (elim (id == k) [ true ↦ some t | false ↦ none ]) (latest k s),
)

-- For each participant the merged hash holds the latest heartbeat that either hash has, and none where
-- neither has one.
pub seen_at-merge_last_seen :
    (k : ℕ) (a b : LastSeen) → seen_at k (merge_last_seen a b) ≡ later (latest k a) (latest k b)
unfolding merge_last_seen
seen_at-merge_last_seen k a b =
    ground (arith, seen_at-merge_into k (merge_into [] a) b, seen_at-merge_into k [] a)
