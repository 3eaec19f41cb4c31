-- ===== src/Presence/Recent.antt =====
-- Who counts as present (GetPresentForSession and filterPresent of backend/internal/redis/presence.go).
use qr_dining.Base.{
  ℕ, ◌+◌, ◌≤◌, ◌≡◌, subst, some, [], ◌∷◌, arith, ◌==◌, Bool-cases, inl, inr, Option-cases,
}
use qr_dining.Base.Rows.{All}
use qr_dining.Store.{World}
use qr_dining.Presence.{
  LastSeen, presence_stale_after, seen_at, filter_present, newer, merge_into, merge_last_seen,
  get_last_seen, get_present_for_session,
}

module _ (now : ℕ) where
  abbrev Recent : LastSeen → Type 0
  Recent = All λ e. now ≤ e.1 + presence_stale_after

  filter_present-Recent : (m : LastSeen) → Recent (filter_present m now presence_stale_after)
  unfolding filter_present
  filter_present-Recent [] = tt
  filter_present-Recent (e ∷ m) = ground (arith, filter_present-Recent m)

  newer-Recent :
      (id t : ℕ) (m : LastSeen) → now ≤ t + presence_stale_after → Recent m → Recent (newer id t m)
  newer-Recent id t [] fresh h = (fresh, tt)
  newer-Recent id t ((j, u) ∷ m) fresh (h, hs) = elim (Bool-cases (j == id)) [
    | inl same ↦ rw same (ground arith, hs)
    | inr other ↦ rw other (h, newer-Recent id t m fresh hs)
  ]

  merge_into-Recent :
      (merged set : LastSeen) → Recent merged → Recent set → Recent (merge_into merged set)
  merge_into-Recent merged [] h h' = h
  merge_into-Recent merged ((id, t) ∷ set) h (fresh, rest) =
      merge_into-Recent (newer id t merged) set (newer-Recent id t merged fresh h) rest

  seen_at-Recent :
      (id seen : ℕ) (m : LastSeen)
      → Recent m
      → seen_at id m ≡ some seen
      → now ≤ seen + presence_stale_after
  seen_at-Recent id seen [] h e = absurd (cc)
  seen_at-Recent id seen ((j, u) ∷ m) (h, hs) e = elim (Bool-cases (j == id)) [
    | inl same ↦ ground arith
    | inr other ↦ seen_at-Recent id seen m hs (ground arith)
  ]

-- Whoever is present has sent a heartbeat that is not stale.
pub present_is_recent :
    (organization branch session id seen : ℕ) (present : LastSeen) (w : World)
    → get_present_for_session organization branch session w ≡ some present
    → seen_at id present ≡ some seen
    → w.now ≤ seen + presence_stale_after
unfolding get_present_for_session merge_last_seen
present_is_recent organization branch session id seen present w h e =
    elim (Option-cases (get_last_seen organization branch session w)) [
      | inl unread ↦ absurd (ground arith)
      | inr (scoped, a) ↦ elim (Option-cases (get_last_seen 0 0 session w)) [
        | inl unread ↦ absurd (ground arith)
        | inr (unscoped, b) ↦
            let fresh = filter_present-Recent w.now in
            let all_ =
              merge_into-Recent w.now
                (merge_into [] (filter_present scoped w.now presence_stale_after))
                (filter_present unscoped w.now presence_stale_after)
                (merge_into-Recent w.now [] (filter_present scoped w.now presence_stale_after) tt
                  (fresh scoped))
                (fresh unscoped) in
            let same : merge_last_seen (filter_present scoped w.now presence_stale_after)
                  (filter_present unscoped w.now presence_stale_after)
                ≡ present =
              ground arith in
            seen_at-Recent w.now id seen present (subst (Recent w.now) same all_) e
      ]
    ]
