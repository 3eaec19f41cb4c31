-- ===== src/Presence.antt =====
-- backend/internal/redis/presence.go: who is connected to a session, from two Redis hashes of
-- heartbeats. Redis' replies are fields of the world; a reply is the parsed hash, newest row first.
-- A difference of two times is cut off at 0, which no test here tells from a negative one.
pub mod Merge
pub mod Recent
use qr_dining.Base.{
  ℕ, ◌*◌, ◌-◌, Bool, true, false, ◌&&◌, Option, none, some, List, [], ◌∷◌, ◌==◌, ltb, leb,
  if◌then◌else◌,
}
use qr_dining.Base.Rows.{select}
use qr_dining.Store.{World, Heartbeats}

abbrev pub presence_stale_after : ℕ
presence_stale_after = 90

-- A Go map from participant ids to heartbeats.
abbrev pub LastSeen : Type 0
LastSeen = List (ℕ × ℕ)

abbrev pub seen_at : ℕ → LastSeen → Option ℕ
seen_at id [] = none
seen_at id ((j, t) ∷ m) = if j == id then some t else seen_at id m

unfoldable pub filter_present : LastSeen → ℕ → ℕ → LastSeen
filter_present last_seen now stale_after = select (λ e. leb (now - e.1) stale_after) last_seen

-- `if current, ok := merged[id]; !ok || seenAt.After(current) { merged[id] = seenAt }`
abbrev pub newer : ℕ → ℕ → LastSeen → LastSeen
newer id t [] = (id, t) ∷ []
newer id t ((j, u) ∷ m) =
    if j == id then (j, if ltb u t then t else u) ∷ m else (j, u) ∷ newer id t m

abbrev pub merge_into : LastSeen → LastSeen → LastSeen
merge_into merged [] = merged
merge_into merged ((id, t) ∷ set) = merge_into (newer id t merged) set

-- The two sets that the source ever merges.
unfoldable pub merge_last_seen : LastSeen → LastSeen → LastSeen
merge_last_seen a b = merge_into (merge_into [] a) b

-- HGETALL on `presenceKey`.
unfoldable pub get_last_seen : ℕ → ℕ → ℕ → World → Heartbeats
get_last_seen organization branch session w =
    if ltb 0 organization && ltb 0 branch
    then w.scoped_presence organization branch session
    else w.unscoped_presence session

abbrev both : (LastSeen → LastSeen → LastSeen) → Heartbeats → Heartbeats → Heartbeats
both f (some a) (some b) = some (f a b)
both f _ _ = none

unfoldable pub get_last_seen_for_session : ℕ → ℕ → ℕ → World → Heartbeats
unfolding get_last_seen merge_last_seen
get_last_seen_for_session organization branch session w =
    both merge_last_seen (get_last_seen organization branch session w) (get_last_seen 0 0 session w)

unfoldable pub get_present_for_session : ℕ → ℕ → ℕ → World → Heartbeats
unfolding get_last_seen merge_last_seen filter_present
get_present_for_session organization branch session w =
    both
      (λ scoped unscoped.
        merge_last_seen (filter_present scoped w.now presence_stale_after)
          (filter_present unscoped w.now presence_stale_after))
      (get_last_seen organization branch session w) (get_last_seen 0 0 session w)
