-- ===== src/Worker/Tables.antt =====
-- reconcileSessionTables of backend/internal/worker/worker.go, with the queries of ReconcileSessionTables
-- (backend/internal/repository/worker.go), which run in one transaction.
use qr_dining.Base.{⊤, Bool, true, false, ◌&&◌, ◌||◌, not, some, ◌==◌, ltb, is_some}
use qr_dining.Base.Rows.{select, exists, update_where}
use qr_dining.Domain.{active, abandoned}
use qr_dining.Store.{
  World, Session, DiningTable, TableStatus, Op, gets, emit, modify, ◌>>=◌, ◌>>◌, publish, log_event,
  presence_deleted_scoped, by_system, session_closed, session_reconciled, table_reconciled, ◌is◌,
  has_live_session, is_live,
}
use qr_dining.Worker.Sweeps.{Candidate, join_branches, each}

abbrev pub is_occupied : TableStatus → Bool
is_occupied TableStatus.occupied = true
is_occupied _ = false

abbrev pub is_available : TableStatus → Bool
is_available TableStatus.available = true
is_available _ = false

abbrev pub is_released : World → DiningTable → Bool
is_released w t = is_occupied t.status && not (has_live_session t.id w)

abbrev pub is_taken : World → DiningTable → Bool
is_taken w t = is_available t.status && has_live_session t.id w

-- ORDER BY (s.host_participant_id IS NOT NULL) DESC, s.created_at DESC, s.id DESC: `r` stands before `s`.
abbrev pub outranks : Session → Session → Bool
outranks r s =
    (is_some r.host_participant_id && not (is_some s.host_participant_id))
    || (not (is_some s.host_participant_id && not (is_some r.host_participant_id))
        && (ltb s.created_at r.created_at || (s.created_at == r.created_at && ltb s.id r.id)))

-- ROW_NUMBER() > 1 among the active sessions of the table.
abbrev pub is_duplicate : World → Session → Bool
is_duplicate w s =
    s.status is active
    && exists (λ r. r.status is active && (r.table_id == s.table_id && outranks r s)) w.sessions

abbrev set_table : TableStatus → DiningTable → DiningTable
set_table status t = record t { status = status }

unfoldable pub release_tables : Op ⊤
release_tables = modify λ w. record w {
  tables = update_where (is_released w) (set_table TableStatus.available) w.tables;
}

unfoldable pub take_tables : Op ⊤
take_tables =
    modify
      λ w. record w { tables = update_where (is_taken w) (set_table TableStatus.occupied) w.tables }

unfoldable pub abandon_duplicates : Op ⊤
abandon_duplicates = modify λ w. record w {
  sessions =
      update_where (is_duplicate w) (λ s. record s { status = abandoned; closed_at = some w.now })
        w.sessions;
}

abbrev announce_released : DiningTable → Op ⊤
announce_released t = emit (log_event 0 t.branch_id by_system 0 table_reconciled)

-- The live session of a table that was found available.
abbrev announce_taken : World → DiningTable → Op ⊤
announce_taken w t =
    each (λ (s : Session). emit (log_event s.id t.branch_id by_system 0 session_reconciled))
      (select (λ s. s.table_id == t.id && is_live s.status) w.sessions)

abbrev announce_duplicate : Candidate → Op ⊤
announce_duplicate c = do
  emit (publish c.id session_closed)
  emit (presence_deleted_scoped c.organization_id c.branch_id c.id)
  emit (log_event c.id c.branch_id by_system 0 session_reconciled)

-- The rows that the three updates return, read before each, and what is sent out for them after all.
unfoldable pub reconcile_session_tables : Op ⊤
reconcile_session_tables = do
  released ← gets (λ w. select (is_released w) w.tables)
  release_tables
  taken ← gets (λ w. select (is_taken w) w.tables)
  before ← gets (λ w. w)
  take_tables
  duplicates ← gets (λ w. join_branches w (select (is_duplicate w) w.sessions))
  abandon_duplicates
  each announce_released released
  each (announce_taken before) taken
  each announce_duplicate duplicates
