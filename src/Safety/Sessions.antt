-- ===== src/Safety/Sessions.antt =====
-- The session service keeps the rules (backend/internal/services/session.go).
use Prim.Native.String.{String}
use qr_dining.Base.{arith, ℕ, refl, Option, List, ◌==◌}
use qr_dining.Base.Rows.{find?}
use qr_dining.Store.{
  World, Session, Participant, Actor, TableStatus, Config, Op, get_session_by_id,
  get_participant_by_id, get_table_by_id, get_branch_by_id, get_organization_by_id,
  update_table_status, revoke_all_participants, bump_all_participant_credential_versions,
  set_participant_host_flags, next_session_number, organization_of_branch, Organization, Branch,
  DiningTable, CacheEntry, modify, pure, ◌>>◌,
}
use qr_dining.Tenant.{read_status, resolve, cached_status, ensure_branch_admits_guests}
use qr_dining.Session.{
  close_rows, close_session_record, close_session, abandon_rows, abandon_stale_session,
  reassign_host, promote_acting, authorize_host_action, transfer_host, ensure_host_baseline,
  open_session, announce_session, create_session, resume_for_join, join_session, reactivate_row,
  reactivate, forget_presence, successor_presence, pick_new_host, with_host, is_id,
}
use qr_dining.Safety.Rules.{
  Good-if, Good-refl, Good-same, Keeps, keeps, kept, Keeps-same, Keeps-pure, keeps_rules,
  Keeps-or_fail, Good-option, Keeps-with_tx, Keeps-then, Keeps-status, Keeps-fail,
}
use qr_dining.Safety.Queries.{
  Keeps-close_session_if_active, Keeps-abandon_row, Keeps-set_session_host, Keeps-insert_session,
  Keeps-create_participant, Keeps-reactivate_session,
}

pub Keeps-get_session_by_id : (id : ℕ) → Keeps (get_session_by_id id)
unfolding get_session_by_id
Keeps-get_session_by_id id =
    keeps λ w. kept (Keeps-or_fail (find? (λ (s : Session). s.id == id) w.sessions) _) w

pub Keeps-get_participant_by_id : (id : ℕ) → Keeps (get_participant_by_id id)
unfolding get_participant_by_id
Keeps-get_participant_by_id id =
    keeps λ w. kept (Keeps-or_fail (find? (λ (p : Participant). p.id == id) w.participants) _) w

Keeps-update_table_status : (id : ℕ) (s : TableStatus) → Keeps (update_table_status id s)
unfolding update_table_status
Keeps-update_table_status id s =
    Keeps-same _ (λ w. refl) (λ w. refl) (λ w. refl) (λ w. (refl, refl, omega arith))

Keeps-revoke_all_participants :
    (id : ℕ) (reason : String) → Keeps (revoke_all_participants id reason)
unfolding revoke_all_participants
Keeps-revoke_all_participants id reason =
    Keeps-same _ (λ w. refl) (λ w. refl) (λ w. refl) (λ w. (refl, refl, omega arith))

Keeps-bump : (id : ℕ) → Keeps (bump_all_participant_credential_versions id)
unfolding bump_all_participant_credential_versions
Keeps-bump id = Keeps-same _ (λ w. refl) (λ w. refl) (λ w. refl) (λ w. (refl, refl, omega arith))

Keeps-set_participant_host_flags : (id host : ℕ) → Keeps (set_participant_host_flags id host)
unfolding set_participant_host_flags
Keeps-set_participant_host_flags id host =
    Keeps-same _ (λ w. refl) (λ w. refl) (λ w. refl) (λ w. (refl, refl, omega arith))

ruleset row_rules = (
  keeps_rules, Keeps-get_session_by_id, Keeps-get_participant_by_id, Keeps-update_table_status,
  Keeps-revoke_all_participants, Keeps-bump, Keeps-set_participant_host_flags,
  Keeps-close_session_if_active, Keeps-abandon_row, Keeps-set_session_host, Keeps-insert_session,
  Keeps-create_participant, Keeps-reactivate_session,
)

Keeps-close_rows : (sess : Session) → Keeps (close_rows sess)
unfolding close_rows
Keeps-close_rows sess = search row_rules depth 30

Keeps-reassign_host : (sess : Session) (p : Participant) → Keeps (reassign_host sess p)
unfolding reassign_host
Keeps-reassign_host sess p = search row_rules depth 30

Keeps-promote_acting : (sess : Session) (p : Participant) → Keeps (promote_acting sess p)
unfolding promote_acting
Keeps-promote_acting sess p = search (row_rules, Keeps-reassign_host) depth 30

pub Keeps-authorize_host_action :
    (cfg : Config) (session_id acting_id : ℕ)
    → Keeps (authorize_host_action cfg session_id acting_id)
unfolding authorize_host_action
Keeps-authorize_host_action cfg session_id acting_id =
    search (row_rules, Keeps-promote_acting) depth 30

pub Keeps-transfer_host :
    (session_id acting_id target_id : ℕ) → Keeps (transfer_host session_id acting_id target_id)
unfolding transfer_host
Keeps-transfer_host session_id acting_id target_id =
    search (row_rules, Keeps-reassign_host) depth 30

Keeps-forget_presence : (sess : Session) → Keeps (forget_presence sess)
Keeps-forget_presence sess = keeps λ w.
    Good-option (organization_of_branch sess.branch_id w) _ _
      (Good-same w _ refl refl refl (refl, refl, omega arith))
      (λ org. Good-same w _ refl refl refl (refl, refl, omega arith))

pub Keeps-close_session_record :
    (sess : Session) (actor : Actor) (id : ℕ) → Keeps (close_session_record sess actor id)
unfolding close_session_record
Keeps-close_session_record sess actor id =
    search (row_rules, Keeps-close_rows, Keeps-forget_presence) depth 30

pub Keeps-close_session : (id : ℕ) (requester : Option ℕ) → Keeps (close_session id requester)
unfolding close_session
Keeps-close_session id requester = search (row_rules, Keeps-close_session_record) depth 30

Keeps-abandon_rows : (sess : Session) → Keeps (abandon_rows sess)
unfolding abandon_rows
Keeps-abandon_rows sess = search row_rules depth 30

pub Keeps-abandon_stale_session : (id table_id : ℕ) → Keeps (abandon_stale_session id table_id)
unfolding abandon_stale_session
Keeps-abandon_stale_session id table_id = keeps λ w.
    Good-option (find? (λ (s : Session). s.id == id) w.sessions) _ _ Good-refl (λ sess.
      Good-if _ _ _ (λ _. Good-refl)
        (λ _. kept (Keeps-with_tx (abandon_rows sess) (Keeps-abandon_rows sess)) w))

Keeps-next_session_number : (branch date : ℕ) → Keeps (next_session_number branch date)
unfolding next_session_number
Keeps-next_session_number branch date =
    Keeps-same _ (λ w. refl) (λ w. refl) (λ w. refl) (λ w. (refl, refl, omega arith))

pub Keeps-get_branch_by_id : (id : ℕ) → Keeps (get_branch_by_id id)
unfolding get_branch_by_id
Keeps-get_branch_by_id id =
    keeps λ w. kept (Keeps-or_fail (find? (λ (b : Branch). b.id == id) w.branches) _) w

Keeps-get_organization_by_id : (id : ℕ) → Keeps (get_organization_by_id id)
unfolding get_organization_by_id
Keeps-get_organization_by_id id =
    keeps λ w. kept (Keeps-or_fail (find? (λ (o : Organization). o.id == id) w.organizations) _) w

Keeps-get_table_by_id : (id : ℕ) → Keeps (get_table_by_id id)
unfolding get_table_by_id
Keeps-get_table_by_id id =
    keeps λ w. kept (Keeps-or_fail (find? (λ (t : DiningTable). t.id == id) w.tables) _) w

Keeps-modify_cache :
    (f : World → List CacheEntry) → Keeps (modify λ w. record w { tenant_cache = f w })
Keeps-modify_cache f =
    Keeps-same _ (λ w. refl) (λ w. refl) (λ w. refl) (λ w. (refl, refl, omega arith))

Keeps-read_status : (branch_id : ℕ) → Keeps (read_status branch_id)
unfolding read_status
Keeps-read_status branch_id =
    search (row_rules, Keeps-get_branch_by_id, Keeps-get_organization_by_id, Keeps-modify_cache)
      depth 30

Keeps-resolve : (branch_id : ℕ) → Keeps (resolve branch_id)
unfolding resolve
Keeps-resolve branch_id = keeps λ w.
    Good-option (cached_status branch_id w) _ _ (kept (Keeps-read_status branch_id) w)
      (λ s. Good-refl)

Keeps-admits : (branch_id : ℕ) → Keeps (ensure_branch_admits_guests branch_id)
unfolding ensure_branch_admits_guests
Keeps-admits branch_id = search (row_rules, Keeps-resolve) depth 30

ruleset entry_rules = (
  row_rules, Keeps-next_session_number, Keeps-get_branch_by_id, Keeps-get_table_by_id, Keeps-admits,
)

Keeps-open_session :
    (cfg : Config) (table_id branch_id : ℕ) (name fingerprint : String) (phone : List ℕ)
    (token : String)
    → Keeps (open_session cfg table_id branch_id name fingerprint phone token)
unfolding open_session
Keeps-open_session cfg table_id branch_id name fingerprint phone token = search entry_rules depth 40

Keeps-announce_session : (r : Session × Participant) → Keeps (announce_session r)
unfolding announce_session
Keeps-announce_session r = search row_rules depth 30

pub Keeps-create_session :
    (cfg : Config) (table_id : ℕ) (name fingerprint : String) (phone : List ℕ) (token : String)
    → Keeps (create_session cfg table_id name fingerprint phone token)
unfolding create_session
Keeps-create_session cfg table_id name fingerprint phone token =
    search (entry_rules, Keeps-open_session, Keeps-announce_session) depth 40

Keeps-resume_for_join : (sess : Session) → Keeps (resume_for_join sess)
unfolding resume_for_join
Keeps-resume_for_join sess =
    Keeps-status sess.status _ _ _ _ (Keeps-pure tt) (Keeps-pure tt) (search row_rules depth 40)
      (Keeps-fail _)

pub Keeps-join_session :
    (id : ℕ) (name fingerprint : String) (phone : List ℕ)
    → Keeps (join_session id name fingerprint phone)
unfolding join_session
Keeps-join_session id name fingerprint phone = search (entry_rules, Keeps-resume_for_join) depth 40

Keeps-reactivate_row : (sess : Session) → Keeps (reactivate_row sess)
unfolding reactivate_row
Keeps-reactivate_row sess =
    Keeps-status sess.status _ _ _ _ (Keeps-pure sess) (Keeps-fail _) (search row_rules depth 40)
      (Keeps-fail _)

pub Keeps-reactivate : (id : ℕ) → Keeps (reactivate id)
unfolding reactivate
Keeps-reactivate id = search (row_rules, Keeps-reactivate_row) depth 40

pub Keeps-ensure_host_baseline :
    (cfg : Config) (sess : Session) (ps : List Participant)
    → Keeps (ensure_host_baseline cfg sess ps)
unfolding ensure_host_baseline
Keeps-ensure_host_baseline cfg sess ps = keeps λ w.
    Good-option (successor_presence cfg sess ps w) _ _ Good-refl λ present.
      Good-option (pick_new_host ps sess.host_participant_id present) _ _ Good-refl λ new_host.
        let give : Op (Session × List Participant) =
          reassign_host sess new_host >> pure (with_host new_host.id sess ps) in
        Good-if (is_id sess.host_participant_id new_host.id) (pure (sess, ps) w) (give w)
          (λ _. Good-refl)
          (λ _.
            kept
              (Keeps-then (reassign_host sess new_host) (pure (with_host new_host.id sess ps))
                (Keeps-reassign_host sess new_host) (Keeps-pure (with_host new_host.id sess ps)))
              w)
