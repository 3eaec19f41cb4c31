-- ===== src/Tests/SessionRuns.antt =====
-- Sessions and guest credentials at concrete inputs.
use qr_dining.Base.{◌≡◌, refl, ◌≢◌, ap, Bool, true, false, none, some, [], arith}
use qr_dining.Base.Rows.{Pairwise}
use qr_dining.Store.{
  World, Session, Result, ok, by_participant, by_staff, get_session_by_id, get_participant_by_id,
}
use qr_dining.Presence.{get_last_seen_for_session, get_present_for_session}
use qr_dining.Session.{
  close_session_record, authorize_host_action, is_id, host_absent_from_presence, promote_acting,
  reassign_host, present_participant_ids,
}
use qr_dining.Session.Closing.{
  ClosedNow, FreedTable, LockedOutOf, closed_once, close_session_record_closes,
}
use qr_dining.Session.Authority.{
  MayAct, authorized-MayAct, authorized_becomes_host, unauthorized_changes_nothing,
  host_within_grace_is_kept, session_row,
}
use qr_dining.Guest.{TokenCodec, GuestClaims, guest_participant_id, accepted, valid, validate}
use qr_dining.Guest.Revocation.{closed_session_refuses_every_token}
use qr_dining.Guest.Binding.{Names, accepted_bearer-Names}
use qr_dining.Tests.Fixtures.{config, dinner, host, org, beats, world, world_without_host}

-- A codec that reads every token as Ravi's credential.
abbrev ravi : GuestClaims
ravi = record {
  session_id = 100;
  participant_id = 202;
  credential_version = 1;
  expires_at_unix = 5000;
  audience = "guest";
}

abbrev codec : TokenCodec
codec = record {
  cut = λ token. some ("payload", "signature");
  decode = λ part. some [];
  sign = λ part. [];
  unmarshal = λ bytes. some ravi;
}

ravi_is_accepted : guest_participant_id codec "t" 100 0 none true world ≡ accepted 202
unfolding guest_participant_id
ravi_is_accepted = refl

accepted_bearer-Names_example :
    (claims : GuestClaims) × (validate codec 1000 "t" ≡ valid claims) × Names 100 202 world claims
accepted_bearer-Names_example =
    accepted_bearer-Names codec "t" 100 0 202 none true world refl ravi_is_accepted

closed_session_refuses_every_token_example :
    guest_participant_id codec "t" 100 0 none true
      (close_session_record dinner by_participant 201 world).1
    ≢ accepted 202
closed_session_refuses_every_token_example =
    closed_session_refuses_every_token dinner by_participant 201 world codec "t" 0 202 none true
      refl refl

close_session_record_closes_example :
    let (result, w') = close_session_record dinner by_participant 201 world in
    (result ≡ ok true)
    × Pairwise (ClosedNow 100 1000) world.sessions w'.sessions
    × Pairwise (FreedTable 5) world.tables w'.tables
    × Pairwise (LockedOutOf 100) world.participants w'.participants
close_session_record_closes_example =
    close_session_record_closes dinner by_participant 201 world refl

-- The row as a second caller read it before the first one closed the session.
abbrev stale_copy : Session
stale_copy = record dinner { warned_at = some 990 }

abbrev closed_world : World
closed_world = (close_session_record dinner by_participant 201 world).1

closed_once_example :
    close_session_record stale_copy by_staff 7 closed_world ≡ (ok false, closed_world)
closed_once_example = closed_once dinner stale_copy by_participant by_staff 201 7 world refl

ravi_takes_over : (authorize_host_action config 100 202 world_without_host).0 ≡ ok true
unfolding authorize_host_action get_session_by_id host_absent_from_presence
    get_last_seen_for_session get_participant_by_id promote_acting present_participant_ids
    get_present_for_session reassign_host
ravi_takes_over = refl

authorized-MayAct_example : MayAct config 100 202 world_without_host
authorized-MayAct_example = authorized-MayAct config 100 202 world_without_host ravi_takes_over

authorized_becomes_host_example :
    (row : Session) × (session_row 100 (authorize_host_action config 100 202 world_without_host).1
      ≡ some row)
    × (is_id row.host_participant_id 202 ≡ true)
authorized_becomes_host_example =
    authorized_becomes_host config 100 202 world_without_host ravi_takes_over

host_within_grace_is_kept_example : authorize_host_action config 100 202 world ≡ (ok false, world)
unfolding get_last_seen_for_session
host_within_grace_is_kept_example =
    host_within_grace_is_kept config 100 202 world dinner host org beats 995 refl refl (omega arith)
      refl refl refl refl (omega arith)

refused_now : (authorize_host_action config 100 202 world).0 ≢ ok true
refused_now e =
    ground (arith, ap (λ (r : Result Bool × World). r.0) host_within_grace_is_kept_example)

unauthorized_changes_nothing_example : (authorize_host_action config 100 202 world).1 ≡ world
unauthorized_changes_nothing_example = unauthorized_changes_nothing config 100 202 world refused_now
