-- ===== src/Guest/Revocation.antt =====
-- After a session is closed no guest credential of it is accepted
-- (backend/internal/handlers/guest_auth.go behind backend/internal/services/session.go).
use Prim.Native.String.{String}
use text.Mathlib.Text.{◌==◌ as str_eq}
use qr_dining.Base.{
  ℕ, ◌≡◌, refl, ◌≢◌, Bool, true, false, Option, none, List, [], ◌∷◌, arith, ◌==◌, Option-cases,
  Bool-cases, inl, inr,
}
use qr_dining.Base.Rows.{find?, All, All-find?, Pairwise}
use qr_dining.Store.{World, Session, Participant, Actor}
use qr_dining.Session.{close_session_record}
use qr_dining.Session.Closing.{has_live_row, LockedOutOf, close_session_record_closes}
use qr_dining.Guest.{
  TokenCodec, GuestClaims, Validated, valid, bad, accepted, validate, guest_participant_id,
  claims_answer,
}

-- Nobody of the session is left unrevoked.
abbrev pub AllRevoked : ℕ → World → Type 0
AllRevoked session_id w = All (λ p. p.session_id ≡ session_id → p.revoked_at ≢ none) w.participants

revoked_of_locked_out :
    (session_id : ℕ) (old new : List Participant)
    → Pairwise (LockedOutOf session_id) old new
    → All (λ p. p.session_id ≡ session_id → p.revoked_at ≢ none) new
revoked_of_locked_out session_id [] [] h = tt
revoked_of_locked_out session_id [] (q ∷ qs) h = absurd h
revoked_of_locked_out session_id (p ∷ ps) [] h = absurd h
revoked_of_locked_out session_id (p ∷ ps) (q ∷ qs) h = (
  λ e. elim (Bool-cases (p.session_id == session_id)) [
    | inl mine ↦ (h.0.0 (ground arith)).1
    | inr other ↦ ground (arith, h.0.1)
  ],
  revoked_of_locked_out session_id ps qs h.1,
)

claims_refused :
    (session_id legacy id : ℕ) (claims : GuestClaims) (w : World)
    → AllRevoked session_id w
    → claims_answer session_id legacy claims w ≢ accepted id
claims_refused session_id legacy id claims w h e =
    elim (Option-cases (find? (λ p. p.id == claims.participant_id) w.participants)) [
      | inl missing ↦ ground arith
      | inr (p, found) ↦
          let gone =
            All-find? (λ p. p.session_id ≡ session_id → p.revoked_at ≢ none)
              (λ p. p.id == claims.participant_id) w.participants h found in
          ground (arith, gone)
    ]

bearer_refused :
    (codec : TokenCodec) (token : String) (session_id legacy id : ℕ) (header : Option ℕ)
    (required : Bool) (w : World)
    → AllRevoked session_id w
    → str_eq token "" ≡ false
    → guest_participant_id codec token session_id legacy header required w ≢ accepted id
unfolding guest_participant_id
bearer_refused codec token session_id legacy id header required w h bearer e =
    go (validate codec w.now token) refl
  where
    go : (v : Validated) → validate codec w.now token ≡ v → ⊥
    go (valid claims) known = claims_refused session_id legacy id claims w h (ground arith)
    go (bad why) known = ground arith

-- Once a live session has been closed, no bearer token at all, whatever it claims and whenever it was
-- issued, lets anybody act on that session.
pub closed_session_refuses_every_token :
    (sess : Session) (actor : Actor) (actor_id : ℕ) (w : World) (codec : TokenCodec)
    (token : String) (legacy id : ℕ) (header : Option ℕ) (required : Bool)
    → has_live_row sess w ≡ true
    → str_eq token "" ≡ false
    → guest_participant_id codec token sess.id legacy header required
        (close_session_record sess actor actor_id w).1
      ≢ accepted id
closed_session_refuses_every_token sess actor actor_id w codec token legacy id header required h t =
    let (_, _, _, locked) = close_session_record_closes sess actor actor_id w h in
    bearer_refused codec token sess.id legacy id header required
      (close_session_record sess actor actor_id w).1
      (revoked_of_locked_out sess.id w.participants _ locked) t
