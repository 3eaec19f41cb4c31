-- ===== src/Guest/Binding.antt =====
-- What an accepted guest credential proves (backend/internal/handlers/guest_auth.go).
use Prim.Native.String.{String}
use text.Mathlib.Text.{◌==◌ as str_eq}
use qr_dining.Base.{
  ℕ, ◌≡◌, refl, Bool, false, Option, none, some, arith, ◌==◌, Option-cases, inl, inr,
}
use qr_dining.Base.Rows.{find?}
use qr_dining.Store.{World, Participant}
use qr_dining.Guest.{
  TokenCodec, GuestClaims, Validated, valid, bad, accepted, validate, claims_answer,
  guest_participant_id,
}

-- The participant whom a credential names: a row of that session, not revoked, whose credential
-- version is the one in the claims.
abbrev pub Names : ℕ → ℕ → World → GuestClaims → Type 0
Names session_id id w claims =
    (p : Participant) × (find? (λ q. q.id == id) w.participants ≡ some p)
    × (p.session_id ≡ session_id)
    × (p.revoked_at ≡ none)
    × (claims.participant_id ≡ id)
    × (claims.session_id ≡ session_id)
    × (claims.credential_version ≡ p.credential_version)

named :
    (session_id legacy id : ℕ) (w : World) (claims : GuestClaims)
    → claims_answer session_id legacy claims w ≡ accepted id
    → Names session_id id w claims
named session_id legacy id w claims e =
    elim (Option-cases (find? (λ p. p.id == claims.participant_id) w.participants)) [
      | inl missing ↦ absurd (ground arith)
      | inr (p, found) ↦
          let same : claims.participant_id ≡ id = ground arith in
          (
            p,
            rw (← same) found,
            ground arith,
            elim (Option-cases p.revoked_at) [
              | inl fresh ↦ fresh
              | inr (t, gone) ↦ absurd (ground arith)
            ],
            same,
            ground arith,
            ground arith,
          )
    ]

-- A bearer token that is accepted validates, and its claims name a participant of that very session
-- who is not revoked and whose credential has not been rotated since.
pub accepted_bearer-Names :
    (codec : TokenCodec) (token : String) (session_id legacy id : ℕ) (header : Option ℕ)
    (required : Bool) (w : World)
    → str_eq token "" ≡ false
    → guest_participant_id codec token session_id legacy header required w ≡ accepted id
    → (claims : GuestClaims) × (validate codec w.now token ≡ valid claims)
      × Names session_id id w claims
unfolding guest_participant_id
accepted_bearer-Names codec token session_id legacy id header required w bearer e =
    go (validate codec w.now token) refl
  where
    go :
        (v : Validated)
        → validate codec w.now token ≡ v
        → (claims : GuestClaims) × (validate codec w.now token ≡ valid claims)
          × Names session_id id w claims
    go (valid claims) known = (claims, known, named session_id legacy id w claims (ground arith))
    go (bad why) known = absurd (ground arith)
