-- ===== src/Guest.antt =====
-- The guest credential: GuestTokenService.Validate of backend/internal/auth/guest.go and
-- guestParticipantID of backend/internal/handlers/guest_auth.go. The encodings and the HMAC of Go's
-- standard library are the fields of `TokenCodec`.
pub mod Revocation
pub mod Binding
use Prim.Native.String.{String}
use text.Mathlib.Text.{◌==◌ as str_eq}
use qr_dining.Base.{
  ℕ, Bool, true, false, ◌&&◌, ◌||◌, not, Option, none, some, List, [], ◌∷◌, ◌==◌, leb, is_some,
  if◌then◌else◌, bytes_equal,
}
use qr_dining.Base.Rows.{find?}
use qr_dining.Store.{World, Participant}

-- `exp` is in Unix seconds; of the claims only those that a check reads are kept.
pub record GuestClaims : Type 0 where
  pub session_id : ℕ
  pub participant_id : ℕ
  pub credential_version : ℕ
  pub expires_at_unix : ℕ
  pub audience : String

-- strings.Cut at ".", base64.RawURLEncoding.DecodeString, the keyed HMAC-SHA256 of `sign`, and
-- json.Unmarshal into the claims.
pub record TokenCodec : Type 0 where
  pub cut : String → Option (String × String)
  pub decode : String → Option (List ℕ)
  pub sign : String → List ℕ
  pub unmarshal : List ℕ → Option GuestClaims

abbrev pub guest_audience : String
guest_audience = "guest"

pub data TokenError : Type 0 where
  malformed invalid expired : TokenError

pub data Validated : Type 0 where
  valid : GuestClaims → Validated
  bad : TokenError → Validated

abbrev check_claims : ℕ → GuestClaims → Validated
check_claims now claims =
    if not (str_eq claims.audience guest_audience)
    then bad invalid
    else if leb claims.expires_at_unix now
    then bad expired
    else valid claims

abbrev check_payload : TokenCodec → ℕ → String → Validated
check_payload codec now payload_part = elim (codec.decode payload_part) [
  | none ↦ bad malformed
  | some payload ↦ elim (codec.unmarshal payload) [
    | none ↦ bad malformed
    | some claims ↦ check_claims now claims
  ]
]

abbrev check_parts : TokenCodec → ℕ → String → String → Validated
check_parts codec now payload_part signature_part =
    if str_eq payload_part "" || str_eq signature_part ""
    then bad malformed
    else elim (codec.decode signature_part) [
      | none ↦ bad malformed
      | some got ↦
          if not (bytes_equal got (codec.sign payload_part))
          then bad invalid
          else check_payload codec now payload_part
    ]

unfoldable pub validate : TokenCodec → ℕ → String → Validated
validate codec now token = elim (codec.cut token) [
  | none ↦ bad malformed
  | some (payload_part, signature_part) ↦ check_parts codec now payload_part signature_part
]

-- Why a request is refused: the label that recordGuestTokenFailure counts.
pub data Refusal : Type 0 where
  credential_required legacy_participant_mismatch session_mismatch participant_mismatch
        stale_credential revoked :
      Refusal
  bad_token : TokenError → Refusal

pub data Answer : Type 0 where
  accepted : ℕ → Answer
  refused : Refusal → Answer

abbrev legacy_id : ℕ → Option ℕ → ℕ
legacy_id given header = elim header [ none ↦ given | some id ↦ if given == 0 then id else given ]

-- The branch with no bearer token.
abbrev legacy_answer : ℕ → ℕ → Bool → World → Answer
legacy_answer session_id legacy required w =
    if required
    then refused credential_required
    else if legacy == 0
    then accepted legacy
    else elim (find? (λ p. p.id == legacy) w.participants) [
      | none ↦ refused legacy_participant_mismatch
      | some p ↦
          if p.session_id == session_id
          then accepted legacy
          else refused legacy_participant_mismatch
    ]

abbrev pub claims_answer : ℕ → ℕ → GuestClaims → World → Answer
claims_answer session_id legacy claims w =
    if not (claims.session_id == session_id)
    then refused session_mismatch
    else if not (legacy == 0) && not (claims.participant_id == legacy)
    then refused participant_mismatch
    else elim (find? (λ p. p.id == claims.participant_id) w.participants) [
      | none ↦ refused stale_credential
      | some p ↦
          if not (p.session_id == session_id)
          then refused stale_credential
          else if not (p.credential_version == claims.credential_version)
          then refused stale_credential
          else if is_some p.revoked_at
          then refused revoked
          else accepted claims.participant_id
    ]

-- The arguments: the bearer token ("" for none), the session, the participant id of the request body,
-- the one of the legacy header, and whether a credential is required.
unfoldable pub guest_participant_id : TokenCodec → String → ℕ → ℕ → Option ℕ → Bool → World → Answer
unfolding validate
guest_participant_id codec token session_id legacy header required w =
    if str_eq token ""
    then legacy_answer session_id (legacy_id legacy header) required w
    else elim (validate codec w.now token) [
      | bad e ↦ refused (bad_token e)
      | valid claims ↦ claims_answer session_id legacy claims w
    ]
