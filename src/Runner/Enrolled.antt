-- ===== src/Runner/Enrolled.antt =====
-- When the agent enrolls (sdk.go, ensureEnrolled).
use binfinity_addon_sdk.Prelude.{
  Bool, Option, Option-cases, Str, arith, false, inl, inr, is_empty, none, not, refl, some, true,
  ◌&&◌, ◌==◌, ◌||◌, ◌≡◌,
}
use binfinity_addon_sdk.Wire.{Credentials}
use binfinity_addon_sdk.Outcome.{Outcome, err, ok}
use binfinity_addon_sdk.Runner.Setup.{Response, SetupError, accept_reply, enroll, ensure_enrolled}

-- The saved text decodes to credentials with a client id.
abbrev names_client : Option Credentials → Bool
names_client none = false
names_client (some c) = not (is_empty c.client_id)

abbrev pub is_usable : (Str → Option Credentials) → Option Str → Bool
is_usable decode none = false
is_usable decode (some text) = names_client (decode text)

abbrev decodes : Option Credentials → Bool
decodes none = false
decodes (some c) = true

-- The platform answered 201 with credentials.
abbrev pub is_accepted : (Str → Option Credentials) → Outcome Str Response → Bool
is_accepted decode (err e) = false
is_accepted decode (ok resp) = resp.status == 201 && decodes (decode resp.body)

abbrev pub is_ok : Outcome SetupError Credentials → Bool
is_ok (ok c) = true
is_ok (err e) = false

module _ (decode : Str → Option Credentials) (now : Str) where
  enroll_ok :
      (reply : Outcome Str Response) → is_ok (enroll decode now reply) ≡ is_accepted decode reply
  unfolding enroll
  enroll_ok (err e) = refl
  enroll_ok (ok resp) = elim (Option-cases (decode resp.body)) [
    | inl e ↦ rw (e, accept_reply) (ground arith)
    | inr (c, e) ↦ rw (e, accept_reply) (ground arith)
  ]

  -- ensureEnrolled enrolls anew, so that its credentials are persisted, exactly if the saved file
  -- does not decode to credentials with a client id, a setup key is set, and the platform answers
  -- 201 with a body that decodes; and it returns credentials exactly if the saved ones are usable,
  -- or a setup key is set and the platform answers so.
  pub ensure_enrolled_outcome :
      (saved : Option Str) (key : Str) (reply : Outcome Str Response)
      → ((ensure_enrolled decode now saved key reply).1
          ≡ (not (is_usable decode saved) && not (is_empty key) && is_accepted decode reply))
        × (is_ok (ensure_enrolled decode now saved key reply).0
            ≡ (is_usable decode saved || not (is_empty key) && is_accepted decode reply))
  unfolding ensure_enrolled
  ensure_enrolled_outcome none key reply = let e = enroll_ok reply in (ground arith, ground arith)
  ensure_enrolled_outcome (some text) key reply =
      let e = enroll_ok reply in
      elim (Option-cases (decode text)) [
        | inl k ↦ rw k (ground arith, ground arith)
        | inr (c, k) ↦ rw k (ground arith, ground arith)
      ]
