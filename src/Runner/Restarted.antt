-- ===== src/Runner/Restarted.antt =====
-- A restart of the agent (sdk.go: ensureEnrolled, persist).
use binfinity_addon_sdk.Prelude.{
  Bool, Option, Option-cases, Str, [], false, if◌then◌else◌, inl, inr, is_empty, none, refl, some,
  true, ◌∙◌, ◌∷◌, ◌≡◌, ◌≢◌, ◌⊎◌,
}
use binfinity_addon_sdk.Wire.{Credentials}
use binfinity_addon_sdk.Runner.Setup.{
  Response, SetupError, enroll, ensure_enrolled, no_setup_key, saved_credentials,
}
use binfinity_addon_sdk.Runner.Saved.{Boot, keep, obtain, persist}
use binfinity_addon_sdk.Outcome.{Outcome, err, ok}

module _ (decode : Str → Option Credentials) (encode : Credentials → Str) where
  saved_credentials_print :
      (now : Str) (c : Credentials)
      → decode (encode c) ≡ some c
      → is_empty c.client_id ≡ false
      → saved_credentials decode now (some (encode c)) ≡ some c
  unfolding saved_credentials
  saved_credentials_print now c e n = rw (saved_credentials, e, n) refl

  -- Saved credentials are used as they are.
  obtain_saved :
      (boot : Boot) (key : Str) (saved : Option Str) {c : Credentials}
      → saved_credentials decode boot.now saved ≡ some c
      → obtain decode encode boot key saved ≡ (ok c, saved)
  unfolding obtain
  obtain_saved boot key saved e = rw (ensure_enrolled, e) refl

  saved_credentials_now :
      (now later : Str) (saved : Option Str)
      → saved_credentials decode now saved ≡ saved_credentials decode later saved
  unfolding saved_credentials
  saved_credentials_now now later none = refl
  saved_credentials_now now later (some text) = refl

  enrolled_afresh :
      (key : Str) (o : Outcome SetupError Credentials) {c : Credentials}
      → ◌≢◌ {A = Outcome SetupError Credentials × Bool}
          (if is_empty key
            then (err no_setup_key, false)
            else (elim o [ ok c ↦ (ok c, true) | err e ↦ (err e, false) ]))
          (ok c, false)
  enrolled_afresh [] (ok d) h = cc
  enrolled_afresh [] (err e) h = cc
  enrolled_afresh (k ∷ key) (ok d) h = cc
  enrolled_afresh (k ∷ key) (err e) h = cc

  reused :
      (now key : Str) (saved : Option Str) (reply : Outcome Str Response) {c : Credentials}
      → ensure_enrolled decode now saved key reply ≡ (ok c, false)
      → saved_credentials decode now saved ≡ some c
  unfolding ensure_enrolled
  reused now key saved reply h = elim (Option-cases (saved_credentials decode now saved)) [
    | inl e ↦ absurd (enrolled_afresh key (enroll decode now reply) (rw (ensure_enrolled, e) at h))
    | inr (d, e) ↦ let k = rw (ensure_enrolled, e) at h in cc
  ]

  keep_cases :
      (saved : Option Str) (o : Outcome SetupError Credentials × Bool) {c : Credentials}
      {saved' : Option Str}
      → keep decode encode none saved o ≡ (ok c, saved')
      → ((o ≡ (ok c, false)) × (saved' ≡ saved)) ⊎ (saved' ≡ some (encode c))
  unfolding keep persist
  keep_cases saved (ok d, true) h = inr cc
  keep_cases saved (ok d, false) h = inl (cc, cc)
  keep_cases saved (err e, fresh) h = cc

  -- The file holds the credentials that were obtained.
  holds_obtained :
      (boot : Boot) (key : Str) (saved : Option Str) {c : Credentials} {saved' : Option Str}
      → obtain decode encode boot key saved ≡ (ok c, saved')
      → boot.fault ≡ none
      → decode (encode c) ≡ some c
      → is_empty c.client_id ≡ false
      → saved_credentials decode boot.now saved' ≡ some c
  unfolding obtain
  holds_obtained boot key saved h written e n =
      elim (keep_cases saved (ensure_enrolled decode boot.now saved key boot.reply)
        (rw written at h)) [
          | inl (o, same) ↦ rw same (reused boot.now key saved boot.reply o)
          | inr fresh ↦ rw fresh (saved_credentials_print boot.now _ e n)
        ]

  -- If ensureEnrolled returns credentials, saved or enrolled, with a client id that is not empty,
  -- that decode from their encoding, and the write of the file does not fail, then ensureEnrolled
  -- on the file that it left returns the same credentials and leaves the file, whatever the setup
  -- key, the platform's reply and the disk do then.
  pub obtain_again :
      (boot : Boot) (key : Str) (saved : Option Str) {c : Credentials} {saved' : Option Str}
      → obtain decode encode boot key saved ≡ (ok c, saved')
      → boot.fault ≡ none
      → decode (encode c) ≡ some c
      → is_empty c.client_id ≡ false
      → (boot' : Boot) (key' : Str) → obtain decode encode boot' key' saved' ≡ (ok c, saved')
  obtain_again boot key saved h written e n boot' key' =
      obtain_saved boot' key' _
        (saved_credentials_now boot'.now boot.now _ ∙ holds_obtained boot key saved h written e n)
