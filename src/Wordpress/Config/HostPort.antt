-- ===== src/Wordpress/Config/HostPort.antt =====
-- The database's host and port (examples/wordpress-client/main.go: splitHostPort, newConnector).
use binfinity_addon_sdk.Prelude.{
  Str, [], ap, arith, codes, contains_byte, false, non_empty_or, none, refl, some, trim_space, ◌++◌,
  ◌∙◌, ◌∷◌, ◌≡◌,
}
use binfinity_addon_sdk.Wordpress.Config.{
  WpEnv, db_value, first_non_empty, last_colon, new_connector, split_host_port,
}

last_colon-none : (s : Str) → contains_byte b':' s ≡ false → last_colon s ≡ none
unfolding last_colon contains_byte
last_colon-none [] h = refl
last_colon-none (c ∷ s) h = rw (last_colon-none s (ground arith)) (ground arith)

last_colon-some :
    (h p : Str) → contains_byte b':' p ≡ false → last_colon (h ++ (b':' ∷ p)) ≡ some (h, p)
unfolding last_colon
last_colon-some [] p e = rw (last_colon-none p e) refl
last_colon-some (c ∷ h) p e = rw (last_colon-some h p e) refl

abbrev pub IsTrimmed : Str → Type 0
IsTrimmed s = trim_space s ≡ s

split_host_port-pair :
    (h p : Str)
    → IsTrimmed (h ++ (b':' ∷ p))
    → contains_byte b':' p ≡ false
    → contains_byte b'/' p ≡ false
    → split_host_port (h ++ (b':' ∷ p)) ≡ (h, p)
unfolding split_host_port
split_host_port-pair h p trimmed no_colon no_slash =
    rw (trimmed, last_colon-some h p no_colon, no_slash) refl

split_host_port-bare :
    (h : Str) → IsTrimmed h → contains_byte b':' h ≡ false → split_host_port h ≡ (h, codes "3306")
unfolding split_host_port
split_host_port-bare h trimmed no_colon = rw (trimmed, last_colon-none h no_colon) refl

non_empty_or_colon : (h p default : Str) → non_empty_or (h ++ (b':' ∷ p)) default ≡ h ++ (b':' ∷ p)
non_empty_or_colon [] p default = refl
non_empty_or_colon (c ∷ h) p default = refl

chosen_port :
    (a b p : Str)
    → non_empty_or (first_non_empty (a ∷ b ∷ [])) p ≡ non_empty_or a (non_empty_or b p)
chosen_port [] [] p = refl
chosen_port [] (c ∷ b) p = refl
chosen_port (c ∷ a) b p = refl

-- If WP_DB_HOST is h and p joined by a colon, without blanks at its ends, and p has neither a
-- colon nor a slash, newConnector's database host is h, and its port is WP_DB_PORT, else
-- WORDPRESS_DB_PORT, else p, the first that is not empty.
pub db-new_connector :
    (e : WpEnv) (cfg_path : Str) (cfg : Str → Str) (h p : Str)
    → e.get (codes "WP_DB_HOST") ≡ h ++ (b':' ∷ p)
    → IsTrimmed (h ++ (b':' ∷ p))
    → contains_byte b':' p ≡ false
    → contains_byte b'/' p ≡ false
    → ((new_connector e cfg_path cfg).db.host ≡ h)
      × ((new_connector e cfg_path cfg).db.port
          ≡ non_empty_or
              (e.get (codes "WP_DB_PORT"))
              (non_empty_or (e.get (codes "WORDPRESS_DB_PORT")) p))
unfolding new_connector
db-new_connector e cfg_path cfg h p set trimmed no_colon no_slash =
    let value : db_value e cfg (codes "HOST") (codes "DB_HOST") (codes "localhost")
        ≡ h ++ (b':' ∷ p) =
      ap
        (λ s. non_empty_or s (
          first_non_empty
            (e.get (codes "WORDPRESS_DB_HOST") ∷ cfg (codes "DB_HOST") ∷ codes "localhost" ∷ [])))
        set
      ∙ non_empty_or_colon h p _ in
    let pair = ap split_host_port value ∙ split_host_port-pair h p trimmed no_colon no_slash in
    (
      ap (λ (r : Str × Str). r.0) pair,
      ap
            (λ (r : Str × Str).
              non_empty_or
                (first_non_empty
                  (e.get (codes "WP_DB_PORT") ∷ e.get (codes "WORDPRESS_DB_PORT") ∷ []))
                r.1)
            pair
          ∙ chosen_port (e.get (codes "WP_DB_PORT")) (e.get (codes "WORDPRESS_DB_PORT")) p,
    )
