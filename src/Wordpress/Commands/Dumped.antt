-- ===== src/Wordpress/Commands/Dumped.antt =====
-- What a backup holds of the database (examples/wordpress-client/main.go: dumpDB, write).
use binfinity_addon_sdk.Prelude.{
  List, Option, Str, ap, codes, none, refl, some, sym, ℕ, ◌∙◌, ◌∷◌, ◌≡◌,
}
use binfinity_addon_sdk.Tools.{run_error}
use binfinity_addon_sdk.Outcome.{Outcome, err, ok}
use binfinity_addon_sdk.Wordpress.Config.{DbConf, WpConnector}
use binfinity_addon_sdk.Wordpress.Backup.{Visit, add_content, dump_member, write}
use binfinity_addon_sdk.Wordpress.Commands.{Host, dump_command, dump_db, unless, write_all}
use binfinity_addon_sdk.Tools.Stored.{run_error-none}

unless_ok :
    {A : Type 0} (e : Option Str) (next : Outcome Str A) {out : A}
    → unless e next ≡ ok out
    → (e ≡ none) × (next ≡ ok out)
unless_ok none next h = (refl, h)
unless_ok (some e) next h = cc

dump_db_ok :
    (h : Host) (db : DbConf) {out : Str}
    → dump_db h db ≡ ok out
    → ((h.run (dump_command h db)).wait ≡ none) × ((h.run (dump_command h db)).out ≡ out)
unfolding dump_db
dump_db_ok h db e =
    let ended = h.run (dump_command h db) in
    let ran = (unless_ok h.created _ e).1 in
    let (ended_well, seeks) = unless_ok (run_error (codes "mysqldump") ended) _ ran in
    let written = (unless_ok h.rewound _ (unless_ok h.told _ seeks).1).1 in
    (run_error-none (codes "mysqldump") ended ended_well, cc)

write_dumped :
    (d : Outcome Str Str) (excludes : List Str) (since : Option ℕ) (vs : List Visit)
    → (write d excludes since vs).1 ≡ none
    → (out : Str) × (d ≡ ok out)
      × ((write d excludes since vs).0 ≡ dump_member out ∷ (add_content excludes since vs).0)
unfolding write
write_dumped (err e) excludes since vs h = cc
write_dumped (ok out) excludes since vs h = (out, refl, refl)

-- If a backup of the WordPress connector returns no error, the dump program that it called ended
-- without an error, and the stream is the member with that program's output, then the members of
-- wp-content.
pub write_all_dumped :
    (h : Host) (c : WpConnector) (since : Option ℕ) (vs : List Visit)
    → (write_all h c since vs).1 ≡ none
    → ((h.run (dump_command h c.db)).wait ≡ none)
      × ((write_all h c since vs).0
          ≡ dump_member (h.run (dump_command h c.db)).out ∷ (add_content c.exclude since vs).0)
unfolding write_all
write_all_dumped h c since vs e =
    let (out, dumped, members) = write_dumped (dump_db h c.db) c.exclude since vs e in
    let (ended, same) = dump_db_ok h c.db dumped in
    (ended, members ∙ ap (λ x. dump_member x ∷ (add_content c.exclude since vs).0) (sym same))
