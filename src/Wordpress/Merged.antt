-- ===== src/Wordpress/Merged.antt =====
-- What the restore of a chain element that is no base does to a site, whatever the stream
-- (examples/wordpress-client/main.go: apply, consume).
use binfinity_addon_sdk.Prelude.{
  Bool-cases, List, Option, Option-cases, Str, [], ap, false, if◌then◌else◌, inl, inr, none, refl,
  some, subst, sym, ◌∙◌, ◌∷◌, ◌≡◌,
}
use binfinity_addon_sdk.Wordpress.{
  Ending, Member, Progress, apply, call, clear_once, consume, consume_member, content_member,
  content_rel, extract_member, finish, is_db_dump, mark_applied, mark_file, started, unless_failed,
}
use binfinity_addon_sdk.Wordpress.Tree.{Services, Site, Tree, TreePath, extract, on_site}
use binfinity_addon_sdk.Wordpress.Paths.{target}
use binfinity_addon_sdk.Wordpress.Overlaid.{
  Overlays, Overlays-refl, Overlays-same, Overlays-trans, Writes, extract_to-Overlays, later,
  no_writes, writes_to,
}

abbrev target_writes : Option TreePath → Member → Writes
target_writes none m q = none
target_writes (some dst) m q = writes_to dst m q

abbrev rel_writes : Option Str → Member → Writes
rel_writes none m q = none
rel_writes (some rel) m q = target_writes (target rel) m q

abbrev pub member_writes : Member → Writes
member_writes m q = if is_db_dump m.name then none else rel_writes (content_rel m.name) m q

-- The files of a stream: at each path the last member that goes there.
unfoldable pub stream_writes : List Member → Writes
stream_writes [] q = none
stream_writes (m ∷ ms) q = later (stream_writes ms q) (member_writes m q)

module _ (o : Services) where
  -- The database after the dumps of a stream.
  unfoldable pub imports : List Member → Str → Str
  imports [] db = db
  imports (m ∷ ms) db = imports ms (if is_db_dump m.name then (o.import m.bytes db).0 else db)

  -- The step has imported and written just this.
  pub record Merges (w : Writes) (db : Str) (s t : Site) : Type 0 where
    pub overlays : Overlays w s.tree t.tree
    pub same_db : t.db ≡ db

  extract-Overlays :
      (rel : Str) (m : Member) (t : Tree)
      → (extract rel m t).1 ≡ none
      → Overlays (rel_writes (some rel) m) t (extract rel m t).0
  unfolding extract
  extract-Overlays rel m t done = elim (Option-cases (target rel)) [
    | inl e ↦ Overlays-same {v = no_writes} (λ q. rw e refl) (rw e (Overlays-refl t))
    | inr (dst, e) ↦
        Overlays-same {v = writes_to dst m} (λ q. rw e refl)
          (rw e (extract_to-Overlays dst m t (rw e at done)))
  ]

  abbrev Step : Type 0
  Step = Progress Site × Option Str

  mark_file_world :
      (p : Progress Site) (e : Option Str)
      → (mark_file (on_site o) p e).1 ≡ none
      → (e ≡ none) × ((mark_file (on_site o) p e).0.world ≡ p.world)
  unfolding mark_file
  mark_file_world p none done = (refl, refl)
  mark_file_world p (some e) done = absurd (cc (done))

  mark_applied_world :
      (p : Progress Site) (e : Option Str) → (mark_applied (on_site o) p e).0.world ≡ p.world
  unfolding mark_applied
  mark_applied_world p none = refl
  mark_applied_world p (some e) = refl

  content_member-Merges :
      (m : Member) (p : Progress Site) (rel : Option Str)
      → (content_member (on_site o) false m p rel).1 ≡ none
      → Merges
          (rel_writes rel m)
          p.world.db
          p.world
          (content_member (on_site o) false m p rel).0.world
  unfolding content_member clear_once extract_member call on_site
  content_member-Merges m p none done = record {
    overlays = Overlays-refl p.world.tree;
    same_db = refl;
  }
  content_member-Merges m p (some rel) done =
      let (tree, e) = extract rel m p.world.tree in
      let q : Progress Site = record p { world = record p.world { tree = tree } } in
      let (worked, same) = mark_file_world q e done in
      subst (Merges (rel_writes (some rel) m) p.world.db p.world) (sym same)
        (record { overlays = extract-Overlays rel m p.world.tree worked; same_db = refl })

  Merges-same :
      {v w : Writes} {db : Str} {s t : Site}
      → ((q : TreePath) → w q ≡ v q)
      → Merges v db s t
      → Merges w db s t
  Merges-same {v = v} e f = record {
    overlays = Overlays-same {v = v} e f.overlays;
    same_db = f.same_db;
  }

  consume_member-Merges :
      (m : Member) (p : Progress Site)
      → (consume_member (on_site o) false m p).1 ≡ none
      → Merges
          (member_writes m)
          (if is_db_dump m.name then (o.import m.bytes p.world.db).0 else p.world.db)
          p.world
          (consume_member (on_site o) false m p).0.world
  unfolding consume_member call on_site
  consume_member-Merges m p done = elim (Bool-cases (is_db_dump m.name)) [
    | inl d ↦
        let (db, e) = o.import m.bytes p.world.db in
        let q : Progress Site = record p { world = record p.world { db = db } } in
        Merges-same {v = no_writes} (λ x. rw d refl)
          (rw d (
            subst (Merges no_writes db p.world) (sym (mark_applied_world q e))
              (record { overlays = Overlays-refl p.world.tree; same_db = refl })))
    | inr d ↦
        Merges-same {v = rel_writes (content_rel m.name) m} (λ x. rw d refl)
          (rw d (content_member-Merges m p (content_rel m.name) (rw d at done)))
  ]

  consume-Merges :
      (ending : Ending) (ms : List Member) (p : Progress Site)
      → (consume (on_site o) false ending ms p).1 ≡ none
      → Merges
          (stream_writes ms)
          (imports ms p.world.db)
          p.world
          (consume (on_site o) false ending ms p).0.world
  unfolding consume unless_failed stream_writes imports
  consume-Merges ending [] p done = record { overlays = Overlays-refl p.world.tree; same_db = refl }
  consume-Merges ending (m ∷ ms) p done =
      let (q, e) = consume_member (on_site o) false m p in
      elim (Option-cases e) [
        | inr (text, h) ↦ absurd (let k = rw h at done in cc)
        | inl h ↦
            let first = consume_member-Merges m p h in
            let rest = consume-Merges ending ms q (rw h at done) in
            rw h (record {
              overlays = Overlays-trans first.overlays rest.overlays;
              same_db = rest.same_db ∙ ap (imports ms) first.same_db;
            })
      ]

  finish_world :
      (p : Progress Site) (e : Option Str)
      → (finish (on_site o) p e).1 ≡ none
      → (e ≡ none) × ((finish (on_site o) p e).0.world ≡ p.world)
  unfolding finish call on_site
  finish_world p none done = elim (Bool-cases p.db_applied) [
    | inl d ↦ (refl, rw d refl)
    | inr d ↦ absurd (let k = rw d at done in cc)
  ]
  finish_world p (some e) done = absurd (cc (done))

  -- If a delta restore of the WordPress connector returns no error, the database is the one after
  -- the import of the stream's dumps in their order; wp-content holds at each path the bytes of
  -- the last member that goes there; at every other path it holds what was there before, and where
  -- nothing was, nothing or a directory.
  pub apply-Merges :
      (ending : Ending) (ms : List Member) (s : Site)
      → (apply (on_site o) false ending ms s).1 ≡ none
      → Merges (stream_writes ms) (imports ms s.db) s (apply (on_site o) false ending ms s).0.world
  unfolding apply
  apply-Merges ending ms s done =
      let (p, e) = consume (on_site o) false ending ms (started (on_site o) s) in
      let (consumed, same) = finish_world p e done in
      subst (Merges (stream_writes ms) (imports ms s.db) s) (sym same)
        (consume-Merges ending ms (started (on_site o) s) consumed)
