-- ===== src/Wordpress/Begun.antt =====
-- How a base restore begins and ends (examples/wordpress-client/main.go: clearOnce, loadDB, apply).
use binfinity_addon_sdk.Prelude.{
  All, List, Option, Str, [], ap, codes, false, inl, inr, none, refl, str_eq, sym, true, ◌++◌, ◌∙◌,
  ◌∷◌, ◌≡◌,
}
use binfinity_addon_sdk.Wordpress.{
  Member, Progress, call, clear_once, consume, consume_member, content_member, eof, extract_member,
  finish, is_db_dump, mark_applied, started, unless_failed,
}
use binfinity_addon_sdk.Wordpress.Cleared.{any_content}
use binfinity_addon_sdk.Wordpress.Paths.{join}
use binfinity_addon_sdk.Wordpress.Tree.{Services, Site, TreePath, clear, on_site}
use binfinity_addon_sdk.Wordpress.Backup.{
  Action, Visit, add_content, dump_member, next_visit, pass, stop, visit, write_member,
}
use binfinity_addon_sdk.Wordpress.Kept.{Content, IsVisit}
use binfinity_addon_sdk.Wordpress.Visited.{Says, visit-Says}
use binfinity_addon_sdk.Wordpress.Extracted.{clear_once_cleared, consume_content}

-- The member's name is below "files/".
abbrev pub IsFile : Member → Type 0
IsFile m = (rel : Str) × (m.name ≡ codes "files/" ++ rel)

module _ (excludes : List Str) (content : Content) where
  said-IsFile : (p : TreePath) (m : Member) → Says excludes content p (write_member m) → IsFile m
  said-IsFile p m (c, cs, e, inl (d, name, k)) = (join (c ∷ cs) ++ codes "/", name)
  said-IsFile p m (c, cs, e, inr (d, name, k)) = (join (c ∷ cs), name)

  next_files :
      (p : TreePath) (a : Action) (rest : List Member × Option Str)
      → Says excludes content p a
      → All IsFile rest.0
      → All IsFile (next_visit a rest).0
  unfolding next_visit
  next_files p (write_member m) rest h k = (said-IsFile p m h, k)
  next_files p pass rest h k = k
  next_files p (stop e) rest h k = tt

  pub all_files :
      (vs : List Visit) → All (IsVisit content) vs → All IsFile (add_content excludes none vs).0
  unfolding add_content
  all_files [] h = tt
  all_files (v ∷ vs) h =
      next_files v.path (visit excludes none v) (add_content excludes none vs)
        (visit-Says excludes content v h.0) (all_files vs h.1)

module _ (o : Services) where
  -- The progress after clearDir.
  abbrev pub emptied : Progress Site → Progress Site
  emptied p = record p { cleared = true; world = record p.world { tree = (clear p.world.tree).0 } }

  clear_once_first :
      (p : Progress Site)
      → p.cleared ≡ false
      → (clear p.world.tree).1 ≡ none
      → clear_once (on_site o) true p ≡ (emptied p, none)
  unfolding clear_once call on_site
  clear_once_first p h done = simp (h, done) refl

  clears_first :
      (rel : Str) (m : Member) (p : Progress Site)
      → m.name ≡ codes "files/" ++ rel
      → p.cleared ≡ false
      → (clear p.world.tree).1 ≡ none
      → consume_member (on_site o) true m p ≡ consume_member (on_site o) true m (emptied p)
  unfolding content_member
  clears_first rel m p e h done =
      consume_content o rel m p e
      ∙ ap (λ (s : Progress Site × Option Str). extract_member (on_site o) rel m s.0 s.1)
          (clear_once_first p h done ∙ sym (clear_once_cleared o (emptied p) refl))
      ∙ sym (consume_content o rel m (emptied p) e)

  -- A stream of content clears wp-content at its first member.
  pub consume-emptied :
      (ms : List Member) (p : Progress Site)
      → All IsFile ms
      → any_content ms ≡ true
      → p.cleared ≡ false
      → (clear p.world.tree).1 ≡ none
      → consume (on_site o) true eof ms p ≡ consume (on_site o) true eof ms (emptied p)
  unfolding consume
  consume-emptied [] p h some_content c done = cc
  consume-emptied (m ∷ ms) p h some_content c done =
      ap
        (λ (s : Progress Site × Option Str).
          unless_failed (on_site o) s.0 (consume (on_site o) true eof ms s.0) s.1)
        (clears_first h.0.0 m p h.0.1 c done)

  -- The progress after the dump.
  abbrev pub imported : Str → Site → Progress Site
  imported dump s = record (started (on_site o) s) {
    db_applied = true;
    world = record s { db = (o.import dump s.db).0 };
  }

  pub consume_dump :
      (dump : Str) (s : Site)
      → (o.import dump s.db).1 ≡ none
      → consume_member (on_site o) true (dump_member dump) (started (on_site o) s)
        ≡ (imported dump s, none)
  unfolding consume_member call on_site mark_applied is_db_dump str_eq
  consume_dump dump s h = simp h refl

  pub finish_done :
      (p : Progress Site)
      → p.db_applied ≡ true
      → ((finish (on_site o) p none).1 ≡ none) × ((finish (on_site o) p none).0.world ≡ p.world)
  unfolding finish call on_site
  finish_done p h = simp h (refl, refl)
