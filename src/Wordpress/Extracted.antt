-- ===== src/Wordpress/Extracted.antt =====
-- The restore of one content member (examples/wordpress-client/main.go, consume).
use binfinity_addon_sdk.Prelude.{
  List, Option, Str, ap, codes, none, refl, some, true, ◌++◌, ◌+◌, ◌∙◌, ◌∷◌, ◌≡◌,
}
use binfinity_addon_sdk.Wordpress.{
  Member, Progress, call, clear_once, consume, consume_member, content_member, content_rel, eof,
  extract_member, mark_file, unless_failed,
}
use binfinity_addon_sdk.Wordpress.Members.{content_no_dump}
use binfinity_addon_sdk.Wordpress.Paths.{target}
use binfinity_addon_sdk.Wordpress.Tree.{
  Services, Site, Tree, TreePath, extract, extract_to, on_site,
}

pub content_rel_files : (rel : Str) → content_rel (codes "files/" ++ rel) ≡ some rel
unfolding content_rel
content_rel_files rel = refl

module _ (o : Services) where
  abbrev pub Restoring : Type 0
  Restoring = Progress Site

  -- The progress after a content member whose extraction made this tree.
  abbrev pub extracted : Restoring → Tree → Restoring
  extracted p t = record p { files = p.files + 1; world = record p.world { tree = t } }

  extract_done :
      (rel : Str) (dst : TreePath) (m : Member) (t : Tree)
      → target rel ≡ some dst
      → extract rel m t ≡ extract_to dst m t
  unfolding extract
  extract_done rel dst m t h = rw h refl

  extract_member_done :
      (rel : Str) (dst : TreePath) (m : Member) (p : Restoring)
      → target rel ≡ some dst
      → (extract_to dst m p.world.tree).1 ≡ none
      → extract_member (on_site o) rel m p none
        ≡ (extracted p (extract_to dst m p.world.tree).0, none)
  unfolding extract_member call on_site mark_file
  extract_member_done rel dst m p h done = simp (extract_done rel dst m p.world.tree h, done) refl

  pub clear_once_cleared :
      (p : Restoring) → p.cleared ≡ true → clear_once (on_site o) true p ≡ (p, none)
  unfolding clear_once
  clear_once_cleared p h = simp h refl

  pub consume_content :
      (rel : Str) (m : Member) (p : Restoring)
      → m.name ≡ codes "files/" ++ rel
      → consume_member (on_site o) true m p ≡ content_member (on_site o) true m p (some rel)
  unfolding consume_member
  consume_content rel m p e =
      let named : content_rel m.name ≡ some rel = ap content_rel e ∙ content_rel_files rel in
      simp (content_no_dump m.name rel named, named) refl

  pub consume_extracted :
      (rel : Str) (dst : TreePath) (m : Member) (p : Restoring)
      → m.name ≡ codes "files/" ++ rel
      → target rel ≡ some dst
      → p.cleared ≡ true
      → (extract_to dst m p.world.tree).1 ≡ none
      → consume_member (on_site o) true m p ≡ (extracted p (extract_to dst m p.world.tree).0, none)
  unfolding content_member
  consume_extracted rel dst m p e h cleared done =
      consume_content rel m p e
      ∙ ap (λ (s : Restoring × Option Str). extract_member (on_site o) rel m s.0 s.1)
          (clear_once_cleared p cleared)
      ∙ extract_member_done rel dst m p h done

  pub consume_next :
      (m : Member) (ms : List Member) (p q : Restoring)
      → consume_member (on_site o) true m p ≡ (q, none)
      → consume (on_site o) true eof (m ∷ ms) p ≡ consume (on_site o) true eof ms q
  unfolding consume unless_failed
  consume_next m ms p q e =
      ap
        (λ (s : Restoring × Option Str).
          unless_failed (on_site o) s.0 (consume (on_site o) true eof ms s.0) s.1)
        e
