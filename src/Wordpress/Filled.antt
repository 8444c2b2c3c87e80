-- ===== src/Wordpress/Filled.antt =====
-- The restore of a full backup's content (examples/wordpress-client/main.go: addContent, consume).
use binfinity_addon_sdk.Prelude.{
  All, Bool-cases, List, Option, Str, [], ap, codes, inl, inr, none, refl, some, subst, sym, true,
  ◌++◌, ◌∙◌, ◌∷◌, ◌≡◌,
}
use binfinity_addon_sdk.Disk.{Node, file, folder}
use binfinity_addon_sdk.Wordpress.{Member, Progress, consume, eof}
use binfinity_addon_sdk.Wordpress.Paths.{join, target}
use binfinity_addon_sdk.Wordpress.Paths.Plain.{IsName, target-join, target-join_slash}
use binfinity_addon_sdk.Wordpress.Tree.{Services, Site, Tree, TreePath, extract_to, find, on_site}
use binfinity_addon_sdk.Wordpress.Backup.{
  Action, Visit, add_content, is_hidden, next_visit, pass, stop, visit, write_member,
}
use binfinity_addon_sdk.Wordpress.Kept.{Content, IsVisit, Parents, Parents-kept, kept}
use binfinity_addon_sdk.Wordpress.Grown.{
  Grows, Grows-refl, Grows-trans, IsPart, IsSound, IsSound-of, Makes, extract_dir-Makes,
  extract_file-Makes,
}
use binfinity_addon_sdk.Wordpress.Visited.{Says, visit-Says}
use binfinity_addon_sdk.Wordpress.Extracted.{consume_extracted, consume_next, extracted}

module _ (o : Services) (excludes : List Str) (content : Content)
    (root : content [] ≡ some folder) where
  abbrev pub wanted : Content
  wanted = kept excludes content

  -- The path holds what is kept there.
  abbrev pub Present : Tree → Visit → Type 0
  Present t v = (n : Node) → wanted v.path ≡ some n → find v.path t.entries ≡ some n

  Present-Grows :
      {t u : Tree} (vs : List Visit) → Grows wanted t u → All (Present t) vs → All (Present u) vs
  Present-Grows [] g h = tt
  Present-Grows (v ∷ vs) g h = ((λ n k. g.keeps v.path n (h.0 n k)), Present-Grows vs g h.1)

  abbrev pub Stepped : Type 0
  Stepped = Progress Site × Option Str

  -- A tree in which the restore goes on.
  pub record IsReady (t : Tree) : Type 0 where
    pub sound : IsSound t.faults
    pub part : IsPart wanted t
    pub top : find [] t.entries ≡ some folder

  pub Grows-IsReady : {t u : Tree} → Grows wanted t u → IsReady t → IsReady u
  Grows-IsReady g r = record {
    sound = IsSound-of wanted g r.sound;
    part = g.only r.part;
    top = g.keeps [] folder r.top;
  }

  pub record Filled (vs : List Visit) (p : Progress Site) (r : Stepped) : Type 0 where
    pub done : r.1 ≡ none
    pub applied : r.0.db_applied ≡ p.db_applied
    pub db : r.0.world.db ≡ p.world.db
    pub grows : Grows wanted p.world.tree r.0.world.tree
    pub present : All (Present r.0.world.tree) vs

  kept-Parents :
      (c : Str) (cs : TreePath) (n : Node)
      → wanted (c ∷ cs) ≡ some n
      → Parents content (c ∷ cs)
      → Parents wanted (c ∷ cs)
  kept-Parents c cs n k h = elim (Bool-cases (is_hidden excludes [] (c ∷ cs))) [
    | inl e ↦ absurd (let gone = rw e at k in cc)
    | inr e ↦ Parents-kept excludes content root (c ∷ cs) e h
  ]

  -- A member that the walk writes is extracted to its path.
  write_made :
      (v : Visit) (m : Member) (t : Tree)
      → IsVisit content v
      → IsReady t
      → Says excludes content v.path (write_member m)
      → (rel : Str) × (dst : TreePath) × (n : Node) × (m.name ≡ codes "files/" ++ rel)
        × (target rel ≡ some dst)
        × (v.path ≡ dst)
        × (wanted dst ≡ some n)
        × Makes wanted t dst n (extract_to dst m t)
  write_made v m t h r (c, cs, e, inl (d, name, k)) =
      let names : All IsName (c ∷ cs) = subst (All IsName) e h.names in
      (
        join (c ∷ cs) ++ codes "/",
        c ∷ cs,
        folder,
        name,
        target-join_slash c cs names,
        e,
        k,
        extract_dir-Makes wanted c cs m t d r.sound r.part
            (kept-Parents c cs folder k (subst (Parents content) e h.parents)) k,
      )
  write_made v m t h r (c, cs, e, inr (d, name, k)) =
      let names : All IsName (c ∷ cs) = subst (All IsName) e h.names in
      (
        join (c ∷ cs),
        c ∷ cs,
        file m.bytes,
        name,
        target-join c cs names,
        e,
        k,
        extract_file-Makes wanted c cs m t d r.sound r.part
            (kept-Parents c cs (file m.bytes) k (subst (Parents content) e h.parents)) k,
      )

  Present-root : (t : Tree) (v : Visit) → IsReady t → v.path ≡ [] → Present t v
  Present-root t v r e n k =
      let whole : wanted [] ≡ some n = ap wanted (sym e) ∙ k in
      ap (λ p. find p t.entries) e ∙ r.top ∙ sym root ∙ whole

  abbrev pub stream_of : List Visit → List Member × Option Str
  stream_of vs = add_content excludes none vs

  -- The members of the rest of the walk, with those of one visit in front.
  fill_visit :
      (v : Visit) (vs : List Visit) (a : Action) (p : Progress Site)
      → visit excludes none v ≡ a
      → IsVisit content v
      → p.cleared ≡ true
      → IsReady p.world.tree
      → (next_visit a (stream_of vs)).1 ≡ none
      → ((q : Progress Site)
          → q.cleared ≡ true
          → IsReady q.world.tree
          → (stream_of vs).1 ≡ none
          → Filled vs q (consume (on_site o) true eof (stream_of vs).0 q))
      → Filled (v ∷ vs) p (consume (on_site o) true eof (next_visit a (stream_of vs)).0 p)
  unfolding next_visit
  fill_visit v vs (stop e) p act h cleared r done rest = absurd (cc (done))
  fill_visit v vs pass p act h cleared r done rest =
      let says : Says excludes content v.path pass =
        subst (Says excludes content v.path) act (visit-Says excludes content v h) in
      let f = rest p cleared r done in
      record {
        done = f.done;
        applied = f.applied;
        db = f.db;
        grows = f.grows;
        present = (
          λ n k. f.grows.keeps v.path n (Present-root p.world.tree v r (says n k) n k),
          f.present,
        );
      }
  fill_visit v vs (write_member m) p act h cleared r done rest =
      let says : Says excludes content v.path (write_member m) =
        subst (Says excludes content v.path) act (visit-Says excludes content v h) in
      let (rel, dst, n, name, to, path, k, made) = write_made v m p.world.tree h r says in
      let q = extracted o p (extract_to dst m p.world.tree).0 in
      let f = rest q cleared (Grows-IsReady made.grows r) done in
      rw
        (consume_next o m (stream_of vs).0 p q
          (consume_extracted o rel dst m p name to cleared made.done))
        (record {
          done = f.done;
          applied = f.applied;
          db = f.db;
          grows = Grows-trans made.grows f.grows;
          present = (
            λ n' k'. f.grows.keeps v.path n' (
                ap (λ p. find p q.world.tree.entries) path
                ∙ made.there
                ∙ sym k
                ∙ ap wanted (sym path)
                ∙ k'),
            f.present,
          );
        })

  pub fill :
      (vs : List Visit) (p : Progress Site)
      → All (IsVisit content) vs
      → p.cleared ≡ true
      → IsReady p.world.tree
      → (stream_of vs).1 ≡ none
      → Filled vs p (consume (on_site o) true eof (stream_of vs).0 p)
  unfolding add_content consume
  fill [] p h cleared r done = record {
    done = refl;
    applied = refl;
    db = refl;
    grows = Grows-refl wanted p.world.tree;
    present = tt;
  }
  fill (v ∷ vs) p h cleared r done =
      fill_visit v vs (visit excludes none v) p refl h.0 cleared r done
        (λ q c r' d. fill vs q h.1 c r' d)
