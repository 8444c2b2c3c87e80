-- ===== src/Wordpress/Fresh.antt =====
-- The files that an incremental backup has (examples/wordpress-client/main.go, addContent).
use binfinity_addon_sdk.Prelude.{
  All, In, List, Option, Str, [], ap, codes, false, inl, inr, none, refl, some, subst, sym, ℕ, ◌++◌,
  ◌∙◌, ◌∷◌, ◌≡◌,
}
use binfinity_addon_sdk.Outcome.{ok}
use binfinity_addon_sdk.Wordpress.{Member}
use binfinity_addon_sdk.Wordpress.Tree.{TreePath}
use binfinity_addon_sdk.Wordpress.Paths.{join}
use binfinity_addon_sdk.Wordpress.Paths.Plain.{IsName}
use binfinity_addon_sdk.Wordpress.Backup.{
  Action, Visit, add_content, is_hidden, is_old, next_visit, pass, regular, stop, visit,
  visit_action, write_member,
}
use binfinity_addon_sdk.Wordpress.Kept.{Content, IsVisit}
use binfinity_addon_sdk.Wordpress.Overlaid.{later}
use binfinity_addon_sdk.Wordpress.Merged.{member_writes, stream_writes}
use binfinity_addon_sdk.Wordpress.Grown.{path_eq_iff}
use binfinity_addon_sdk.Wordpress.Delta.{file_writes}

later-some : (a : Option Str) (b : Str) → (x : Str) × (later a (some b) ≡ some x)
later-some none b = (b, refl)
later-some (some x) b = (x, refl)

later_first : (a e : Option Str) (x : Str) → a ≡ some x → later a e ≡ some x
later_first none e x h = absurd (cc (h))
later_first (some y) e x h = h

module _ (excludes : List Str) (content : Content) (since : ℕ) where
  -- The visit of a file of the content that changed after `since`.
  pub record IsFresh (v : Visit) (c : Str) (cs : TreePath) (n : ℕ) (b : Str) : Type 0 where
    pub place : v.path ≡ c ∷ cs
    pub info : v.info ≡ regular n (ok b)
    pub shown : is_hidden excludes [] (c ∷ cs) ≡ false
    pub young : is_old (some since) n ≡ false

  abbrev fresh_member : Str → TreePath → Str → Member
  fresh_member c cs bytes = record {
    name = codes "files/" ++ join (c ∷ cs);
    is_dir = false;
    bytes = bytes;
  }

  fresh-visit :
      (v : Visit) (c : Str) (cs : TreePath) (changed : ℕ) (bytes : Str)
      → IsFresh v c cs changed bytes
      → visit excludes (some since) v ≡ write_member (fresh_member c cs bytes)
  unfolding visit visit_action
  fresh-visit v c cs changed bytes f = rw (f.place, f.info, f.shown, f.young) refl

  next-written :
      (a : Action) (ms : List Member × Option Str) (q : TreePath) (x : Str)
      → (next_visit a ms).1 ≡ none
      → stream_writes ms.0 q ≡ some x
      → stream_writes (next_visit a ms).0 q ≡ some x
  unfolding next_visit stream_writes
  next-written (write_member m) ms q x done h =
      later_first (stream_writes ms.0 q) (member_writes m q) x h
  next-written pass ms q x done h = h
  next-written (stop e) ms q x done h = absurd (cc (done))

  next_done :
      (a : Action) (ms : List Member × Option Str) → (next_visit a ms).1 ≡ none → ms.1 ≡ none
  unfolding next_visit
  next_done (write_member m) ms done = done
  next_done pass ms done = done
  next_done (stop e) ms done = absurd (cc (done))

  first-written :
      (m : Member) (ms : List Member × Option Str) (q : TreePath) (b : Str)
      → member_writes m q ≡ some b
      → (x : Str) × (stream_writes (next_visit (write_member m) ms).0 q ≡ some x)
  unfolding next_visit stream_writes
  first-written m ms q b h = rw h (later-some (stream_writes ms.0 q) b)

  pub fresh-written :
      (vs : List Visit) (v : Visit) (c : Str) (cs : TreePath) (changed : ℕ) (bytes : Str)
      → All (IsVisit content) vs
      → In v vs
      → IsFresh v c cs changed bytes
      → (add_content excludes (some since) vs).1 ≡ none
      → (x : Str) × (stream_writes (add_content excludes (some since) vs).0 (c ∷ cs) ≡ some x)
  unfolding add_content
  fresh-written [] v c cs changed bytes h m f done = absurd m
  fresh-written (u ∷ vs) v c cs changed bytes h (inr m) f done =
      let rest = add_content excludes (some since) vs in
      let a = visit excludes (some since) u in
      let (x, w) = fresh-written vs v c cs changed bytes h.1 m f (next_done a rest done) in
      (x, next-written a rest (c ∷ cs) x done w)
  fresh-written (u ∷ vs) v c cs changed bytes h (inl e) f done =
      let m = fresh_member c cs bytes in
      let act = ap (visit excludes (some since)) (sym e) ∙ fresh-visit v c cs changed bytes f in
      let names : All IsName (c ∷ cs) =
        subst (All IsName) (ap (λ (w : Visit). w.path) (sym e) ∙ f.place) h.0.names in
      let one : member_writes m (c ∷ cs) ≡ some bytes =
        file_writes excludes content since m c cs (c ∷ cs) names refl refl
        ∙ rw ((path_eq_iff (c ∷ cs) (c ∷ cs)).1 refl) refl in
      rw act (first-written m (add_content excludes (some since) vs) (c ∷ cs) bytes one)
