-- ===== src/Wordpress/Cleared.antt =====
-- When a restore of the WordPress connector clears wp-content (examples/wordpress-client/main.go,
-- clearOnce).
use binfinity_addon_sdk.Prelude.{
  Bool, Bool-cases, List, Option, Str, [], and_both, arith, either_first, either_later, false, inl,
  inr, none, not, refl, some, sym, true, ◌&&◌, ◌||◌, ◌∙◌, ◌∷◌, ◌≡◌,
}
use binfinity_addon_sdk.Wordpress.{
  Effect, Ending, Member, Progress, apply, call, clear_dir, clear_once, consume, consume_member,
  content_member, content_rel, extract_into, extract_member, finish, flush_cache, is_db_dump,
  load_db, logging, mark_applied, mark_file, started, unless_failed,
}
use binfinity_addon_sdk.Wordpress.Applied.{is_content, is_none}

abbrev is_clear : Effect → Bool
is_clear (load_db bytes) = false
is_clear clear_dir = true
is_clear (extract_into rel m) = false
is_clear flush_cache = false

-- clearDir is among the calls.
abbrev pub clears : List Effect → Bool
clears [] = false
clears (e ∷ es) = is_clear e || clears es

abbrev pub any_content : List Member → Bool
any_content [] = false
any_content (m ∷ ms) = is_content m || any_content ms

module _ (fails : Effect → Option Str) where
  clears-mark_applied :
      (p : Progress (List Effect)) (o : Option Str)
      → clears (mark_applied (logging fails) p o).0.world ≡ clears p.world
  unfolding mark_applied
  clears-mark_applied p none = refl
  clears-mark_applied p (some e) = refl

  clears-mark_file :
      (p : Progress (List Effect)) (o : Option Str)
      → clears (mark_file (logging fails) p o).0.world ≡ clears p.world
  unfolding mark_file
  clears-mark_file p none = refl
  clears-mark_file p (some e) = refl

  clears-extract_member :
      (rel : Str) (m : Member) (p : Progress (List Effect)) (o : Option Str)
      → clears (extract_member (logging fails) rel m p o).0.world ≡ clears p.world
  unfolding extract_member
  clears-extract_member rel m p none =
      clears-mark_file (record p { world = extract_into rel m ∷ p.world })
        (fails (extract_into rel m))
  clears-extract_member rel m p (some e) = refl

  clears-content_member :
      (is_base : Bool) (m : Member) (p : Progress (List Effect)) (o : Option Str)
      → clears (content_member (logging fails) is_base m p o).0.world
        ≡ (clears p.world || (is_base && not p.cleared && not (is_none o)))
  unfolding content_member
  clears-content_member is_base m p none = ground arith
  clears-content_member is_base m p (some rel) =
      let (q, e) = clear_once (logging fails) is_base p in
      unfold clear_once in ground (arith, clears-extract_member rel m q e)

  clears-consume_member :
      (is_base : Bool) (m : Member) (p : Progress (List Effect))
      → clears (consume_member (logging fails) is_base m p).0.world ≡ true
      → (clears p.world || (is_base && is_content m)) ≡ true
  unfolding consume_member call
  clears-consume_member is_base m p h =
      let loaded =
        clears-mark_applied (record p { world = load_db m.bytes ∷ p.world })
          (fails (load_db m.bytes)) in
      let content = clears-content_member is_base m p (content_rel m.name) in
      elim (Bool-cases (is_db_dump m.name)) [
        | inl e ↦ let k = rw e at h in rw e (ground (arith, k, loaded))
        | inr e ↦ let k = rw e at h in rw e (ground (arith, k, content))
      ]

  clears-unless_failed :
      (goal : Bool) (p : Progress (List Effect)) (rest : Progress (List Effect) × Option Str)
      (o : Option Str)
      → (clears p.world ≡ true → goal ≡ true)
      → (clears rest.0.world ≡ true → goal ≡ true)
      → clears (unless_failed (logging fails) p rest o).0.world ≡ true
      → goal ≡ true
  unfolding unless_failed
  clears-unless_failed goal p rest none h k = k
  clears-unless_failed goal p rest (some e) h k = h

  clears-consume :
      (is_base : Bool) (ending : Ending) (ms : List Member) (p : Progress (List Effect))
      → clears (consume (logging fails) is_base ending ms p).0.world ≡ true
      → (clears p.world || (is_base && any_content ms)) ≡ true
  unfolding consume
  clears-consume is_base ending [] p h = ground arith
  clears-consume is_base ending (m ∷ ms) p h =
      let (q, e) = consume_member (logging fails) is_base m p in
      let member = clears-consume_member is_base m p in
      let rest = clears-consume is_base ending ms q in
      clears-unless_failed _ q (consume (logging fails) is_base ending ms q) e
        (λ k. either_first (clears p.world) is_base (is_content m) (any_content ms) (member k))
        (λ k.
          either_later (clears q.world) (clears p.world) is_base (is_content m) (any_content ms)
            member (rest k))
        h

  clears-finish :
      (p : Progress (List Effect)) (o : Option Str)
      → clears (finish (logging fails) p o).0.world ≡ clears p.world
  unfolding finish call
  clears-finish p none = ground arith
  clears-finish p (some e) = refl

  -- apply of the WordPress connector calls clearDir only on a base restore whose stream has a
  -- member of the content tree, whatever the stream and whichever calls fail.
  pub apply-clears :
      (is_base : Bool) (ending : Ending) (ms : List Member)
      → clears (apply (logging fails) is_base ending ms []).0.world ≡ true
      → (is_base ≡ true) × (any_content ms ≡ true)
  unfolding apply
  apply-clears is_base ending ms h =
      let (p, e) = consume (logging fails) is_base ending ms (started (logging fails) []) in
      and_both is_base (any_content ms) (
        clears-consume is_base ending ms (started (logging fails) []) (sym (clears-finish p e) ∙ h))
