-- ===== src/Wordpress/Applied.antt =====
-- When a restore of the WordPress connector succeeds, and what it calls
-- (examples/wordpress-client/main.go, consume and apply).
use binfinity_addon_sdk.Prelude.{
  Bool, Bool-cases, List, Option, Str, [], and_both, and_swap, and_true, and_under, ap, arith,
  false, if◌then◌else◌, inl, inr, none, not, not-not_last, or_assoc, or_false, or_true, refl, some,
  sym, true, ◌&&◌, ◌++◌, ◌||◌, ◌∙◌, ◌∷◌, ◌≡◌,
}
use binfinity_addon_sdk.Wordpress.{
  Effect, Ending, Member, Progress, apply, call, clear_dir, clear_once, consume, consume_member,
  content_member, content_rel, eof, extract_into, extract_member, finish, is_db_dump, load_db,
  logging, mark_applied, mark_file, started, torn, unless_failed,
}

abbrev pub is_none {ℓ} : {A : Type ℓ} → Option A → Bool
is_none none = true
is_none (some a) = false

abbrev pub is_eof : Ending → Bool
is_eof eof = true
is_eof (torn e) = false

abbrev content_calls : Bool → Member → Option Str → List Effect
content_calls clears m none = []
content_calls clears m (some rel) =
    if clears then clear_dir ∷ extract_into rel m ∷ [] else extract_into rel m ∷ []

-- The member belongs to the content tree.
abbrev pub is_content : Member → Bool
is_content m = not (is_db_dump m.name) && not (is_none (content_rel m.name))

-- The calls that a member asks for; `clears` says that content is still to be cleared.
abbrev member_calls : Bool → Member → List Effect
member_calls clears m =
    if is_db_dump m.name then load_db m.bytes ∷ [] else content_calls clears m (content_rel m.name)

-- The calls that a whole stream asks for: the first content member also clears.
abbrev pub planned : Bool → List Member → List Effect
planned clears [] = []
planned clears (m ∷ ms) = member_calls clears m ++ planned (clears && not (is_content m)) ms

abbrev pub any_dump : List Member → Bool
any_dump [] = false
any_dump (m ∷ ms) = is_db_dump m.name || any_dump ms

module _ (fails : Effect → Option Str) where
  abbrev pub all_ok : List Effect → Bool
  all_ok [] = true
  all_ok (e ∷ es) = is_none (fails e) && all_ok es

  all_ok-append : (es fs : List Effect) → all_ok (es ++ fs) ≡ (all_ok es && all_ok fs)
  all_ok-append [] fs = refl
  all_ok-append (e ∷ es) fs = ground (arith, all_ok-append es fs)

  mark_applied_ok :
      (p : Progress (List Effect)) (o : Option Str)
      → (is_none (mark_applied (logging fails) p o).1 ≡ is_none o)
        × ((mark_applied (logging fails) p o).0.cleared ≡ p.cleared)
        × (is_none o ≡ true → (mark_applied (logging fails) p o).0.db_applied ≡ true)
  unfolding mark_applied
  mark_applied_ok p none = (refl, refl, λ h. refl)
  mark_applied_ok p (some e) = (refl, refl, λ h. cc)

  mark_file_ok :
      (p : Progress (List Effect)) (o : Option Str)
      → (is_none (mark_file (logging fails) p o).1 ≡ is_none o)
        × ((mark_file (logging fails) p o).0.cleared ≡ p.cleared)
        × ((mark_file (logging fails) p o).0.db_applied ≡ p.db_applied)
  unfolding mark_file
  mark_file_ok p none = (refl, refl, refl)
  mark_file_ok p (some e) = (refl, refl, refl)

  extract_member_ok :
      (rel : Str) (m : Member) (p : Progress (List Effect)) (o : Option Str)
      → (is_none (extract_member (logging fails) rel m p o).1
          ≡ (is_none o && is_none (fails (extract_into rel m))))
        × ((extract_member (logging fails) rel m p o).0.cleared ≡ p.cleared)
        × ((extract_member (logging fails) rel m p o).0.db_applied ≡ p.db_applied)
  unfolding extract_member
  extract_member_ok rel m p none =
      mark_file_ok (record p { world = extract_into rel m ∷ p.world }) (fails (extract_into rel m))
  extract_member_ok rel m p (some e) = (refl, refl, refl)

  content_member_ok :
      (is_base : Bool) (m : Member) (p : Progress (List Effect)) (o : Option Str)
      → (is_none (content_member (logging fails) is_base m p o).1
          ≡ all_ok (content_calls (is_base && not p.cleared) m o))
        × ((is_base && not (content_member (logging fails) is_base m p o).0.cleared)
            ≡ (is_base && not p.cleared && is_none o))
        × ((content_member (logging fails) is_base m p o).0.db_applied ≡ p.db_applied)
  unfolding content_member
  content_member_ok is_base m p none = (refl, ground arith, refl)
  content_member_ok is_base m p (some rel) =
      let (q, e) = clear_once (logging fails) is_base p in
      let after = extract_member_ok rel m q e in
      (
        unfold clear_once in ground (arith, after.0),
        unfold clear_once in ground (arith, after.1),
        unfold clear_once in ground (arith, after.2),
      )

  consume_member_ok :
      (is_base : Bool) (m : Member) (p : Progress (List Effect))
      → (is_none (consume_member (logging fails) is_base m p).1
          ≡ all_ok (member_calls (is_base && not p.cleared) m))
        × ((is_base && not (consume_member (logging fails) is_base m p).0.cleared)
            ≡ (is_base && not p.cleared && not (is_content m)))
        × (is_none (consume_member (logging fails) is_base m p).1 ≡ true
            → (consume_member (logging fails) is_base m p).0.db_applied
              ≡ (p.db_applied || is_db_dump m.name))
  unfolding consume_member call
  consume_member_ok is_base m p =
      let loaded =
        mark_applied_ok (record p { world = load_db m.bytes ∷ p.world })
          (fails (load_db m.bytes)) in
      let content = content_member_ok is_base m p (content_rel m.name) in
      elim (Bool-cases (is_db_dump m.name)) [
        | inl e ↦ rw e (
          loaded.0 ∙ and_true _,
          ap (λ c. is_base && not c) loaded.1 ∙ and_true _,
          λ h. loaded.2 (sym loaded.0 ∙ h) ∙ or_true p.db_applied,
        )
        | inr e ↦ rw e (
          content.0,
          content.1 ∙ not-not_last is_base (not p.cleared) (is_none (content_rel m.name)),
          λ h. content.2 ∙ or_false p.db_applied,
        )
      ]

  unless_failed_ok :
      (p : Progress (List Effect)) (rest : Progress (List Effect) × Option Str) (o : Option Str)
      → (is_none (unless_failed (logging fails) p rest o).1 ≡ (is_none o && is_none rest.1))
        × (is_none (unless_failed (logging fails) p rest o).1 ≡ true
            → unless_failed (logging fails) p rest o ≡ rest)
  unfolding unless_failed
  unless_failed_ok p rest none = (refl, λ h. refl)
  unless_failed_ok p rest (some e) = (refl, λ h. cc)

  consume_ok :
      (is_base : Bool) (ending : Ending) (ms : List Member) (p : Progress (List Effect))
      → (is_none (consume (logging fails) is_base ending ms p).1
          ≡ (is_eof ending && all_ok (planned (is_base && not p.cleared) ms)))
        × (is_none (consume (logging fails) is_base ending ms p).1 ≡ true
            → (consume (logging fails) is_base ending ms p).0.db_applied
              ≡ (p.db_applied || any_dump ms))
  unfolding consume
  consume_ok is_base eof [] p = (refl, λ h. ground arith)
  consume_ok is_base (torn e) [] p = (refl, λ h. cc)
  consume_ok is_base ending (m ∷ ms) p =
      let (q, e) = consume_member (logging fails) is_base m p in
      let member = consume_member_ok is_base m p in
      let rest = consume_ok is_base ending ms q in
      let next = unless_failed_ok q (consume (logging fails) is_base ending ms q) e in
      let plan =
        all_ok-append (member_calls (is_base && not p.cleared) m)
          (planned (is_base && not p.cleared && not (is_content m)) ms) in
      (
        next.0
            ∙ (λ i. member.0 i && rest.0 i)
            ∙ and_swap _ (is_eof ending) _
            ∙ ap
                (λ b.
                  is_eof ending
                  && (all_ok (member_calls (is_base && not p.cleared) m) && all_ok (planned b ms)))
                member.1
            ∙ ap (λ b. is_eof ending && b) (sym plan),
        λ h.
            let both = and_both (is_none e) _ (sym next.0 ∙ h) in
            ap (λ (s : Progress (List Effect) × Option Str). s.0.db_applied) (next.1 h)
            ∙ rest.1 both.1
            ∙ ap (λ b. b || any_dump ms) (member.2 both.0)
            ∙ or_assoc p.db_applied (is_db_dump m.name) (any_dump ms),
      )

  finish_ok :
      (p : Progress (List Effect)) (o : Option Str)
      → is_none (finish (logging fails) p o).1 ≡ (is_none o && p.db_applied)
  unfolding finish
  finish_ok p none = ground arith
  finish_ok p (some e) = refl

  -- apply of the WordPress connector returns no error exactly if the stream ends without a read
  -- error, none of the calls that its members ask for fails (loading each dump, extracting each
  -- content member, and, on a base restore, clearing wp-content once before the first content
  -- member), and a member is a database dump.
  pub apply_done :
      (is_base : Bool) (ending : Ending) (ms : List Member)
      → is_none (apply (logging fails) is_base ending ms []).1
        ≡ (is_eof ending && all_ok (planned is_base ms) && any_dump ms)
  unfolding apply
  apply_done is_base ending ms =
      let (p, e) = consume (logging fails) is_base ending ms (started (logging fails) []) in
      let ended = consume_ok is_base ending ms (started (logging fails) []) in
      finish_ok p e
      ∙ and_under (is_none e) p.db_applied (any_dump ms) ended.1
      ∙ ap (λ b. b && any_dump ms)
          (ended.0 ∙ ap (λ b. is_eof ending && all_ok (planned b ms)) (sym (and_true is_base)))
