-- ===== src/Outbox/Order.antt =====
-- The order in which pending results are replayed (outbox.go, pending).
use binfinity_addon_sdk.Prelude.{
  All, Bool-cases, In, List, Option, Str, [], arith, false, inl, inr, map, none, refl, some, sym,
  true, ◌∷◌, ◌≡◌,
}
use binfinity_addon_sdk.Outbox.{
  Json, PendingReport, cons_some, file_name, insert_sorted, pending_on, read_all, read_report,
  report_names, sort, str_lt,
}
use binfinity_addon_sdk.Outbox.View.{In-report_names-ext, In-sort, ReadsOk}
use binfinity_addon_sdk.Outbox.Owned.{IsOwned}
use binfinity_addon_sdk.Disk.{Disk}

str_lt_asymm : (s t : Str) → str_lt s t ≡ true → str_lt t s ≡ false
unfolding str_lt
str_lt_asymm [] [] h = cc
str_lt_asymm [] (b ∷ t) h = refl
str_lt_asymm (a ∷ s) [] h = cc
str_lt_asymm (a ∷ s) (b ∷ t) h = ground (arith, str_lt_asymm s t)

str_lt_nil : (t : Str) → str_lt t [] ≡ false
unfolding str_lt
str_lt_nil [] = refl
str_lt_nil (b ∷ t) = refl

not_lt_nil : (t : Str) → str_lt [] t ≡ false → t ≡ []
unfolding str_lt
not_lt_nil [] h = refl
not_lt_nil (b ∷ t) h = cc

not_lt_trans : (s t u : Str) → str_lt t s ≡ false → str_lt u t ≡ false → str_lt u s ≡ false
unfolding str_lt
not_lt_trans [] t u h k = str_lt_nil u
not_lt_trans (a ∷ s) t [] h k = cc (not_lt_nil t k, h)
not_lt_trans (a ∷ s) [] (c ∷ u) h k = cc
not_lt_trans (a ∷ s) (b ∷ t) (c ∷ u) h k = ground (arith, not_lt_trans s t u)

-- Each name stands before none that is smaller.
abbrev pub Ascending : List Str → Type 0
Ascending [] = Unit
Ascending (x ∷ xs) = All (λ y. str_lt y x ≡ false) xs × Ascending xs

All-insert_sorted :
    (P : Str → Type 0) (x : Str) (xs : List Str) → P x → All P xs → All P (insert_sorted x xs)
unfolding insert_sorted
All-insert_sorted P x [] h hs = (h, tt)
All-insert_sorted P x (y ∷ ys) h hs = elim (Bool-cases (str_lt y x)) [
  | inl e ↦ rw e (hs.0, All-insert_sorted P x ys h hs.1)
  | inr e ↦ rw e (h, hs)
]

All-not_lt :
    (x y : Str) (ys : List Str)
    → str_lt y x ≡ false
    → All (λ z. str_lt z y ≡ false) ys
    → All (λ z. str_lt z x ≡ false) ys
All-not_lt x y [] e h = tt
All-not_lt x y (z ∷ ys) e h = (not_lt_trans x y z e h.0, All-not_lt x y ys e h.1)

insert_sorted-Ascending : (x : Str) (xs : List Str) → Ascending xs → Ascending (insert_sorted x xs)
unfolding insert_sorted
insert_sorted-Ascending x [] h = (tt, tt)
insert_sorted-Ascending x (y ∷ ys) h = elim (Bool-cases (str_lt y x)) [
  | inl e ↦
      rw e (All-insert_sorted _ x ys (str_lt_asymm y x e) h.0, insert_sorted-Ascending x ys h.1)
  | inr e ↦ rw e ((e, All-not_lt x y ys e h.0), h)
]

sort-Ascending : (xs : List Str) → Ascending (sort xs)
unfolding sort
sort-Ascending [] = tt
sort-Ascending (x ∷ xs) = insert_sorted-Ascending x (sort xs) (sort-Ascending xs)

abbrev own_file : PendingReport → Str
own_file p = file_name p.cmd_id

module _ (json : Json) (d : Disk) where
  -- Whatever the names read as is owned by them.
  abbrev OwnedNames : List Str → Type 0
  OwnedNames names =
      (n : Str) (p : PendingReport) → In n names → read_report json d n ≡ some p → own_file p ≡ n

  All-cons_some :
      (P : Str → Type 0) (o : Option PendingReport) (ps : List PendingReport)
      → ((p : PendingReport) → o ≡ some p → P (own_file p))
      → All P (map own_file ps)
      → All P (map own_file (cons_some json o ps))
  unfolding cons_some
  All-cons_some P none ps h hs = hs
  All-cons_some P (some p) ps h hs = (h p refl, hs)

  All-read_all :
      (P : Str → Type 0) (names : List Str)
      → OwnedNames names
      → All P names
      → All P (map own_file (read_all json d names))
  unfolding read_all
  All-read_all P [] own h = tt
  All-read_all P (name ∷ names) own h =
      All-cons_some P (read_report json d name) (read_all json d names)
        (λ p e. rw (own name p (inl refl) e) h.0)
        (All-read_all P names (λ n p m. own n p (inr m)) h.1)

  Ascending-cons_some :
      (name : Str) (o : Option PendingReport) (ps : List PendingReport)
      → ((p : PendingReport) → o ≡ some p → own_file p ≡ name)
      → All (λ y. str_lt y name ≡ false) (map own_file ps)
      → Ascending (map own_file ps)
      → Ascending (map own_file (cons_some json o ps))
  unfolding cons_some
  Ascending-cons_some name none ps own h hs = hs
  Ascending-cons_some name (some p) ps own h hs = (rw (own p refl) h, hs)

  Ascending-read_all :
      (names : List Str)
      → OwnedNames names
      → Ascending names
      → Ascending (map own_file (read_all json d names))
  unfolding read_all
  Ascending-read_all [] own h = tt
  Ascending-read_all (name ∷ names) own h =
      let rest : OwnedNames names = λ n p m. own n p (inr m) in
      Ascending-cons_some name (read_report json d name) (read_all json d names)
        (λ p. own name p (inl refl)) (All-read_all _ names rest h.0)
        (Ascending-read_all names rest h.1)

  -- In a directory that reads without errors and whose report files are owned by their reports,
  -- the pending results come in the ascending byte order of their files' names.
  pub pending_on-Ascending :
      ReadsOk d → IsOwned json d → Ascending (map (λ p. file_name p.cmd_id) (pending_on json d))
  unfolding pending_on read_report
  pending_on-Ascending ok own = rw ok.dir (
      Ascending-read_all (sort (report_names d.entries))
        (λ n p m e. sym (
          own.at n p (
            In-report_names-ext n d.entries ((In-sort n (report_names d.entries)).0 m),
            rw (ok.files n) at e,
          )))
        (sort-Ascending (report_names d.entries)))
