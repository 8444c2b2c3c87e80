-- ===== src/Outbox/View.antt =====
-- What `pending` finds in a directory (outbox.go, pending), as a relation between an entry's name
-- and the report that it holds.
use binfinity_addon_sdk.Prelude.{
  Bool-cases, In, List, Option, Str, [], arith, codes, false, if◌then◌else◌, inl, inr, is_empty,
  none, refl, some, str_eq, str_eq_iff, ◌↔◌, ◌∷◌, ◌≡◌, ◌⊎◌,
}
use binfinity_addon_sdk.Disk.{Disk, Node, file, folder, insert, lookup, remove}
use binfinity_addon_sdk.Outbox.{
  Json, PendingReport, accept, cons_some, ext, insert_sorted, is_report, parse_node, pending_on,
  read_all, read_report, report_names, sort,
}

pub lookup-remove :
    (k j : Str) (m : List (Str × Node))
    → lookup j (remove k m) ≡ (if str_eq k j then none else lookup j m)
unfolding lookup remove
lookup-remove k j [] = ground arith
lookup-remove k j ((i, v) ∷ m) =
    ground (arith, lookup-remove k j m, str_eq_iff i k, str_eq_iff i j, str_eq_iff k j)

pub lookup-insert :
    (k j : Str) (v : Node) (m : List (Str × Node))
    → lookup j (insert k v m) ≡ (if str_eq k j then some v else lookup j m)
unfolding insert lookup
lookup-insert k j v m = ground (arith, lookup-remove k j m)

In-insert_sorted : (x y : Str) (ys : List Str) → In x (insert_sorted y ys) ↔ ((x ≡ y) ⊎ In x ys)
unfolding insert_sorted
In-insert_sorted x y [] = (λ h. h, λ h. h)
In-insert_sorted x y (z ∷ ys) = (
  λ h. ground (arith, (In-insert_sorted x y ys).0),
  λ h. ground (arith, (In-insert_sorted x y ys).1),
)

pub In-sort : (x : Str) (xs : List Str) → In x (sort xs) ↔ In x xs
unfolding sort
In-sort x [] = (λ h. h, λ h. h)
In-sort x (y ∷ ys) = (
  λ h. ground (arith, (In-insert_sorted x y (sort ys)).0 h, (In-sort x ys).0),
  λ h. (In-insert_sorted x y (sort ys)).1 (ground (arith, (In-sort x ys).1)),
)

-- The names that are read are those of files, with the extension of a report.
pub In-report_names-ext :
    (x : Str) (m : List (Str × Node)) → In x (report_names m) → ext x ≡ codes ".json"
unfolding report_names is_report
In-report_names-ext x [] h = absurd h
In-report_names-ext x ((name, folder) ∷ m) h = In-report_names-ext x m h
In-report_names-ext x ((name, file text) ∷ m) h =
    ground (arith, str_eq_iff (ext name) (codes ".json"), In-report_names-ext x m)

In-report_names :
    (x : Str) (m : List (Str × Node)) (text : Str)
    → ext x ≡ codes ".json"
    → lookup x m ≡ some (file text)
    → In x (report_names m)
unfolding report_names is_report lookup
In-report_names x [] text e h = cc
In-report_names x ((name, folder) ∷ m) text e h = ground (arith, In-report_names x m text e)
In-report_names x ((name, file t) ∷ m) text e h =
    ground
      (arith, str_eq_iff name x, str_eq_iff (ext name) (codes ".json"), In-report_names x m text e)

-- The entry of this name is a report file, and reads as the report.
abbrev pub HoldsAt : Json → Disk → Str → PendingReport → Type 0
HoldsAt json d name p =
    (ext name ≡ codes ".json") × (parse_node json (lookup name d.entries) ≡ some p)

-- Neither the directory nor a file fails to read.
pub record ReadsOk (d : Disk) : Type 0 where
  pub dir : d.faults.read_dir_fails ≡ false
  pub files : (name : Str) → d.faults.read_fails name ≡ false

module _ (json : Json) (p : PendingReport) where
  In-cons_some :
      (o : Option PendingReport) (ps : List PendingReport)
      → In p (cons_some json o ps) ↔ ((o ≡ some p) ⊎ In p ps)
  unfolding cons_some
  In-cons_some none ps = (λ h. inr h, λ h. ground arith)
  In-cons_some (some q) ps = (λ h. ground arith, λ h. ground arith)

  -- Some name of the list reads as the report.
  abbrev ReadFrom : Disk → List Str → Type 0
  ReadFrom d names = (n : Str) × In n names × (read_report json d n ≡ some p)

  ReadFrom-tail :
      (d : Disk) (name : Str) (names : List Str) → ReadFrom d names → ReadFrom d (name ∷ names)
  ReadFrom-tail d name names (n, m, e) = (n, inr m, e)

  In-read_all : (d : Disk) (names : List Str) → In p (read_all json d names) ↔ ReadFrom d names
  unfolding read_all
  In-read_all d [] = (λ h. absurd h, λ h. absurd h.1)
  In-read_all d (name ∷ names) = (
    λ h. elim ((In-cons_some (read_report json d name) (read_all json d names)).0 h) [
      | inl e ↦ (name, inl refl, e)
      | inr m ↦ ReadFrom-tail d name names ((In-read_all d names).0 m)
    ],
    λ h. (In-cons_some (read_report json d name) (read_all json d names)).1 (elim (h.1) [
      | inl e ↦ inl (rw (← e) h.2)
      | inr m ↦ inr ((In-read_all d names).1 (h.0, m, h.2))
    ]),
  )

  parse_node-file :
      (o : Option Node) → parse_node json o ≡ some p → (text : Str) × (o ≡ some (file text))
  unfolding parse_node
  parse_node-file none h = cc
  parse_node-file (some folder) h = cc
  parse_node-file (some (file text)) h = (text, refl)

  accept_iff :
      (o : Option PendingReport)
      → (accept json o ≡ some p) ↔ ((o ≡ some p) × (is_empty p.cmd_id ≡ false))
  unfolding accept
  accept_iff none = (λ h. cc, λ h. cc)
  accept_iff (some q) = elim (Bool-cases (is_empty q.cmd_id)) [
    | inl e ↦ rw e ((λ h. cc), λ h. absurd (let k : q ≡ p = cc in let m = rw (← k) at h.1 in cc))
    | inr e ↦ rw e ((λ h. let k : q ≡ p = cc in (h, rw (← k) e)), λ h. h.0)
  ]

  parse_node_iff :
      (o : Option Node)
      → (parse_node json o ≡ some p) ↔ (
          (text : Str) × (o ≡ some (file text))
          × (json.decode text ≡ some p)
          × (is_empty p.cmd_id ≡ false))
  unfolding parse_node
  parse_node_iff none = (λ h. cc, λ h. cc)
  parse_node_iff (some folder) = (λ h. cc, λ h. absurd (let e = h.1 in cc))
  parse_node_iff (some (file text)) = (
    λ h. let k = (accept_iff (json.decode text)).0 h in (text, refl, k.0, k.1),
    λ h. let same : text ≡ h.0 = cc in (accept_iff (json.decode text)).1 (rw same h.2, h.3),
  )

  pub In-pending_on :
      (d : Disk) → ReadsOk d → In p (pending_on json d) ↔ ((n : Str) × HoldsAt json d n p)
  unfolding pending_on read_report
  In-pending_on d ok = (
    λ h.
        let (n, m, e) = (In-read_all d (sort (report_names d.entries))).0 (rw ok.dir at h) in
        (
          n,
          (
            In-report_names-ext n d.entries ((In-sort n (report_names d.entries)).0 m),
            rw (ok.files n) at e,
          ),
        ),
    λ h.
        let (text, e) = parse_node-file (lookup h.0 d.entries) h.1.1 in
        rw ok.dir (
          (In-read_all d (sort (report_names d.entries))).1 (
            h.0,
            (In-sort h.0 (report_names d.entries)).1 (In-report_names h.0 d.entries text h.1.0 e),
            rw (ok.files h.0) h.1.1,
          )),
  )

  -- The file of this name decodes to the report.
  abbrev pub IsSavedAs : Disk → Str → Str → Type 0
  IsSavedAs d n text =
      (lookup n d.entries ≡ some (file text))
      × (json.decode text ≡ some p)
      × (is_empty p.cmd_id ≡ false)

  -- In a directory that reads without errors, a report is pending exactly if some entry whose name
  -- ends in ".json" is a file that decodes to it, with an id that is not empty.
  pub In-pending_on_saved :
      (d : Disk)
      → ReadsOk d
      → In p (pending_on json d)
        ↔ ((n : Str) × (text : Str) × (ext n ≡ codes ".json") × IsSavedAs d n text)
  In-pending_on_saved d ok = (
    λ m.
        let (n, h) = (In-pending_on d ok).0 m in
        let k = (parse_node_iff (lookup n d.entries)).0 h.1 in (n, k.0, h.0, (k.1, k.2, k.3)),
    λ h.
        (In-pending_on d ok).1
          (h.0, (h.2, (parse_node_iff (lookup h.0 d.entries)).1 (h.1, h.3.0, h.3.1, h.3.2))),
  )
