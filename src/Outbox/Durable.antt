-- ===== src/Outbox/Durable.antt =====
-- A result on disk stays there until it is acked (outbox.go, enqueue and ack).
use binfinity_addon_sdk.Prelude.{
  In, Option, Str, ap, arith, codes, false, if◌then◌else◌, is_empty, none, refl, some, str_eq,
  str_eq_iff, str_eq_refl, true, ◌&&◌, ◌≡◌, ◌≢◌,
}
use binfinity_addon_sdk.Wire.{Result}
use binfinity_addon_sdk.Disk.{Disk, file, insert, lookup, remove, rename, write_file}
use binfinity_addon_sdk.Outbox.{
  Json, PendingReport, accept, enqueue_on, ext, file_name, parse_node, pending_on, tmp_name,
}
use binfinity_addon_sdk.Outbox.Names.{ext-file_name, ext-tmp_name}
use binfinity_addon_sdk.Outbox.View.{In-pending_on, ReadsOk, lookup-insert, lookup-remove}

str_eq_ne : (s t : Str) → s ≢ t → str_eq s t ≡ false
str_eq_ne s t h = ground (arith, str_eq_iff s t)

tmp_name-ne : (id j : Str) → ext j ≡ codes ".json" → str_eq (tmp_name id) j ≡ false
tmp_name-ne id j e = str_eq_ne _ _ λ p. cc (e, ext-tmp_name id, ap ext p)

-- The file that a rename finds is the one just written.
lookup-enqueue_on :
    (json : Json) (id : Str) (res : Result) (d : Disk) (j : Str)
    → ext j ≡ codes ".json"
    → lookup j (enqueue_on json id res d).0.entries ≡ (
        if (enqueue_on json id res d).1 && str_eq (file_name id) j
        then some (file (json.encode (record { cmd_id = id; result = res })))
        else lookup j d.entries)
unfolding enqueue_on write_file rename
lookup-enqueue_on json id res d j e =
    let t = tmp_name id in
    let v = file (json.encode (record { cmd_id = id; result = res })) in
    ground (
      arith,
      tmp_name-ne id j e,
      str_eq_refl t,
      lookup-insert t t v d.entries,
      lookup-insert t j v d.entries,
      lookup-remove t j (insert t v d.entries),
      lookup-insert (file_name id) j v (remove t (insert t v d.entries)),
    )

lookup-write_file :
    (k j text : Str) (d : Disk)
    → str_eq k j ≡ false
    → lookup j (write_file k text d).0.entries ≡ lookup j d.entries
unfolding write_file lookup
lookup-write_file k j text d e = ground (arith, lookup-remove k j d.entries)

-- What reading the file of this name gives.
abbrev pub report_at : Json → Disk → Str → Option PendingReport
report_at json d n = parse_node json (lookup n d.entries)

-- json.Unmarshal reads back what json.Marshal wrote.
abbrev pub RoundTrips : Json → PendingReport → Type 0
RoundTrips json p = json.decode (json.encode p) ≡ some p

pub ReadsOk-faults : {d d' : Disk} → d'.faults ≡ d.faults → ReadsOk d → ReadsOk d'
ReadsOk-faults e ok = record { dir = rw e ok.dir; files = λ n. rw e (ok.files n) }

module _ (json : Json) (id : Str) (res : Result) (d : Disk) where
  abbrev written : PendingReport
  written = record { cmd_id = id; result = res }

  parse_node-written :
      is_empty id ≡ false
      → RoundTrips json written
      → parse_node json (some (file (json.encode written))) ≡ some written
  unfolding parse_node
  parse_node-written e h = rw h (rw (e, accept))

  -- For an id that is not empty and a result that survives its encoding, enqueue changes no report
  -- file but the result's own, and that one only if enqueue returns no error; it then holds the
  -- result.
  pub enqueue_on_exact :
      is_empty id ≡ false
      → RoundTrips json (record { cmd_id = id; result = res })
      → (n : Str) → ext n ≡ codes ".json"
      → report_at json (enqueue_on json id res d).0 n ≡ (
          if (enqueue_on json id res d).1 && str_eq (file_name id) n
          then some (record { cmd_id = id; result = res })
          else report_at json d n)
  enqueue_on_exact e h n x =
      rw (lookup-enqueue_on json id res d n x) (ground (arith, parse_node-written e h))

  -- enqueue returns no error if neither the write nor the rename fails.
  pub enqueue_on_done :
      d.faults.write_fails (tmp_name id) ≡ none
      → d.faults.rename_fails (file_name id) ≡ false
      → (enqueue_on json id res d).1 ≡ true
  unfolding enqueue_on write_file rename
  enqueue_on_done w r = ground (
    arith,
    str_eq_refl (tmp_name id),
    lookup-insert (tmp_name id) (tmp_name id) (file (json.encode written)) d.entries,
  )

  pub enqueue_on-faults : (enqueue_on json id res d).0.faults ≡ d.faults
  unfolding enqueue_on write_file rename
  enqueue_on-faults = ground arith

  -- For an id that is not empty, a result that survives its encoding, and a directory that reads
  -- without errors, a result for which enqueue returned no error is pending afterwards.
  pub enqueue_on-pending_on :
      is_empty id ≡ false
      → RoundTrips json (record { cmd_id = id; result = res })
      → ReadsOk d
      → (enqueue_on json id res d).1 ≡ true
      → In (record { cmd_id = id; result = res }) (pending_on json (enqueue_on json id res d).0)
  enqueue_on-pending_on e h ok done =
      (In-pending_on json written (enqueue_on json id res d).0
          (ReadsOk-faults enqueue_on-faults ok)).1
        (
          file_name id,
          (
            ext-file_name id,
            rw (enqueue_on_exact e h (file_name id) (ext-file_name id))
                (rw (done, str_eq_refl) refl),
          ),
        )
