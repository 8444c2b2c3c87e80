-- ===== src/Outbox/Owned.antt =====
-- Which report owns a report file, and that enqueue and ack keep it so (outbox.go).
use binfinity_addon_sdk.Prelude.{
  Bool-cases, In, Str, arith, false, if◌then◌else◌, inl, inr, is_empty, none, not, some, str_eq,
  str_eq_iff, sym, ◌&&◌, ◌∙◌, ◌≡◌, ◌≢◌,
}
use binfinity_addon_sdk.Wire.{Result}
use binfinity_addon_sdk.Disk.{Disk, lookup, remove_file}
use binfinity_addon_sdk.Outbox.{
  Json, PendingReport, ack_on, enqueue_on, file_name, parse_node, pending_on,
}
use binfinity_addon_sdk.Outbox.View.{HoldsAt, In-pending_on, ReadsOk, lookup-remove}
use binfinity_addon_sdk.Outbox.Durable.{ReadsOk-faults, RoundTrips, enqueue_on_exact}

-- Each report file is the one that enqueue writes for the report in it.
pub record IsOwned (json : Json) (d : Disk) : Type 0 where
  pub at : (n : Str) (p : PendingReport) → HoldsAt json d n p → n ≡ file_name p.cmd_id

pub parse_node-none : (json : Json) (q : PendingReport) → parse_node json none ≢ some q
unfolding parse_node
parse_node-none json q h = cc

pub lookup-ack_on :
    (id j : Str) (d : Disk)
    → lookup j (ack_on id d).entries ≡ (
        if not (d.faults.remove_fails (file_name id)) && str_eq (file_name id) j
        then none
        else lookup j d.entries)
unfolding ack_on remove_file
lookup-ack_on id j d = ground (arith, lookup-remove (file_name id) j d.entries)

pub faults-ack_on : (id : Str) (d : Disk) → (ack_on id d).faults ≡ d.faults
unfolding ack_on remove_file
faults-ack_on id d = ground arith

-- For an id that is not empty and a result that survives its encoding, enqueue keeps every report
-- file named after the id of the report in it.
pub enqueue_on-IsOwned :
    (json : Json) (id : Str) (res : Result) (d : Disk)
    → is_empty id ≡ false
    → RoundTrips json (record { cmd_id = id; result = res })
    → IsOwned json d
    → IsOwned json (enqueue_on json id res d).0
enqueue_on-IsOwned json id res d e h own = record {
  at = λ n q holds.
      let was = sym (enqueue_on_exact json id res d e h n holds.0) ∙ holds.1 in
      elim (Bool-cases ((enqueue_on json id res d).1 && str_eq (file_name id) n)) [
        | inl t ↦ ground (arith, rw t at was, t, str_eq_iff (file_name id) n)
        | inr t ↦ own.at n q (holds.0, rw t at was)
      ];
}

-- So does ack, which removes no file but that of the id.
pub ack_on-IsOwned :
    (json : Json) (id : Str) (d : Disk) → IsOwned json d → IsOwned json (ack_on id d)
ack_on-IsOwned json id d own = record {
  at = λ n q holds.
      elim (Bool-cases (not (d.faults.remove_fails (file_name id)) && str_eq (file_name id) n)) [
        | inl t ↦ absurd (parse_node-none json q (rw (lookup-ack_on id n d, t) at holds.1))
        | inr t ↦ own.at n q (holds.0, rw (lookup-ack_on id n d, t) at holds.1)
      ];
}

-- An id whose removal works names no pending result's file after its ack.
pub ack_on_gone :
    (json : Json) (id : Str) (d : Disk)
    → ReadsOk d
    → IsOwned json d
    → d.faults.remove_fails (file_name id) ≡ false
    → (q : PendingReport) → In q (pending_on json (ack_on id d))
    → file_name q.cmd_id ≢ file_name id
ack_on_gone json id d readable own removes q m same =
    let (n, holds) =
      (In-pending_on json q (ack_on id d) (ReadsOk-faults (faults-ack_on id d) readable)).0 m in
    let owned = (ack_on-IsOwned json id d own).at n q holds in
    let gone : lookup n (ack_on id d).entries ≡ none =
      ground (arith, lookup-ack_on id n d, removes, owned, same, str_eq_iff (file_name id) n) in
    parse_node-none json q (rw gone at holds.1)
