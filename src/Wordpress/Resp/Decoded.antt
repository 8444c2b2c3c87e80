-- ===== src/Wordpress/Resp/Decoded.antt =====
-- respCmd against a reader of the protocol (examples/wordpress-client/main.go, respCmd). A server
-- reads an array of bulk strings, each with its length in front.
use binfinity_addon_sdk.Prelude.{
  List, Option, Str, [], and_then, ap, append-nil, append_assoc, arith, cut_prefix, decimal, length,
  none, read_digits, read_digits_print, refl, some, suc, sym, zero, ℕ, ◌++◌, ◌∙◌, ◌∷◌, ◌≡◌,
}
use binfinity_addon_sdk.Wordpress.Resp.{bulk, crlf, resp_args, resp_cmd}

-- the mark, a number and an end of line
unfoldable pub read_header : ℕ → Str → Option (ℕ × Str)
unfolding cut_prefix
read_header mark s =
    and_then (cut_prefix s (mark ∷ []))
      λ t. and_then (cut_prefix (read_digits 0 t).1 crlf) λ u. some ((read_digits 0 t).0, u)

unfoldable pub read_bytes : ℕ → Str → Option (Str × Str)
read_bytes zero s = some ([], s)
read_bytes (suc n) [] = none
read_bytes (suc n) (c ∷ s) = and_then (read_bytes n s) λ r. some (c ∷ r.0, r.1)

unfoldable pub read_bulk : Str → Option (Str × Str)
unfolding read_header read_bytes cut_prefix
read_bulk s =
    and_then (read_header b'$' s)
      λ h. and_then (read_bytes h.0 h.1) λ r. and_then (cut_prefix r.1 crlf) λ u. some (r.0, u)

unfoldable pub read_bulks : ℕ → Str → Option (List Str × Str)
unfolding read_bulk
read_bulks zero s = some ([], s)
read_bulks (suc n) s =
    and_then (read_bulk s) λ r. and_then (read_bulks n r.1) λ q. some (r.0 ∷ q.0, q.1)

unfoldable pub read_array : Str → Option (List Str × Str)
unfolding read_header read_bulks
read_array s = and_then (read_header b'*' s) λ h. read_bulks h.0 h.1

read_digits_line : (n : ℕ) (rest : Str) → read_digits n (crlf ++ rest) ≡ (n, crlf ++ rest)
unfolding read_digits
read_digits_line n rest = refl

cut_prefix_one : (c : ℕ) (s : Str) → cut_prefix (c ∷ s) (c ∷ []) ≡ some s
unfolding cut_prefix
cut_prefix_one c s = ground arith

read_header_print :
    (mark n : ℕ) (rest : Str)
    → read_header mark (mark ∷ (decimal n ++ (crlf ++ rest))) ≡ some (n, rest)
unfolding read_header
read_header_print mark n rest =
    let number = read_digits_print n (crlf ++ rest) (read_digits_line n rest) in
    rw (cut_prefix_one mark (decimal n ++ (crlf ++ rest)), number) refl

read_bytes_print : (a rest : Str) → read_bytes (length a) (a ++ rest) ≡ some (a, rest)
unfolding read_bytes
read_bytes_print [] rest = refl
read_bytes_print (c ∷ a) rest = rw (read_bytes_print a rest) refl

bulk_rest :
    (a rest : Str) → bulk a ++ rest ≡ b'$' ∷ (decimal (length a) ++ (crlf ++ (a ++ (crlf ++ rest))))
bulk_rest a rest =
    ap (λ t. b'$' ∷ t)
      (append_assoc (decimal (length a)) (crlf ++ (a ++ crlf)) rest
        ∙ ap (λ t. decimal (length a) ++ (crlf ++ t)) (append_assoc a crlf rest))

read_bulk_print : (a rest : Str) → read_bulk (bulk a ++ rest) ≡ some (a, rest)
unfolding read_bulk
read_bulk_print a rest =
    ap read_bulk (bulk_rest a rest)
    ∙ rw
        (read_header_print b'$' (length a) (a ++ (crlf ++ rest)), read_bytes_print a (crlf ++ rest))
        refl

abbrev bulks : List Str → Str
bulks [] = []
bulks (a ∷ args) = bulk a ++ bulks args

resp_args-bulks : (b : Str) (args : List Str) → resp_args b args ≡ b ++ bulks args
unfolding resp_args
resp_args-bulks b [] = sym (append-nil b)
resp_args-bulks b (a ∷ args) =
    resp_args-bulks (b ++ bulk a) args ∙ append_assoc b (bulk a) (bulks args)

read_bulks_print :
    (args : List Str) (rest : Str)
    → read_bulks (length args) (bulks args ++ rest) ≡ some (args, rest)
unfolding read_bulks
read_bulks_print [] rest = refl
read_bulks_print (a ∷ args) rest =
    ap (read_bulks (suc (length args))) (append_assoc (bulk a) (bulks args) rest)
    ∙ rw (read_bulk_print a (bulks args ++ rest), read_bulks_print args rest) refl

-- A reader of arrays of bulk strings, each with its length in front, reads the arguments back from
-- what respCmd writes, whatever bytes they hold, and leaves what follows.
pub read_array-resp_cmd :
    (args : List Str) (rest : Str) → read_array (resp_cmd args ++ rest) ≡ some (args, rest)
unfolding read_array resp_cmd
read_array-resp_cmd args rest =
    let head = b'*' ∷ (decimal (length args) ++ crlf) in
    ap read_array (
      ap (λ t. t ++ rest) (resp_args-bulks head args)
      ∙ append_assoc head (bulks args) rest
      ∙ ap (λ t. b'*' ∷ t) (append_assoc (decimal (length args)) crlf (bulks args ++ rest)))
    ∙ rw (read_header_print b'*' (length args) (bulks args ++ rest)) (read_bulks_print args rest)
