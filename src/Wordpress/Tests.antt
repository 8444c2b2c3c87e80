-- ===== src/Wordpress/Tests.antt =====
-- Examples of the WordPress restore (examples/wordpress-client/main.go).
use binfinity_addon_sdk.Prelude.{
  All, List, Option, Str, [], ap, codes, contains_byte, false, has_suffix, none, refl, some, str_eq,
  true, ◌&&◌, ◌++◌, ◌∷◌, ◌≡◌,
}
use binfinity_addon_sdk.Wordpress.{
  Effect, Member, apply, clear_dir, eof, extract_into, flush_cache, load_db, logging,
}
use binfinity_addon_sdk.Wordpress.Applied.{all_ok, any_dump, apply_done, is_eof, is_none, planned}
use binfinity_addon_sdk.Wordpress.Cleared.{any_content, apply-clears, clears}
use binfinity_addon_sdk.Wordpress.Paths.{target}
use binfinity_addon_sdk.Wordpress.Paths.Plain.{IsName, target-IsName}
use binfinity_addon_sdk.Wordpress.Resp.{resp_cmd}
use binfinity_addon_sdk.Wordpress.Resp.Decoded.{read_array, read_array-resp_cmd}

abbrev member : Str → Member
member name = record { name = name; is_dir = false; bytes = codes "x" }

-- A theme file, then a dump under the name of an old version.
abbrev stream : List Member
stream = member (codes "wp-content/a.php") ∷ member (codes "db.sql") ∷ []

abbrev works : Effect → Option Str
works e = none

stream_calls :
    (apply (logging works) true eof stream []).0.world
    ≡ flush_cache
      ∷ load_db (codes "x")
      ∷ extract_into (codes "a.php") (member (codes "wp-content/a.php"))
      ∷ clear_dir
      ∷ []
unfolding apply str_eq has_suffix contains_byte
stream_calls = refl

stream-clears : clears (apply (logging works) true eof stream []).0.world ≡ true
stream-clears = ap clears stream_calls

apply_done_example :
    is_none (apply (logging works) true eof stream []).1
    ≡ (is_eof eof && all_ok works (planned true stream) && any_dump stream)
apply_done_example = apply_done works true eof stream

apply-clears_example : (true ≡ true) × (any_content stream ≡ true)
apply-clears_example = apply-clears works true eof stream stream-clears

target_kept : target (codes "a/../b//c") ≡ some (codes "b" ∷ codes "c" ∷ [])
unfolding target str_eq
target_kept = refl

target_up : target (codes "a/../../b") ≡ none
unfolding target str_eq
target_up = refl

target-IsName_example : All IsName (codes "b" ∷ codes "c" ∷ [])
target-IsName_example = target-IsName (codes "a/../b//c") (codes "b" ∷ codes "c" ∷ []) target_kept

read_array-resp_cmd_example :
    read_array (resp_cmd (codes "AUTH" ∷ codes "p1" ∷ []) ++ codes "*")
    ≡ some (codes "AUTH" ∷ codes "p1" ∷ [], codes "*")
read_array-resp_cmd_example = read_array-resp_cmd (codes "AUTH" ∷ codes "p1" ∷ []) (codes "*")
