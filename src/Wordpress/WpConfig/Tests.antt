-- ===== src/Wordpress/WpConfig/Tests.antt =====
-- A wp-config.php with two constants, and one that is defined twice.
use binfinity_addon_sdk.Prelude.{List, Str, [], codes, contains_byte, refl, some, str_eq, ◌∷◌, ◌≡◌}
use binfinity_addon_sdk.Wordpress.WpConfig.{parse_wp_config}
use binfinity_addon_sdk.Wordpress.WpConfig.Printed.{
  Define, IsDefine, IsPlain, Key, db_name, db_user,
}
use binfinity_addon_sdk.Wordpress.WpConfig.Found.{file_text, parse_wp_config_print}

-- <?php define( 'DB_NAME', 'wp' ); then the same with DB_USER, twice
abbrev calls : Key → Str → Define
calls k v = record {
  before = codes "\n<?php ";
  open_blanks = codes " ";
  key = k;
  before_comma = [];
  after_blanks = codes "\t ";
  value = v;
  key_open = 39;
  key_close = 34;
  value_open = 39;
  value_close = 39;
}

calls-IsDefine : (k : Key) (v : Str) → IsPlain v → IsDefine (calls k v)
unfolding contains_byte
calls-IsDefine k v h = record {
  plain_before = refl;
  blank_open = (refl, tt);
  blank_before = tt;
  blank_after = (refl, (refl, tt));
  plain_value = h;
  quotes = (refl, refl, refl, refl);
}

upper_and_lower :
    parse_wp_config
      (some (codes "<?php Define('db_name','a');DEFINE( \"DB_USER\" , 'b'"))
      (codes "DB_NAME")
    ≡ codes "a"
unfolding parse_wp_config
upper_and_lower = refl

open_call :
    parse_wp_config (some (codes "define(define('DB_HOST', \"h\");")) (codes "DB_HOST") ≡ codes "h"
unfolding parse_wp_config
open_call = refl

inner_quote :
    parse_wp_config (some (codes "define('DB_PASSWORD', 'a\"b\"');")) (codes "DB_PASSWORD")
    ≡ codes "a"
unfolding parse_wp_config
inner_quote = refl

abbrev three : List Define
three = calls db_user (codes "a") ∷ calls db_user (codes "wp") ∷ calls db_name (codes "site") ∷ []

parse_wp_config_print_example :
    parse_wp_config (some (file_text three (codes ");"))) (codes "DB_USER") ≡ codes "wp"
unfolding contains_byte str_eq
parse_wp_config_print_example =
    parse_wp_config_print (calls db_user (codes "a") ∷ []) (calls db_user (codes "wp"))
      (calls db_name (codes "site") ∷ []) (codes ");")
      (
        calls-IsDefine db_user (codes "a") (refl, tt),
        (
          calls-IsDefine db_user (codes "wp") (refl, (refl, tt)),
          (calls-IsDefine db_name (codes "site") (refl, (refl, (refl, (refl, tt)))), tt),
        ),
      )
      refl (refl, tt)
