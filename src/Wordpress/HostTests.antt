-- ===== src/Wordpress/HostTests.antt =====
-- A machine with a wp-config.php below a noisy directory and one beside it, and its programs.
use binfinity_addon_sdk.Prelude.{
  [], codes, if◌then◌else◌, length, none, refl, some, str_eq, ◌++◌, ◌∷◌, ◌≡◌,
}
use binfinity_addon_sdk.Outcome.{ok}
use binfinity_addon_sdk.Wordpress.Config.{WpConnector, new_connector}
use binfinity_addon_sdk.Wordpress.Backup.{add_content, dump_member}
use binfinity_addon_sdk.Wordpress.Commands.{Host, dump_command, dump_db, write_all}
use binfinity_addon_sdk.Wordpress.Commands.Dumped.{write_all_dumped}
use binfinity_addon_sdk.Wordpress.Locate.Searched.{
  files_below, first, is_eligible, search_wp_config_first,
}
use binfinity_addon_sdk.Wordpress.Locate.{
  Machine, Walked, WalkedList, config_name, connect, entry, find_wp_config, folder, found_text,
  leaf, no_nodes, search_in, search_wp_config,
}
use binfinity_addon_sdk.Wordpress.WpConfig.{parse_wp_config}

abbrev holder : WalkedList
holder = entry config_name leaf no_nodes

abbrev web_root : Walked
web_root =
    folder (entry (codes "cache") (folder holder) (entry (codes "site") (folder holder) no_nodes))

abbrev machine : Machine
machine = record {
  env = record { get = λ k. []; dir = λ p. p; join = λ a b. a ++ (codes "/" ++ b) };
  clean = λ p. p;
  stat = λ p. none;
  read = λ p.
      if str_eq p (codes "/srv/site/wp-config.php")
      then some (codes "define('DB_USER', 'u');")
      else none;
  node = λ p. if str_eq p (codes "/srv") then some web_root else none;
}

srv_found :
    search_wp_config machine (codes "/srv") (codes "srv") 6 ≡ codes "/srv/site/wp-config.php"
unfolding search_in str_eq
srv_found = refl

srv_too_deep : search_wp_config machine (codes "/srv") (codes "srv") 0 ≡ []
unfolding search_in str_eq
srv_too_deep = refl

search_wp_config_first_example :
    search_wp_config machine (codes "/srv") (codes "srv") 6
    ≡ found_text
        (codes "/srv")
        (first (is_eligible 6 0) (files_below (codes "srv") (machine.node (codes "/srv"))))
search_wp_config_first_example = search_wp_config_first machine (codes "/srv") (codes "srv") 6

user_connected : (connect machine).db.user ≡ codes "u"
unfolding find_wp_config new_connector parse_wp_config str_eq
user_connected = refl

-- It has just the tools of MariaDB, whose help does not list the flag.
abbrev host : Host
host = record {
  on_path = λ p. str_eq p (codes "mariadb-dump");
  help = λ p. codes "--quick";
  run = λ i. record { wait = none; out = i.program; err_out = [] };
  created = none;
  told = none;
  rewound = none;
}

mariadb_dumps : dump_db host (connect machine).db ≡ ok (codes "mariadb-dump")
unfolding dump_db str_eq
mariadb_dumps = refl

no_flag : length (dump_command host (connect machine).db).args ≡ 16
unfolding dump_command str_eq
no_flag = refl

abbrev wp : WpConnector
wp = connect machine

wp_written : (write_all host wp none []).1 ≡ none
unfolding write_all
wp_written = refl

write_all_dumped_example :
    ((host.run (dump_command host wp.db)).wait ≡ none)
    × ((write_all host wp none []).0
        ≡ dump_member (host.run (dump_command host wp.db)).out ∷ (add_content wp.exclude none []).0)
write_all_dumped_example = write_all_dumped host wp none [] wp_written
