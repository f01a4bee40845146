-- ===== src/Tests/Mains.antt =====
-- Instances for the programs, and for SanityCheck.
use xayax.Prelude.{◌≡◌, Bool, refl, pos, true, false, String, List, [], ◌∷◌}
use xayax.Prelude.Texts.{is_empty, str_discrete}
use xayax.Prelude.Action.{Action, done}
use xayax.Main.{Flags, EthFlags, Files}
use xayax.Main.Watching.{add_watched_contracts}
use xayax.Main.Splitting.{split, add_each, add_watched_contracts-split}

abbrev flags : Flags
flags = record {
  datadir = "/data";
  port = pos 8000;
  listen_locally = true;
  zmq_address = "tcp://127.0.0.1:28555";
  max_reorg_depth = pos 1000;
  sanity_checks = true;
}

abbrev eth_flags : EthFlags
eth_flags = record {
  eth_rpc_url = "http://localhost:8545";
  eth_ws_url = "";
  accounts_contract = "0x8C12253F71091b9582908C8a44F78870Ec6F304F";
  watch_for_pending_moves = "0x01,0x02";
  blockcache_memory = false;
  blockcache_mysql = "mysql://localhost/db/blocks";
  common = flags;
}

-- The data directory is not there yet and can be created.
abbrev files : Files (Unit {0})
files = record {
  is_directory = λ datadir chain w. done false w;
  create_directories = λ datadir chain w. done true w;
}

abbrev construct : String → String → String → Action (Unit {0}) (Unit {0})
construct url ws acc w = done tt w

abbrev connect : String → Action (Unit {0}) Bool
connect url w = done true w

abbrev watch : String → Action (Unit {0}) (Unit {0})
watch addr w = done tt w

-- Records the addresses, the last first.
abbrev note : String → Action (List String) (Unit {0})
note addr seen = done tt (addr ∷ seen)

two_addresses : split b',' "0x01,0x02" ≡ "0x01" ∷ "0x02" ∷ []
unfolding split
two_addresses = refl

not_empty : is_empty "0x01,0x02" ≡ false
unfolding str_discrete
not_empty = refl

add_watched_contracts-split_example :
    add_watched_contracts note "0x01,0x02" [] ≡ add_each note (split b',' "0x01,0x02") []
add_watched_contracts-split_example = add_watched_contracts-split note "0x01,0x02" [] not_empty
