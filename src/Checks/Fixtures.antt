-- ===== src/Checks/Fixtures.antt =====
-- Concrete instances of what the program takes from outside, and servers that use them.
use distributed_storage_with.Base.{
  ℕ, ◌+◌, ◌*◌, ◌%◌, ◌≡◌, subst, refl, true, false, List, [], ◌∷◌, Option, none, some, arith, Text,
  codes, text_Eq, Dict, lookup, insert, KeysOnce, lookup-insert, insert-KeysOnce, HashOrder,
}
use mathlib.Core.Option.{some-injective}
use distributed_storage_with.Ring.Metadata.{EcsNode}
use distributed_storage_with.Storage.{JsonSimple, Storage}
use distributed_storage_with.Server.{Server, delivering, open_socket}

-- A digest for the checks, which is small and not zero.
abbrev pub digest : Text → ℕ
digest [] = 0
digest (c ∷ s) = (c + 31 * digest s) % 997 + 1

abbrev pub plain_order : HashOrder
plain_order = record { order = λ m. m; visits = λ m x h. h; only = λ m x h. h }

pub data Doc : Type 0 where
  blank_doc : Doc
  braces_doc : Doc
  printed : Dict Text Text → Doc

abbrev pub normal : Dict Text Text → Dict Text Text
normal [] = []
normal ((k, v) ∷ m) = insert k v (normal m)

pub lookup-normal : (m : Dict Text Text) (key : Text) → lookup key (normal m) ≡ lookup key m
unfolding lookup
lookup-normal [] key = refl
lookup-normal ((k, v) ∷ m) key =
    ground (arith, lookup-insert k key v (normal m), lookup-normal m key)

normal-KeysOnce : (m : Dict Text Text) → KeysOnce (normal m)
normal-KeysOnce [] = tt
normal-KeysOnce ((k, v) ∷ m) = insert-KeysOnce k v (normal m) (normal-KeysOnce m)

abbrev pub parse_doc : Doc → Option (Dict Text Text)
parse_doc blank_doc = none
parse_doc braces_doc = some []
parse_doc (printed m) = some (normal m)

pub parse_doc-KeysOnce : (d : Doc) (m : Dict Text Text) → parse_doc d ≡ some m → KeysOnce m
parse_doc-KeysOnce blank_doc m h = absurd cc
parse_doc-KeysOnce braces_doc m h = subst KeysOnce (some-injective _ _ h) tt
parse_doc-KeysOnce (printed o) m h = subst KeysOnce (some-injective _ _ h) (normal-KeysOnce o)

abbrev pub plain_json : JsonSimple
plain_json = record {
  Document = Doc;
  blank = blank_doc;
  braces = braces_doc;
  to_json_string = printed;
  parse = parse_doc;
  parse-blank = refl;
  parse-braces = refl;
  parse-to_json_string = λ m. (normal m, refl, lookup-normal m);
  parse-KeysOnce = parse_doc-KeysOnce;
}

abbrev pub empty_storage : Storage plain_json
empty_storage = record { file = none; plan = [] }

-- A storage with two pairs.
abbrev pub two_pairs : Storage plain_json
two_pairs = record {
  file = some (printed ((codes "a", codes "1") ∷ (codes "b", codes "2") ∷ []));
  plan = [];
}

abbrev pub host : Text
host = codes "127.0.0.1"

abbrev pub node_1 : EcsNode
node_1 = record { name = codes "server1"; host = host; port = 50000 }

abbrev pub node_2 : EcsNode
node_2 = record { name = codes "server2"; host = host; port = 50001 }

abbrev pub node_3 : EcsNode
node_3 = record { name = codes "server3"; host = host; port = 50002 }

abbrev pub three_nodes : List EcsNode
three_nodes = node_1 ∷ node_2 ∷ node_3 ∷ []

-- The server of a ring of its own: it is responsible for every key.
abbrev pub alone : Storage plain_json → Server plain_json
alone storage = record {
  hostname = host;
  port = 50000;
  storage = storage;
  stopped = false;
  write_lock = false;
  running = true;
  metadata = some ((codes "127.0.0.1:50000", codes "3e9:3e8") ∷ []);
  data_to_flush = [];
  broker = delivering;
  published = [];
  server_socket = open_socket;
}
