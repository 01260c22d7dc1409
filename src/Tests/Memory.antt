-- ===== src/Tests/Memory.antt =====
-- The outside parts of the program in memory: stem nodes as associations, the tables of MDBX as
-- lists and functions, the key index as its head, and NOMT as the writes it was given.
use ubt_exex.Common.{
  ℕ, Bool, true, false, Option, none, some, List, [], ◌∷◌, ◌++◌, not, ◌&&◌, if◌then◌else◌, list_eq,
  nat_eq, ◌==◌, Result, ok, err, io, just, unwrap_or, done, take, length, zero, suc,
}
use ubt_exex.Common.Bytes.{Bytes, to_be_bytes}
use ubt_exex.Common.Order.{bytes_leb}
use ubt_exex.Common.Assoc.{lookup, insert}
use ubt_exex.Tree.{Stem, B256, Address, TreeKey, tree_key, key_bytes, Delta, Ubt, tree_key_eq}
use ubt_exex.Store.{UbtHead, Contents, Store, put, add_missing, remove_at, keep_from, word}
use ubt_exex.Index.Codec.{pack_head}
use ubt_exex.Index.{Index, Nomt}
use ubt_exex.Exex.{Parts}

abbrev pub Node : Type 0
Node = List (ℕ × B256)

-- A key derivation that only has the right shape: the address and a tag, filled up with zeros.
abbrev pub stem_of : ℕ → Address → Stem
stem_of tag address = take 31 (address ++ tag ∷ 0 ∷ 0 ∷ 0 ∷ 0 ∷ 0 ∷ 0 ∷ 0 ∷ 0 ∷ 0 ∷ 0 ∷ [])

-- The root is a list of all bytes in place of a hash.
abbrev pub flat_root : List (TreeKey × B256) → B256
flat_root [] = []
flat_root ((k, v) ∷ es) = key_bytes k ++ v ++ flat_root es

abbrev pub memory_ubt : Ubt
memory_ubt = record {
  StemNode = Node;
  new = λ _. [];
  get_value = λ n i. lookup i n;
  set_value = λ n i v. insert i v n;
  values = λ n. n;
  get_basic_data_key = λ a. tree_key (stem_of 0 a) 0;
  get_code_hash_key = λ a. tree_key (stem_of 0 a) 1;
  get_code_chunk_key = λ a i. tree_key (stem_of 1 a) i;
  get_storage_slot_key = λ a slot. tree_key (stem_of 2 a) 0;
  basic_data_leaf =
      λ nonce balance size. to_be_bytes 8 nonce ++ to_be_bytes 16 balance ++ to_be_bytes 8 size;
  chunkify_code = λ code. code ∷ [];
  build_root_hash = flat_root;
}

abbrev pub Table : Type 0
Table = List (Stem × Node)

pub record Db : Type 0 where
  pub table : Table
  pub addresses : Stem → Option Address
  pub deltas : ℕ → Option (List Delta)
  pub head : Option UbtHead

abbrev pub contents_of : Db → Contents memory_ubt
contents_of d = record {
  stems = λ s. lookup s d.table;
  addresses = d.addresses;
  deltas = d.deltas;
  head = d.head;
}

-- The last write of a stem is the first in the table.
unfoldable pub push_all : List (Stem × Node) → Table → Table
push_all [] t = t
push_all ((s, n) ∷ r) t = push_all r ((s, n) ∷ t)

-- The entries of a stem, and those of other stems.
unfoldable pub node_entries : Stem → Node → List (TreeKey × B256)
node_entries s [] = []
node_entries s ((i, v) ∷ n) = (tree_key s i, v) ∷ node_entries s n

-- A key of another length than 31 is no stem.
unfoldable pub sized_entries : Stem → Node → List (TreeKey × B256)
sized_entries s n = if length s == 31 then node_entries s n else []

unfoldable pub without_stem : Stem → List (TreeKey × B256) → List (TreeKey × B256)
without_stem s [] = []
without_stem s ((k, v) ∷ es) = if s == k.stem then without_stem s es else (k, v) ∷ without_stem s es

unfoldable pub all_entries : Table → List (TreeKey × B256)
all_entries [] = []
all_entries ((s, n) ∷ t) = sized_entries s n ++ without_stem s (all_entries t)

unfoldable pub all_before : TreeKey → List (TreeKey × B256) → Bool
all_before k [] = true
all_before k ((j, v) ∷ es) = not (bytes_leb (key_bytes j) (key_bytes k)) && all_before k es

unfoldable pub is_sorted : List (TreeKey × B256) → Bool
is_sorted [] = true
is_sorted ((k, v) ∷ es) = all_before k es && is_sorted es

-- The table lists its entries only if they happen to stand in order.
unfoldable pub entries_or_fail : List (TreeKey × B256) → Bool → Result (List (TreeKey × B256))
entries_or_fail es true = ok es
entries_or_fail es false = err (io (just "out of order"))

abbrev pub memory_store : Store memory_ubt
memory_store = record {
  Db = Db;
  contents = contents_of;
  load_head = λ d. ok d.head;
  load_stem = λ s d. ok (lookup s d.table);
  load_block_deltas = λ n d. ok (unwrap_or (d.deltas (word n)) []);
  iter_stems = λ d. ok d.table;
  load_stem_address = λ s d. ok (d.addresses s);
  iter_entries_sorted =
      λ d. entries_or_fail (all_entries d.table) (is_sorted (all_entries d.table));
  save_head = λ h d. (ok tt, record d { head = some h });
  batch_update_stems = λ u d. (ok tt, record d { table = push_all u d.table });
  batch_save_stem_addresses = λ m d. (ok tt, record d { addresses = add_missing m d.addresses });
  save_block_deltas = λ n l d. (ok tt, record d { deltas = put (word n) l d.deltas });
  delete_block_deltas = λ n d. (ok tt, record d { deltas = remove_at (word n) d.deltas });
  prune_deltas_before = λ n d. (ok 0, record d { deltas = keep_from n d.deltas });
}

abbrev pub memory_index : Index
memory_index = record {
  Db = Option Bytes;
  head_of = λ d. d;
  apply_updates = λ u d. (ok (length u), d);
  save_head = λ n h r c d. (ok tt, some (pack_head n h r c));
}

-- The writes, newest first, and how many sessions each commit stands for.
abbrev pub Writes : Type 0
Writes = List (List (Bytes × Bytes))

abbrev pub drop_commits : ℕ → Writes → Writes
drop_commits zero w = w
drop_commits (suc n) [] = []
drop_commits (suc n) (x ∷ w) = drop_commits n w

abbrev pub read_writes : Bytes → Writes → Option Bytes
read_writes k [] = none
read_writes k (x ∷ w) = elim (lookup k x) [ some v ↦ some v | none ↦ read_writes k w ]

abbrev pub memory_trie : Nomt
memory_trie = record {
  State = Writes;
  Session = Unit {0};
  Finished = List (Bytes × Bytes);
  read = λ k w. done (read_writes k w);
  begin_session = λ _. tt;
  warm_up = λ _ x. x;
  finish = λ u _. done u;
  commit = λ u w. (done tt, u ∷ w);
  rollback = λ n w. (done tt, drop_commits n w);
}

abbrev pub memory : Parts
memory = record { ubt = memory_ubt; store = memory_store; index = memory_index; trie = memory_trie }
