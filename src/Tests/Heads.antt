-- ===== src/Tests/Heads.antt =====
-- A head saved to the key index, read again, and compared with NOMT's.
use ubt_exex.Common.{
  Option, none, some, [], ◌∷◌, ◌≡◌, refl, ap, ◌↔◌, replicate, ok, done, arith, list_eq, nat_eq,
}
use ubt_exex.Common.Bytes.{Bytes, to_be_bytes, to_le_bytes, from_le_bytes}
use ubt_exex.Common.Assoc.{insert, lookup-insert_self}
use ubt_exex.Index.Codec.{HeadRecord, pack_head, unpack_head}
use ubt_exex.Index.Table.{
  save_head, load_head, commit_or_abort, finish, head_in_table, unpack_or_none,
}
use ubt_exex.Index.Saved.{load-save_head}
use ubt_exex.Exex.Commit.{nomt_head_key}
use ubt_exex.Rpc.{ensure_nomt_synced, ensure_nomt_synced_lem}
use ubt_exex.Tests.Memory.{memory_trie, Writes}
use ubt_exex.Tests.Files.{Tables, memory_redb, memory_redb-IsRedb}

abbrev pub head5 : HeadRecord
head5 = record {
  block_number = 5;
  block_hash = replicate 32 1;
  root = replicate 32 2;
  stem_count = 3;
}

abbrev no_tables : Tables
no_tables = ([], none)

abbrev pub tables5 : Tables
tables5 = ([], some (pack_head 5 (replicate 32 1) (replicate 32 2) 3))

saved5 : save_head memory_redb 5 (replicate 32 1) (replicate 32 2) 3 no_tables ≡ (ok tt, tables5)
unfolding save_head commit_or_abort finish
saved5 = refl

pub loaded5 : load_head memory_redb tables5 ≡ ok (some head5)
unfolding load_head head_in_table unpack_or_none unpack_head pack_head to_le_bytes from_le_bytes
loaded5 = refl

load-save_head_example : some head5 ≡ some head5
load-save_head_example =
    load-save_head memory_redb memory_redb-IsRedb 5 (replicate 32 1) (replicate 32 2) 3 no_tables
      tables5 (some head5) (omega arith) (omega arith) refl refl saved5 loaded5

-- NOMT after one commit at block 5.
abbrev nomt5 : Writes
nomt5 = ((nomt_head_key, to_be_bytes 8 5) ∷ []) ∷ []

read5 : memory_trie.read nomt_head_key nomt5 ≡ done (some (to_be_bytes 8 5))
unfolding insert
read5 =
    ap (λ (o : Option Bytes). done (elim o [ some v ↦ some v | none ↦ none ]))
      (lookup-insert_self nomt_head_key (to_be_bytes 8 5) [])

ensure_nomt_synced_lem_example :
    (ensure_nomt_synced memory_trie memory_redb (done nomt5) (ok tables5) ≡ ok tt)
    ↔ (5 ≡ head5.block_number)
ensure_nomt_synced_lem_example =
    ensure_nomt_synced_lem memory_trie memory_redb nomt5 tables5 5 head5 (omega arith) read5 loaded5
