-- ===== src/Tests/Requests.antt =====
-- Requests where NOMT and the key index are at different blocks, and a count of the key index.
use ubt_exex.Common.{
  Option, none, some, List, [], ◌∷◌, ◌≡◌, refl, ap, replicate, ok, done, arith, list_eq, nat_eq,
  Foreign, length,
}
use ubt_exex.Common.Bytes.{Bytes, to_be_bytes}
use ubt_exex.Common.Assoc.{insert, lookup-insert_self}
use ubt_exex.Exex.Commit.{nomt_head_key}
use ubt_exex.Index.Table.{Redb}
use ubt_exex.Index.Iterate.{for_each_stem, visit_table, visit_stems, visit_stem}
use ubt_exex.Index.Codec.{split_value}
use ubt_exex.PirExport.{Files}
use ubt_exex.Rpc.Handlers.{
  UbtRpc, Refused, unsynced-Refused, export_state, export_contract, get_state_delta,
  ExportStateParams, ExportContractParams, GetStateDeltaParams,
}
use ubt_exex.Tool.{count_stems, count_stems-length}
use ubt_exex.Tests.Memory.{memory, memory_trie, Writes}
use ubt_exex.Tests.Files.{memory_redb}
use ubt_exex.Tests.Heads.{tables5, loaded5, head5}
use ubt_exex.Tests.Exex.{empty_db}

-- The bytes that are written, newest first.
abbrev memory_files : Files
memory_files = record {
  State = List Bytes;
  create_dir_all = λ s. (done tt, s);
  create = λ name s. (done tt, s);
  write_all = λ name bytes s. (done tt, bytes ∷ s);
  flush = λ name s. (done tt, s);
  overwrite_start = λ name bytes s. (done tt, bytes ∷ s);
}

-- NOMT at block 6, the key index at block 5.
abbrev nomt6 : Writes
nomt6 = ((nomt_head_key, to_be_bytes 8 6) ∷ []) ∷ []

read6 : memory_trie.read nomt_head_key nomt6 ≡ done (some (to_be_bytes 8 6))
unfolding insert
read6 =
    ap (λ (o : Option Bytes). done (elim o [ some v ↦ some v | none ↦ none ]))
      (lookup-insert_self nomt_head_key (to_be_bytes 8 6) [])

abbrev rpc6 : UbtRpc memory memory_redb (λ _. memory_files)
rpc6 = record {
  db = empty_db;
  default_chain_id = 1;
  delta_retention = 256;
  nomt_checked = done nomt6;
  key_index_checked = ok tables5;
  nomt_dir = done nomt6;
  key_index_path = ok tables5;
}

unsynced-Refused_example :
    ((params : ExportStateParams) (s : List Bytes)
      → Refused memory memory_redb
          (λ _. memory_files)
          (export_state memory memory_redb (λ _. memory_files) rpc6 params s)
          s)
    × (((params : ExportContractParams) (s : List Bytes)
          → Refused memory memory_redb
              (λ _. memory_files)
              (export_contract memory memory_redb (λ _. memory_files) rpc6 params s)
              s)
        × ((params : GetStateDeltaParams) (s : List Bytes)
            → Refused memory memory_redb
                (λ _. memory_files)
                (get_state_delta memory memory_redb (λ _. memory_files) rpc6 params s)
                s))
unsynced-Refused_example =
    unsynced-Refused memory memory_redb (λ _. memory_files) rpc6 nomt6 tables5 6 head5 refl refl
      (omega arith) read6 loaded5 (omega arith)

-- A key index of two stems.
abbrev two_stems : List (Foreign (Bytes × Bytes))
two_stems = done (replicate 31 1, replicate 52 0) ∷ done (replicate 31 2, replicate 52 9) ∷ []

abbrev listed_redb : Redb
listed_redb = record memory_redb { iter_stems = λ t. done two_stems }

counted2 : count_stems listed_redb tables5 ≡ ok 2
unfolding count_stems for_each_stem visit_table visit_stems visit_stem split_value
counted2 = refl

count_stems-length_example : 2 ≡ length two_stems
count_stems-length_example =
    count_stems-length listed_redb tables5 tables5 two_stems 2 refl refl refl counted2
