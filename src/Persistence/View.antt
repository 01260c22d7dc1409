-- ===== src/Persistence/View.antt =====
-- The contents of the four tables of persistence.rs, as values, and what a change of one table does
-- to them.
use ubt_exex.Common.{
  ℕ, List, none, Option, ◌≡◌, refl, fun_ext, list_eq, nat_eq, list_beq, ltb, if◌then◌else◌,
}
use ubt_exex.Tree.{Ubt, Stem, Delta}
use ubt_exex.Store.{Contents, UbtHead}
use ubt_exex.Mdbx.Tables.{Tables, Rows, change}
use ubt_exex.Persistence.{Bincode, stems_db, stem_addr_db, meta_db, deltas_db, meta_key_head}
use ubt_exex.Persistence.Deltas.{block_key}
use ubt_exex.Persistence.Rules.{decoded}

-- `u64::MAX + 1`
abbrev pub words : ℕ
words = 18446744073709551616

pub Contents-path :
    {U : Ubt} {c d : Contents U}
    → c.stems ≡ d.stems
    → c.addresses ≡ d.addresses
    → c.deltas ≡ d.deltas
    → c.head ≡ d.head
    → c ≡ d
Contents-path p q r s = λ i. record { stems = p i; addresses = q i; deltas = r i; head = s i }

module _ {U : Ubt} (B : Bincode U) where
  -- The deltas of the table, by the block number.
  abbrev pub deltas_in : Rows → ℕ → Option (List Delta)
  deltas_in rows n = if ltb n words then decoded B.deltas.deserialize (rows (block_key n)) else none

  abbrev pub contents_of : Tables → Contents U
  contents_of T = record {
    stems = λ stem. decoded B.node.deserialize (T stems_db stem);
    addresses = T stem_addr_db;
    deltas = deltas_in (T deltas_db);
    head = decoded B.head.deserialize (T meta_db meta_key_head);
  }

  module _ (f : Rows → Rows) (T : Tables) where
    pub stems_changed :
        (g : Stem → Option U.StemNode)
        → ((stem : Stem) → decoded B.node.deserialize (f (T stems_db) stem) ≡ g stem)
        → contents_of (change stems_db f T) ≡ record (contents_of T) { stems = g }
    unfolding list_beq
    stems_changed g h = Contents-path (fun_ext h) refl refl refl

    pub addresses_changed :
        contents_of (change stem_addr_db f T)
        ≡ record (contents_of T) { addresses = f (T stem_addr_db) }
    unfolding list_beq
    addresses_changed = Contents-path refl refl refl refl

    pub deltas_changed :
        (g : ℕ → Option (List Delta))
        → ((n : ℕ) → deltas_in (f (T deltas_db)) n ≡ g n)
        → contents_of (change deltas_db f T) ≡ record (contents_of T) { deltas = g }
    unfolding list_beq
    deltas_changed g h = Contents-path refl refl (fun_ext h) refl

    pub head_changed :
        (g : Option UbtHead)
        → decoded B.head.deserialize (f (T meta_db) meta_key_head) ≡ g
        → contents_of (change meta_db f T) ≡ record (contents_of T) { head = g }
    unfolding list_beq
    head_changed g h = Contents-path refl refl refl h
