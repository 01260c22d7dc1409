-- ===== src/Index/Saved.antt =====
-- `save_head` of key_index.rs followed by `load_head`.
use ubt_exex.Common.{
  ℕ, ◌<◌, ◌^◌, Option, none, some, ◌≡◌, refl, ap, ◌∙◌, sym, length, Result, ok, err, panic, Foreign,
  done, failed, map_err, ◌>>=◌,
}
use ubt_exex.Common.Bytes.{Bytes}
use ubt_exex.Common.Exec.{Ensures-ok}
use ubt_exex.Tree.{B256}
use ubt_exex.Index.Codec.{HeadRecord, unpack_head}
use ubt_exex.Index.RoundTrip.{unpack-pack_head}
use ubt_exex.Index.Table.{Redb, save_head, load_head, head_in_table, unpack_or_none}
use ubt_exex.Index.Refine.{IsRedb, save_head-writes}

-- The head that stored bytes stand for.
abbrev pub decoded : Option Bytes → Result (Option HeadRecord)
decoded none = ok none
decoded (some bytes) = unpack_head bytes >>= λ head. ok (some head)

abbrev found : Result (Option HeadRecord) → Option HeadRecord
found (ok o) = o
found (err e) = none
found (panic m) = none

module _ (R : Redb) (laws : IsRedb R) where
  open laws use {head_of}

  table_read :
      (d : R.Db) (r : R.Read) (f : Foreign (Option Bytes)) (o : Option HeadRecord)
      → R.begin_read d ≡ done r
      → R.read_head r ≡ f
      → (map_err f >>= unpack_or_none R) ≡ ok o
      → decoded (head_of d) ≡ ok o
  unfolding unpack_or_none
  table_read d r (failed e) o p q h = cc
  table_read d r (done none) o p q h = ap decoded (sym (laws.read_head_of d r none p q)) ∙ h
  table_read d r (done (some b)) o p q h = ap decoded (sym (laws.read_head_of d r (some b) p q)) ∙ h

  meta_read :
      (d : R.Db) (r : R.Read) (f : Foreign (Option (Unit {0}))) (o : Option HeadRecord)
      → R.begin_read d ≡ done r
      → R.read_meta r ≡ f
      → (map_err f >>= head_in_table R r) ≡ ok o
      → decoded (head_of d) ≡ ok o
  unfolding head_in_table
  meta_read d r (failed e) o p q h = cc
  meta_read d r (done none) o p q h = ap decoded (laws.no_meta d r p q) ∙ h
  meta_read d r (done (some t)) o p q h = table_read d r (R.read_head r) o p refl h

  db_read :
      (d : R.Db) (f : Foreign R.Read) (o : Option HeadRecord)
      → R.begin_read d ≡ f
      → (map_err f >>= λ r. map_err (R.read_meta r) >>= head_in_table R r) ≡ ok o
      → decoded (head_of d) ≡ ok o
  db_read d (failed e) o p h = cc
  db_read d (done r) o p h = meta_read d r (R.read_meta r) o p refl h

  load_head-decoded :
      (d : R.Db) (o : Option HeadRecord) → load_head R d ≡ ok o → decoded (head_of d) ≡ ok o
  unfolding load_head
  load_head-decoded d o h = db_read d (R.begin_read d) o refl h

  -- After `save_head` of a block number and a stem count of 64 bits and of hashes of 32 bytes
  -- returned, a `load_head` that returns has found a head, and it has the four saved fields.
  pub load-save_head :
      (n : ℕ) (hash root : B256) (stems : ℕ) (d d' : R.Db) (o : Option HeadRecord)
      → n < 2 ^ 64
      → stems < 2 ^ 64
      → length hash ≡ 32
      → length root ≡ 32
      → save_head R n hash root stems d ≡ (ok tt, d')
      → load_head R d' ≡ ok o
      → o ≡ some (record { block_number = n; block_hash = hash; root = root; stem_count = stems })
  load-save_head n hash root stems d d' o small few h r saved loaded = ap found (
      sym (load_head-decoded d' o loaded)
      ∙ ap decoded (
          Ensures-ok (save_head R n hash root stems d) (save_head-writes R laws n hash root stems d)
            saved)
      ∙ ap (λ m. m >>= λ head. ok (some head)) (unpack-pack_head n hash root stems small few h r))
