-- ===== src/Persistence/Writes.antt =====
-- The tables of heads, stems and addresses of persistence.rs: what the methods read and write, in
-- terms of the contents.
use ubt_exex.Common.{
  List, [], ◌∷◌, some, none, Option, ◌≡◌, refl, ap, ◌∙◌, Foreign, done, ◌==◌, list_eq, nat_eq,
  Bool-cases, inl, inr, Result, length, eq_refl,
}
use ubt_exex.Common.Bytes.{Bytes}
use ubt_exex.Common.Exec.{Answers, Answers-bind, Answers-weaken, Ensures, Ensures-weaken}
use ubt_exex.Common.Text.{Text}
use ubt_exex.Tree.{Ubt, Stem, Address}
use ubt_exex.Store.{Contents, UbtHead, put, put_all, add_missing}
use ubt_exex.Mdbx.{Ffi}
use ubt_exex.Mdbx.Tables.{IsFfi, Rows, change, write}
use ubt_exex.Persistence.{
  Bincode, stems_db, stem_addr_db, meta_db, meta_key_head, coded, plain, Wording, write_to,
}
use ubt_exex.Persistence.Head.{load_head, save_head, decode_head}
use ubt_exex.Persistence.Stems.{load_stem, decode_node, put_stems, batch_update_stems}
use ubt_exex.Persistence.Addresses.{
  load_stem_address, address_of, put_or_compare, put_addresses, batch_save_stem_addresses,
}
use ubt_exex.Persistence.Rules.{
  IsCodec, decoded, coded-Answers, decode_row-Answers, read_row-Answers, get-Answers, put-Answers,
  write_to-Ensures,
}
use ubt_exex.Persistence.View.{contents_of, stems_changed, addresses_changed, head_changed}

-- The codecs of the three types that are stored.
pub record IsBincode {U : Ubt} (B : Bincode U) : Type 0 where
  pub head_codec : IsCodec B.head
  pub node_codec : IsCodec B.node
  pub deltas_codec : IsCodec B.deltas

decode_head-Answers :
    {U : Ubt} (M : Ffi) (B : Bincode U) (o : Option Bytes)
    → Answers (λ h. h ≡ decoded B.head.deserialize o) (decode_head M B o)
unfolding decode_head
decode_head-Answers M B none = record { answer = refl }
decode_head-Answers M B (some bytes) = decode_row-Answers B.head.deserialize bytes

decode_node-Answers :
    {U : Ubt} (M : Ffi) (B : Bincode U) (o : Option Bytes)
    → Answers (λ n. n ≡ decoded B.node.deserialize o) (decode_node M B o)
unfolding decode_node
decode_node-Answers M B none = record { answer = refl }
decode_node-Answers M B (some bytes) = decode_row-Answers B.node.deserialize bytes

address_of-Answers : (o : Option Bytes) → Answers (λ a. a ≡ o) (address_of o)
unfolding address_of
address_of-Answers none = record { answer = refl }
address_of-Answers (some bytes) = elim (Bool-cases (length bytes == 20)) [
  | inl p ↦ rw p (record { answer = refl })
  | inr p ↦ rw p (record { answer = tt })
]

-- A value that decodes is written over what a key has.
pub decoded_put :
    {A : Type 0} (f : Bytes → Foreign A) (key : Bytes) (value : Bytes) (a : A) (r : Rows)
    → f value ≡ done a
    → (other : Bytes) → decoded f (write key value r other) ≡ put key a (λ k. decoded f (r k)) other
decoded_put f key value a r p other = elim (Bool-cases (key == other)) [
  | inl h ↦ rw (h, p) refl
  | inr h ↦ rw h refl
]

put_self : {A : Type 0} (key : Bytes) (a : A) (f : Bytes → Option A) → put key a f key ≡ some a
put_self key a f = rw (eq_refl key) refl

module _ {U : Ubt} (M : Ffi) (laws : IsFfi M) (B : Bincode U) (codecs : IsBincode B) where
  open M use {Env, Txn, Dbi}
  open laws use {rows, seen, name_of}

  abbrev pub view : Env → Contents U
  view e = contents_of B (rows e)

  -- What a method that writes does to the contents.
  abbrev pub Changes : {A : Type 0} → (Contents U → Contents U) → Env → Result A × Env → Type 0
  Changes change e r = Ensures (λ _ e'. view e' ≡ change (view e)) (λ _ e'. view e' ≡ view e) r

  -- It does so if its transaction sees the change at its end.
  pub write_to-Changes :
      {A : Type 0} (change : Contents U → Contents U) (w : Wording) (name : Text)
      (body : Txn → Dbi → Result (Txn × A)) (e : Env)
      → ((t : Txn) (db : Dbi)
          → name_of db ≡ name
          → Answers (λ t'. contents_of B (seen t'.0) ≡ change (contents_of B (seen t))) (body t db))
      → Changes change e (write_to M w name body e)
  write_to-Changes change w name body e h =
      Ensures-weaken _
        (write_to-Ensures M laws (λ T. contents_of B T ≡ change (view e)) w name body e
          (λ t db p q.
            Answers-weaken (body t db) (h t db p)
              (λ _ r. r ∙ ap (λ T. change (contents_of B T)) q)))
        (λ _ _ r. r) (λ _ _ r. ap (contents_of B) r)

  pub load_head-reads : (e : Env) → Answers (λ h. h ≡ (view e).head) (load_head M B e)
  unfolding load_head
  load_head-reads e =
      read_row-Answers M laws meta_db meta_key_head (decode_head M B) (decoded B.head.deserialize) e
        (decode_head-Answers M B)

  pub load_stem-reads :
      (stem : Stem) (e : Env) → Answers (λ n. n ≡ (view e).stems stem) (load_stem M B stem e)
  unfolding load_stem
  load_stem-reads stem e =
      read_row-Answers M laws stems_db stem (decode_node M B) (decoded B.node.deserialize) e
        (decode_node-Answers M B)

  pub load_stem_address-reads :
      (stem : Stem) (e : Env)
      → Answers (λ a. a ≡ (view e).addresses stem) (load_stem_address M stem e)
  unfolding load_stem_address
  load_stem_address-reads stem e =
      read_row-Answers M laws stem_addr_db stem address_of (λ o. o) e address_of-Answers

  pub save_head-Changes :
      (h : UbtHead) (e : Env) → Changes (λ c. record c { head = some h }) e (save_head M B h e)
  unfolding save_head
  save_head-Changes h e =
      write_to-Changes (λ c. record c { head = some h }) plain meta_db _ e
        (λ t db p.
          Answers-bind (coded (B.head.serialize h)) _ (coded-Answers B.head codecs.head_codec h)
            (λ bytes q.
              Answers-bind _ _ (put-Answers M laws meta_db t db meta_key_head bytes p) (λ t' r.
                record {
                  answer =
                      ap (contents_of B) r
                      ∙ head_changed B (write meta_key_head bytes) (seen t) (some h) (
                          decoded_put B.head.deserialize meta_key_head bytes h (seen t meta_db) q
                            meta_key_head
                          ∙ put_self meta_key_head h
                              (λ k. decoded B.head.deserialize (seen t meta_db k)));
                })))

  put_stems-Answers :
      (db : Dbi) (u : List (Stem × U.StemNode)) (t : Txn)
      → name_of db ≡ stems_db
      → Answers
          (λ t'. contents_of B (seen t') ≡ (
            let c : Contents U = contents_of B (seen t) in record c { stems = put_all u c.stems }))
          (put_stems M B db u t)
  unfolding put_stems put_all
  put_stems-Answers db [] t p = record { answer = refl }
  put_stems-Answers db ((stem, node) ∷ u) t p =
      Answers-bind (coded (B.node.serialize node)) _ (coded-Answers B.node codecs.node_codec node)
        (λ bytes q. Answers-bind _ _ (put-Answers M laws stems_db t db stem bytes p) (λ t' r.
          Answers-weaken _ (put_stems-Answers db u t' p) (λ t'' k.
            k
            ∙ ap (λ c. let d : Contents U = record c { stems = put_all u c.stems } in d)
                (ap (contents_of B) r
                  ∙ stems_changed B (write stem bytes) (seen t) _
                      (decoded_put B.node.deserialize stem bytes node _ q)))))

  pub batch_update_stems-Changes :
      (u : List (Stem × U.StemNode)) (e : Env)
      → Changes (λ c. record c { stems = put_all u c.stems }) e (batch_update_stems M B u e)
  unfolding batch_update_stems put_all
  batch_update_stems-Changes [] e = record { post = refl }
  batch_update_stems-Changes (x ∷ u) e =
      write_to-Changes (λ c. record c { stems = put_all (x ∷ u) c.stems }) plain stems_db _ e
        (λ t db p.
          Answers-bind (put_stems M B db (x ∷ u) t) _ (put_stems-Answers db (x ∷ u) t p)
            (λ t' r. record { answer = r }))

  abbrev pub with_addresses : (Rows → Rows) → Contents U → Contents U
  with_addresses f c = record c { addresses = f c.addresses }

  -- The addresses of a transaction's tables after a write of one.
  pub address_put :
      (stem : Stem) (address : Address) (t t' : Txn)
      → seen t' ≡ change stem_addr_db (write stem address) (seen t)
      → contents_of B (seen t') ≡ with_addresses (put stem address) (contents_of B (seen t))
  address_put stem address t t' r =
      ap (contents_of B) r ∙ addresses_changed B (write stem address) (seen t)

  -- One round: a stem that has an address keeps it.
  pub put_or_compare-Answers :
      (stem : Stem) (address : Address) (db : Dbi) (t : Txn) (o : Option Bytes)
      → name_of db ≡ stem_addr_db
      → seen t stem_addr_db stem ≡ o
      → Answers
          (λ t'.
            contents_of B (seen t')
            ≡ with_addresses (add_missing ((stem, address) ∷ [])) (contents_of B (seen t)))
          (put_or_compare M stem address db t o)
  unfolding put_or_compare add_missing
  put_or_compare-Answers stem address db t none p q =
      Answers-weaken _ (put-Answers M laws stem_addr_db t db stem address p)
        (λ t' r. rw q (address_put stem address t t' r))
  put_or_compare-Answers stem address db t (some existing) p q =
      elim (Bool-cases (existing == address)) [
        | inl h ↦ rw (h, q) (record { answer = refl })
        | inr h ↦ rw h (record { answer = tt })
      ]

  pub put_addresses-Answers :
      (db : Dbi) (m : List (Stem × Address)) (t : Txn)
      → name_of db ≡ stem_addr_db
      → Answers
          (λ t'. contents_of B (seen t') ≡ with_addresses (add_missing m) (contents_of B (seen t)))
          (put_addresses M db m t)
  unfolding put_addresses add_missing
  put_addresses-Answers db [] t p = record { answer = refl }
  put_addresses-Answers db ((stem, address) ∷ m) t p =
      Answers-bind _ _ (get-Answers M laws stem_addr_db t db stem p) (λ o q.
        Answers-bind (put_or_compare M stem address db t o) _
          (put_or_compare-Answers stem address db t o p q)
          (λ t' r.
            Answers-weaken _ (put_addresses-Answers db m t' p)
              (λ t'' k. k ∙ ap (with_addresses (add_missing m)) r)))

  pub batch_save_stem_addresses-Changes :
      (m : List (Stem × Address)) (e : Env)
      → Changes
          (λ c. record c { addresses = add_missing m c.addresses })
          e
          (batch_save_stem_addresses M m e)
  unfolding batch_save_stem_addresses add_missing
  batch_save_stem_addresses-Changes [] e = record { post = refl }
  batch_save_stem_addresses-Changes (x ∷ m) e =
      write_to-Changes (with_addresses (add_missing (x ∷ m))) plain stem_addr_db _ e (λ t db p.
        Answers-bind (put_addresses M db (x ∷ m) t) _ (put_addresses-Answers db (x ∷ m) t p)
          (λ t' r. record { answer = r }))
