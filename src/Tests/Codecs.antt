-- ===== src/Tests/Codecs.antt =====
-- A bincode in memory, and `UbtDatabase` over it and over MDBX in memory.
use ubt_exex.Common.{
  ℕ, zero, suc, none, List, [], ◌∷◌, ◌++◌, ◌≡◌, refl, sym, ◌∙◌, if◌then◌else◌, list_eq, nat_eq,
  ◌==◌, length, take, drop, take-append, drop-append, arith, Bool-cases, inl, inr, Foreign, done,
  failed, eq_refl,
}
use mathlib.Core.Path.{subst}
use ubt_exex.Common.Assoc.{lookup, Distinct}
use ubt_exex.Common.Bytes.{Bytes}
use ubt_exex.Tree.{Delta, Ubt}
use ubt_exex.Store.{UbtHead}
use ubt_exex.Persistence.{Bincode, Codec}
use ubt_exex.Persistence.Writes.{IsBincode}
use ubt_exex.Persistence.Entries.{HasValues}
use ubt_exex.Tests.Memory.{Node, memory_ubt}

-- Lengths before bytes.
abbrev pub encode_node : Node → Bytes
encode_node [] = []
encode_node ((i, v) ∷ n) = i ∷ length v ∷ (v ++ encode_node n)

abbrev pub decode_entries : ℕ → Bytes → Foreign Node
decode_entries zero bytes = done []
decode_entries (suc c) [] = failed "short"
decode_entries (suc c) (i ∷ []) = failed "short"
decode_entries (suc c) (i ∷ l ∷ bytes) = elim (decode_entries c (drop l bytes)) [
  | done n ↦ done ((i, take l bytes) ∷ n)
  | failed e ↦ failed e
]

abbrev pub decode_node : Bytes → Foreign Node
decode_node [] = failed "short"
decode_node (c ∷ bytes) = decode_entries c bytes

decode-encode_node : (n : Node) → decode_entries (length n) (encode_node n) ≡ done n
decode-encode_node [] = refl
decode-encode_node ((i, v) ∷ n) =
    rw (drop-append v (encode_node n), decode-encode_node n, take-append v (encode_node n)) refl

abbrev pub encode_deltas : List Delta → Bytes
encode_deltas [] = []
encode_deltas ((s, i, v) ∷ ds) = i ∷ length s ∷ length v ∷ (s ++ (v ++ encode_deltas ds))

abbrev pub decode_deltas : ℕ → Bytes → Foreign (List Delta)
decode_deltas zero bytes = done []
decode_deltas (suc c) [] = failed "short"
decode_deltas (suc c) (i ∷ []) = failed "short"
decode_deltas (suc c) (i ∷ l ∷ []) = failed "short"
decode_deltas (suc c) (i ∷ l ∷ m ∷ bytes) = elim (decode_deltas c (drop m (drop l bytes))) [
  | done ds ↦ done ((take l bytes, i, take m (drop l bytes)) ∷ ds)
  | failed e ↦ failed e
]

abbrev pub decode_counted : Bytes → Foreign (List Delta)
decode_counted [] = failed "short"
decode_counted (c ∷ bytes) = decode_deltas c bytes

decode-encode_deltas : (ds : List Delta) → decode_deltas (length ds) (encode_deltas ds) ≡ done ds
decode-encode_deltas [] = refl
decode-encode_deltas ((s, i, v) ∷ ds) =
    rw
      (
        drop-append s (v ++ encode_deltas ds),
        drop-append v (encode_deltas ds),
        decode-encode_deltas ds,
        take-append s (v ++ encode_deltas ds),
        drop-append s (v ++ encode_deltas ds),
        take-append v (encode_deltas ds),
      )
      refl

abbrev pub encode_head : UbtHead → Bytes
encode_head h = h.block_number ∷ h.stem_count ∷ length h.block_hash ∷ (h.block_hash ++ h.root)

abbrev pub decode_head : Bytes → Foreign UbtHead
decode_head (n ∷ c ∷ l ∷ bytes) =
    done
      (record { block_number = n; block_hash = take l bytes; root = drop l bytes; stem_count = c })
decode_head _ = failed "short"

decode-encode_head : (h : UbtHead) → decode_head (encode_head h) ≡ done h
decode-encode_head h = rw (drop-append h.block_hash h.root, take-append h.block_hash h.root) refl

-- A node with one value for each subindex.
unfoldable pub others : ℕ → Node → Node
others i [] = []
others i ((j, v) ∷ n) = if i == j then others i n else (j, v) ∷ others i n

unfoldable pub once : Node → Node
once [] = []
once ((i, v) ∷ n) = (i, v) ∷ others i (once n)

abbrev pub disk_ubt : Ubt
disk_ubt = record memory_ubt { values = once }

abbrev pub memory_bincode : Bincode disk_ubt
memory_bincode = record {
  head = record { serialize = λ h. done (encode_head h); deserialize = decode_head };
  node = record { serialize = λ n. done (length n ∷ encode_node n); deserialize = decode_node };
  deltas = record {
    serialize = λ ds. done (length ds ∷ encode_deltas ds);
    deserialize = decode_counted;
  };
}

done_injective : (a b : Bytes) → (let f : Foreign Bytes = done a in f) ≡ done b → a ≡ b
done_injective a b p = cc

law_of :
    {A : Type 0} (c : Codec A) (encode : A → Bytes) (a : A) (bytes : Bytes)
    → c.serialize a ≡ done (encode a)
    → c.deserialize (encode a) ≡ done a
    → c.serialize a ≡ done bytes
    → c.deserialize bytes ≡ done a
law_of c encode a bytes p q r =
    subst (λ b. c.deserialize b ≡ done a) (done_injective (encode a) bytes (sym p ∙ r)) q

pub memory_bincode-IsBincode : IsBincode memory_bincode
memory_bincode-IsBincode = record {
  head_codec =
      λ a bytes p. law_of memory_bincode.head encode_head a bytes refl (decode-encode_head a) p;
  node_codec = λ a bytes p.
      law_of memory_bincode.node (λ n. length n ∷ encode_node n) a bytes refl (decode-encode_node a)
        p;
  deltas_codec = λ a bytes p.
      law_of memory_bincode.deltas (λ ds. length ds ∷ encode_deltas ds) a bytes refl
        (decode-encode_deltas a) p;
}

lookup-others : (i j : ℕ) (n : Node) → lookup j (others i n) ≡ (if i == j then none else lookup j n)
unfolding lookup others
lookup-others i j [] = ground arith
lookup-others i j ((k, v) ∷ n) = ground (arith, lookup-others i j n)

lookup-once : (i : ℕ) (n : Node) → lookup i (once n) ≡ lookup i n
unfolding lookup once
lookup-once i [] = refl
lookup-once i ((k, v) ∷ n) = ground (arith, lookup-once i n, lookup-others k i (once n))

others-Distinct : (i : ℕ) (n : Node) → Distinct n → Distinct (others i n)
unfolding others
others-Distinct i [] h = tt
others-Distinct i ((k, v) ∷ n) h = elim (Bool-cases (i == k)) [
  | inl p ↦ rw (p, Distinct) (others-Distinct i n h.1)
  | inr p ↦ rw (p, Distinct) (rw (lookup-others i k n, p, h.0) refl, others-Distinct i n h.1)
]

once-Distinct : (n : Node) → Distinct (once n)
unfolding once
once-Distinct [] = tt
once-Distinct ((i, v) ∷ n) =
    (rw (lookup-others i i (once n), eq_refl i) refl, others-Distinct i (once n) (once-Distinct n))

pub disk_ubt-HasValues : HasValues disk_ubt
disk_ubt-HasValues = record { once = once-Distinct; each = λ n i. lookup-once i n }
