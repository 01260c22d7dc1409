-- ===== src/Exex/Undo.antt =====
-- The writes of `commit` and the deltas recorded for them, undone as `apply_deltas_reverse` does.
use ubt_exex.Common.{
  List, [], ◌∷◌, ◌++◌, ◌≡◌, refl, sym, ◌∙◌, ap, reverse, fun_ext, eq_of_true, Bool-cases, inl, inr,
  list_eq, nat_eq, ◌==◌,
}
use mathlib.Core.List.{reverse-append}
use ubt_exex.Tree.{B256, TreeKey, Delta, tree_key, tree_key_eq}
use ubt_exex.Exex.{PendingEntry}
use ubt_exex.Exex.Overlay.{write, write_deltas}
use ubt_exex.Exex.Commit.Entries.{write_entries, delta_of, deltas_of}

write_deltas-append :
    (xs ys : List Delta) (f : TreeKey → B256)
    → write_deltas (xs ++ ys) f ≡ write_deltas ys (write_deltas xs f)
unfolding write_deltas
write_deltas-append [] ys f = refl
write_deltas-append ((stem, i, v) ∷ xs) ys f =
    write_deltas-append xs ys (write (tree_key stem i) v f)

pub write_deltas-reverse_append :
    (xs ys : List Delta) (f : TreeKey → B256)
    → write_deltas (reverse (xs ++ ys)) f ≡ write_deltas (reverse xs) (write_deltas (reverse ys) f)
write_deltas-reverse_append xs ys f =
    rw (reverse-append) (write_deltas-append (reverse ys) (reverse xs) f)

-- To write a key and then its old value back changes nothing.
write_back :
    (e : PendingEntry) (f : TreeKey → B256) (key : TreeKey)
    → write e.key (f e.key) (write e.key e.value f) key ≡ f key
write_back e f key = elim (Bool-cases (e.key == key)) [
  | inl here ↦ rw here (ap f (eq_of_true e.key key here))
  | inr there ↦ rw there
]

-- Nor does it change anything to write the value that is there.
write_same :
    (e : PendingEntry) (f : TreeKey → B256) (key : TreeKey)
    → f e.key ≡ e.value
    → write e.key e.value f key ≡ f key
write_same e f key same = elim (Bool-cases (e.key == key)) [
  | inl here ↦ rw here (sym same ∙ ap f (eq_of_true e.key key here))
  | inr there ↦ rw there
]

undo_entry :
    (e : PendingEntry) (f : TreeKey → B256) (key : TreeKey)
    → write_deltas (reverse (delta_of e f)) (write e.key e.value f) key ≡ f key
unfolding write_deltas
undo_entry e f key = elim (Bool-cases (f e.key == e.value)) [
  | inl same ↦ rw same (write_same e f key (eq_of_true (f e.key) e.value same))
  | inr differs ↦ rw differs (write_back e f key)
]

-- The recorded deltas, applied last to first, give back the state before the entries.
pub undo_entries :
    (es : List PendingEntry) (f : TreeKey → B256)
    → write_deltas (reverse (deltas_of es f)) (write_entries es f) ≡ f
unfolding deltas_of write_entries
undo_entries [] f = unfold write_deltas in refl
undo_entries (e ∷ es) f =
    rw (write_deltas-reverse_append (delta_of e f), undo_entries es (write e.key e.value f))
      (fun_ext (undo_entry e f))
