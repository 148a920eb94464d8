-- ===== src/Btree/Open.antt =====
-- The meta area of the index file: what OBtree::OBtree and the new roots put there.
use Prim.Native.Nat.{Ordering}
use miya_core.Base.{ℕ, ◌≡◌, refl, ◌∙◌, sym, ap, inl, ◌≢◌, some, true, false, arith}
use miya_core.Base.Bytes.{memcmp, memcmp_self}
use miya_core.Optr.{Optr, caddr}
use miya_core.Optr.Laws.{IsNear}
use miya_core.Memory.{Bytes, ocmp_raw}
use miya_core.Memory.Laws.{read, write, read-write, read-write_outside}
use miya_core.Memory.Compare.{ocmp_raw-memcmp}
use miya_core.Allocator.Command.{store}
use miya_core.Allocator.Block.{load_optr}
use miya_core.Allocator.Meta.{primary_optr}
use miya_core.Btree.Files.{Files, on_index, next, on_index-some, allocate_memory}
use miya_core.Btree.Insert.{store_root}
use miya_core.Btree.Add.{new_onode}
use miya_core.Btree.Tree.{format_code, is_formatted, load_root, open_btree, set_root_onode}
use miya_core.Btree.Layout.{IsNode, chain, reach, store-write}
use miya_core.Btree.Shifting.{optr_at-write}
use miya_core.Btree.Slots.{optr_at, load_optr-near, store-caddr}

primary-IsNode : IsNode primary_optr
primary-IsNode = record {
  optr = record {
    byte0 = omega arith;
    byte1 = omega arith;
    byte2 = omega arith;
    byte3 = omega arith;
    byte4 = omega arith;
  };
  near = omega arith;
}

store_root-write :
    (m : Bytes) (root : Optr) → store_root root m ≡ some (tt, write m 20 (caddr root))
unfolding store_root
store_root-write m root =
    let (p, e, w, q) = reach primary_optr 20 primary-IsNode (omega arith) in
    chain _ (e m) (store-caddr m p w root ∙ rw q refl)

formatted :
    (m : Bytes) → ocmp_raw (write m 0 format_code) primary_optr 0 format_code ≡ some Ordering.eq
formatted m =
    ocmp_raw-memcmp (write m 0 format_code) primary_optr 0 format_code
      (record { optr = primary-IsNode.optr; near = omega arith }) (omega arith)
    ∙ rw (read-write m 0 format_code, memcmp_self format_code) refl

-- A file with the format code opens with the root in its meta area.
open-formatted :
    (walk : ℕ) (files : Files)
    → ocmp_raw files.index primary_optr 0 format_code ≡ some Ordering.eq
    → open_btree walk files ≡ some (optr_at files.index 20, files)
unfolding open_btree
open-formatted walk files e =
    let (p, a, w, q) = reach primary_optr 20 primary-IsNode (omega arith) in
    let l : load_optr p files.index ≡ some (optr_at files.index 20, files.index) =
      load_optr-near files.index p w ∙ rw q refl in
    let r : load_root files.index ≡ some (optr_at files.index 20, files.index) =
      rw (load_root, a files.index) l in
    let y : is_formatted files.index ≡ some (true, files.index) = rw (is_formatted, e) refl in
    next _ (on_index-some is_formatted files y) (on_index-some load_root files r)

-- The format code and the root do not overlap.
code_kept : (m : Bytes) (o : Optr) → read (write m 20 (caddr o)) 0 20 ≡ read m 0 20
code_kept m o = read-write_outside m 0 20 20 (caddr o) (inl (omega arith))

root_kept : (m : Bytes) (o : Optr) → optr_at (write (write m 20 (caddr o)) 0 format_code) 20 ≡ o
unfolding write caddr
root_kept m o = refl

-- On an index file with the format code, rootONode with a node puts it in the meta area, and the
-- index opens with that node as its root.
pub set_root_onode-open_btree :
    (walk : ℕ) (files : Files) (target : Optr)
    → ocmp_raw files.index primary_optr 0 format_code ≡ some Ordering.eq
    → (g : Files) × (set_root_onode (some target) files ≡ some (some target, g))
      × (open_btree walk g ≡ some (target, g))
unfolding set_root_onode
set_root_onode-open_btree walk files target e =
    let m' = write files.index 20 (caddr target) in
    let near : IsNear primary_optr = record { optr = primary-IsNode.optr; near = omega arith } in
    let kept : ocmp_raw m' primary_optr 0 format_code ≡ some Ordering.eq =
      ocmp_raw-memcmp m' primary_optr 0 format_code near (omega arith)
      ∙ ap (λ bs. some (memcmp bs format_code)) (code_kept files.index target)
      ∙ sym (ocmp_raw-memcmp files.index primary_optr 0 format_code near (omega arith))
      ∙ e in
    let g : Files = record { index = m'; free = files.free } in
    (
      g,
      next _ (on_index-some (store_root target) files (store_root-write files.index target)) refl,
      open-formatted walk g kept ∙ rw (optr_at-write files.index 20 target) refl,
    )

-- A new index file, and its second opening.
pub open_btree-open_btree :
    (walk walk' : ℕ) (files f1 f2 : Files) (o root : Optr) (c : Ordering)
    → ocmp_raw files.index primary_optr 0 format_code ≡ some c
    → c ≢ Ordering.eq
    → allocate_memory walk 100 files ≡ some (o, f1)
    → new_onode walk f1 ≡ some (root, f2)
    → (g : Files) × (open_btree walk files ≡ some (root, g)) × (open_btree walk' g ≡ some (root, g))
unfolding open_btree
open_btree-open_btree walk walk' files f1 f2 o root c e ne a b =
    let m' = write f2.index 20 (caddr root) in
    let near : IsNear primary_optr = record { optr = primary-IsNode.optr; near = omega arith } in
    let g : Files = record { index = write m' 0 format_code; free = f2.free } in
    let u : on_index is_formatted files ≡ some (false, files) = unformatted files c e ne in
    let w : on_index (store_root root) f2 ≡ some (tt, record { index = m'; free = f2.free }) =
      on_index-some (store_root root) f2 (store_root-write f2.index root) in
    let z : on_index (store primary_optr format_code) (record { index = m'; free = f2.free })
        ≡ some (tt, g) =
      on_index-some (store primary_optr format_code) (record { index = m'; free = f2.free })
        (store-write m' primary_optr format_code near (omega arith)) in
    (
      g,
      next _ u (next _ a (next _ b (next _ w (next _ z refl)))),
      open-formatted walk' g (formatted m') ∙ rw (root_kept f2.index root) refl,
    )
  where
    unformatted :
        (f : Files) (d : Ordering)
        → ocmp_raw f.index primary_optr 0 format_code ≡ some d
        → d ≢ Ordering.eq
        → on_index is_formatted f ≡ some (false, f)
    unformatted f Ordering.lt h n = rw (on_index, is_formatted, h) refl
    unformatted f Ordering.eq h n = absurd (n refl)
    unformatted f Ordering.gt h n = rw (on_index, is_formatted, h) refl
