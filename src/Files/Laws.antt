-- ===== src/Files/Laws.antt =====
-- What a read shows after each operation on the files.
use lan_chat.Base.{
  ℕ, ◌+◌, ◌-◌, String, ◌≡◌, ◌≢◌, refl, sym, ap, ◌∙◌, inl, inr, none, some, List, [], ◌++◌, arith,
  length, length-append, take_all, drop_all, Option-cases, eq_refl,
}
use mathlib.Core.List.{append-nil}
use lan_chat.Dict.{
  lookup, insert, erase, lookup-insert, lookup-insert_self, lookup-insert_ne, lookup-erase_self,
  lookup-erase_ne,
}
use lan_chat.Files.{Files, Handle, update, splice, open_wb, write, remove, read, replace}

pub read-remove : (fs : Files) (path : String) → read (remove fs path) path ≡ none
unfolding read remove
read-remove fs path = rw (read, lookup-erase_self path fs.names)

pub read-remove_ne :
    (fs : Files) (path other : String) → path ≢ other → read (remove fs path) other ≡ read fs other
unfolding read remove
read-remove_ne fs path other n = rw (read, lookup-erase_ne path other fs.names n)

pub read-open_wb : (fs : Files) (path : String) → read (open_wb fs path).0 path ≡ some []
unfolding read open_wb
read-open_wb fs path = elim (Option-cases (lookup path fs.names)) [
  | inl e ↦ rw (e, open_wb) (ground (arith, lookup-insert path path fs.next fs.names, eq_refl path))
  | inr (i, e) ↦ rw (e, open_wb) (ground (arith, e))
]

-- A readable path has an inode, with what is read.
pub read-inv :
    (fs : Files) (path : String) (bytes : List ℕ)
    → read fs path ≡ some bytes
    → (i : ℕ) × (lookup path fs.names ≡ some i) × (fs.content i ≡ bytes)
unfolding read
read-inv fs path bytes h = elim (Option-cases (lookup path fs.names)) [
  | inl e ↦ ground (arith, e)
  | inr (i, e) ↦ (i, e, ground (arith, e))
]

-- A readable file can be moved, and is then read under its new name.
pub replace-some :
    (fs : Files) (tmp path : String) (bytes : List ℕ)
    → read fs tmp ≡ some bytes
    → (fs' : Files) × (replace fs tmp path ≡ some fs')
      × (read fs' path ≡ some bytes)
      × (tmp ≢ path → read fs' tmp ≡ none)
unfolding read replace
replace-some fs tmp path bytes h =
    let (i, e, c) = read-inv fs tmp bytes h in
    (
      record fs { names = insert path i (erase tmp fs.names) },
      rw (e, replace),
      rw (read, lookup-insert_self path i (erase tmp fs.names)) (ap some c),
      λ n. rw (
        read,
        lookup-insert_ne path tmp i (erase tmp fs.names) (λ q. n (sym q)),
        lookup-erase_self tmp fs.names,
      ),
    )

pub replace-none :
    (fs : Files) (tmp path : String) → read fs tmp ≡ none → replace fs tmp path ≡ none
unfolding read replace
replace-none fs tmp path h = ground arith

-- At the end of a file a write appends.
pub splice_end : (old raw : List ℕ) → splice (length old) raw old ≡ old ++ raw
splice_end old raw =
    let none_missing : length old - length old ≡ 0 = omega arith in
    rw none_missing (
      rw (
        append-nil old,
        take_all (length old) old (omega arith),
        drop_all (length old + length raw) old (omega arith),
        append-nil (old ++ raw),
      ))

update_self {ℓ} : {A : Type ℓ} (f : ℕ → A) (i : ℕ) (v : A) → update f i v i ≡ v
update_self f i v = ground arith

-- The handle stands at the end of the file that `path` names, and the file holds `bytes`.
pub record IsOpen (fs : Files) (path : String) (h : Handle) (bytes : List ℕ) : Type 0 where
  pub named : lookup path fs.names ≡ some h.inode
  pub content : fs.content h.inode ≡ bytes
  pub at_end : h.pos ≡ length bytes

pub open_wb-IsOpen :
    (fs : Files) (path : String) → IsOpen (open_wb fs path).0 path (open_wb fs path).1 []
unfolding open_wb
open_wb-IsOpen fs path = elim (Option-cases (lookup path fs.names)) [
  | inl e ↦
      rw (e, open_wb)
        (record {
          named = lookup-insert_self path fs.next fs.names;
          content = ground arith;
          at_end = refl;
        })
  | inr (i, e) ↦ rw (e, open_wb) (record { named = e; content = ground arith; at_end = refl })
]

pub write-IsOpen :
    (fs : Files) (path : String) (h : Handle) (bytes raw : List ℕ)
    → IsOpen fs path h bytes
    → IsOpen (write fs h raw).0 path (write fs h raw).1 (bytes ++ raw)
unfolding write
write-IsOpen fs path h bytes raw o = record {
  named = o.named;
  content = written;
  at_end = rw (length-append bytes raw, o.at_end);
}
  where
    written :
        update fs.content h.inode (splice h.pos raw (fs.content h.inode)) h.inode ≡ bytes ++ raw
    written = update_self fs.content h.inode _ ∙ rw (o.at_end, o.content) (splice_end bytes raw)

pub read-IsOpen :
    (fs : Files) (path : String) (h : Handle) (bytes : List ℕ)
    → IsOpen fs path h bytes
    → read fs path ≡ some bytes
unfolding read
read-IsOpen fs path h bytes o = rw (o.named, read) (ap some o.content)
