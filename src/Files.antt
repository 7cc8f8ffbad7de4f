-- ===== src/Files.antt =====
-- The part of the file system that attachments.py uses. An open handle stays on its inode when the
-- name is removed or opened again, as on POSIX systems.
pub mod Laws
use lan_chat.Base.{
  ℕ, suc, ◌+◌, ◌-◌, String, Option, none, some, List, [], ◌++◌, length, take, drop, replicate, ◌==◌,
  if◌then◌else◌,
}
use lan_chat.Dict.{Dict, lookup, insert, erase}

pub record Handle : Type 0 where
  pub inode : ℕ
  pub pos : ℕ

pub record Files : Type 0 where
  pub names : Dict ℕ
  pub next : ℕ
  pub content : ℕ → List ℕ

abbrev pub update {ℓ} : {A : Type ℓ} → (ℕ → A) → ℕ → A → ℕ → A
update f i v j = if i == j then v else f j

-- `open(path, "wb")`: an existing file is truncated, a new one gets the next inode.
unfoldable pub open_wb : Files → String → Files × Handle
open_wb fs path = elim (lookup path fs.names) [
  | some i ↦ (record fs { content = update fs.content i [] }, record { inode = i; pos = 0 })
  | none ↦ (
    record {
      names = insert path fs.next fs.names;
      next = suc fs.next;
      content = update fs.content fs.next [];
    },
    record { inode = fs.next; pos = 0 },
  )
]

-- The bytes of a file after a write at `pos`; a gap is filled with zeros.
abbrev pub splice : ℕ → List ℕ → List ℕ → List ℕ
splice pos raw old =
    take pos (old ++ replicate (pos - length old) 0) ++ raw ++ drop (pos + length raw) old

-- `fh.write(raw)`
unfoldable pub write : Files → Handle → List ℕ → Files × Handle
write fs h raw = (
  record fs { content = update fs.content h.inode (splice h.pos raw (fs.content h.inode)) },
  record h { pos = h.pos + length raw },
)

-- `os.remove(path)`, whose failure the callers ignore
unfoldable pub remove : Files → String → Files
remove fs path = record fs { names = erase path fs.names }

-- The bytes that `open(path, "rb")` reads.
unfoldable pub read : Files → String → Option (List ℕ)
read fs path = elim (lookup path fs.names) [ none ↦ none | some i ↦ some (fs.content i) ]

-- `os.replace(tmp, path)`; `none` is the OSError of a missing `tmp`.
unfoldable pub replace : Files → String → String → Option Files
replace fs tmp path = elim (lookup tmp fs.names) [
  | none ↦ none
  | some i ↦ some (record fs { names = insert path i (erase tmp fs.names) })
]
