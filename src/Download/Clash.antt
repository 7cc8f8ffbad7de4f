-- ===== src/Download/Clash.antt =====
-- Two active downloads of files with one name.
use lan_chat.Base.{ℕ, String, ◌≡◌, ◌≢◌, refl, ◌∙◌, true, some, [], arith}
use lan_chat.Dict.{lookup, lookup-insert_ne, lookup-insert_self}
use lan_chat.Files.{Files, open_wb, update}
use lan_chat.Download.Types.{Entry, Board}
use lan_chat.Download.Begin.{BeginEnv, Request, part_of, purge, new_entry, dl_begin}
use lan_chat.Download.BeginCases.{dl_begin_cases}

open_wb-known :
    (fs : Files) (path : String) (i : ℕ)
    → lookup path fs.names ≡ some i
    → open_wb fs path
      ≡ (record fs { content = update fs.content i [] }, record { inode = i; pos = 0 })
unfolding open_wb
open_wb-known fs path i e = rw (e, open_wb)

-- What a second download to the destination of an active one does to the first.
pub record IsClobbered (file_id : String) (d : Entry) (r : Request) (b' : Board) : Type 0 where
  pub still_active : lookup file_id b'.dl ≡ some d
  pub emptied : b'.files.content d.fh.inode ≡ []
  pub second : Entry
  pub second_active : lookup r.file_id b'.dl ≡ some second
  pub shared : second.fh.inode ≡ d.fh.inode

-- When a download is let in whose destination is that of another active one, both then write into
-- one .part file, and what the first has received is cut to nothing while its entry, with the bytes
-- that it counts, stays as it was.
pub dl_begin-IsClobbered :
    (env : BeginEnv) (r : Request) (b : Board) (file_id : String) (d : Entry)
    → lookup file_id (purge env.now b).dl ≡ some d
    → r.file_id ≢ file_id
    → d.tmp ≡ part_of r.save_to
    → lookup d.tmp (purge env.now b).files.names ≡ some d.fh.inode
    → (dl_begin env r b).0 ≡ true
    → IsClobbered file_id d r (dl_begin env r b).1
dl_begin-IsClobbered env r b file_id d e n t i =
    dl_begin_cases env r b (λ o. o.0 ≡ true → IsClobbered file_id d r o.1) (λ reason fs k h. cc)
      λ a h. rw (open_wb-known c.files (part_of r.save_to) d.fh.inode (rw t at i)) (record {
        still_active = lookup-insert_ne r.file_id file_id _ c.dl n ∙ e;
        emptied = ground arith;
        second = new_entry env r c.limits (record { inode = d.fh.inode; pos = 0 });
        second_active = lookup-insert_self r.file_id _ c.dl;
        shared = refl;
      })
  where
    c : Board
    c = purge env.now b
