-- ===== src/Download/Frames.antt =====
-- Frames about one transfer and what they may touch: only that transfer, and only for its own peer.
use lan_chat.Base.{ℕ, String, ◌≡◌, ◌≢◌, refl, Option, none, some, List, arith, eq_iff}
use lan_chat.Dict.{lookup, lookup-insert_ne, lookup-erase_ne}
use lan_chat.Download.Types.{Entry, Board}
use lan_chat.Download.Chunk.{dl_abort_locked, append_raw, dl_chunk}
use lan_chat.Download.Finish.{dl_finish, set_expected_digest}
use lan_chat.Download.ChunkCases.{dl_chunk_cases}
use lan_chat.Download.FinishCases.{dl_finish_cases, set_expected_digest_cases}
use lan_chat.Download.Run.{Call, begins, chunks, digests, finishes, configures, step}

-- The file and the peer that a frame names.
abbrev pub frame : Call → Option (String × String)
frame (begins env r) = none
frame (chunks env file_id peer_id raw z) = some (file_id, peer_id)
frame (digests file_id peer_id digest) = some (file_id, peer_id)
frame (finishes replaces file_id peer_id ok) = some (file_id, peer_id)
frame (configures config) = none

abbrev pub IsFrame : Call → String → String → Type 0
IsFrame c file_id peer_id = frame c ≡ some (file_id, peer_id)

-- A chunk, an end-of-file digest or an end frame from another peer than the one that the transfer
-- was opened with changes nothing at all: not the transfer, not its .part file.
pub foreign_frame :
    (hexdigest : List ℕ → String) (c : Call) (file_id peer_id : String) (b : Board) (d : Entry)
    → IsFrame c file_id peer_id
    → lookup file_id b.dl ≡ some d
    → d.peer ≢ peer_id
    → step hexdigest c b ≡ b
unfolding step dl_chunk set_expected_digest dl_finish
foreign_frame hexdigest (begins env r) f p b d s e n = cc
foreign_frame hexdigest (chunks env g q raw z) f p b d s e n = ground (arith, eq_iff d.peer q)
foreign_frame hexdigest (digests g q digest) f p b d s e n = ground (arith, eq_iff d.peer q)
foreign_frame hexdigest (finishes replaces g q ok) f p b d s e n = ground (arith, eq_iff d.peer q)
foreign_frame hexdigest (configures config) f p b d s e n = cc

-- A frame about one file leaves every other transfer as it is, whatever it does to its own.
pub frame_keeps_others :
    (hexdigest : List ℕ → String) (c : Call) (file_id peer_id other : String) (b : Board)
    → IsFrame c file_id peer_id
    → file_id ≢ other
    → lookup other (step hexdigest c b).dl ≡ lookup other b.dl
unfolding step dl_abort_locked append_raw
frame_keeps_others hexdigest (begins env r) f p j b s n = cc
frame_keeps_others hexdigest (chunks env g q raw z) f p j b s n =
    let m : g ≢ j = λ e. n (ground arith) in
    dl_chunk_cases env g q b (λ o. lookup j o.board.dl ≡ lookup j b.dl) raw z refl
      (λ d d' k w e t u. lookup-erase_ne g j b.dl m) (λ d d' e t c. lookup-insert_ne g j d' b.dl m)
      λ d d' d'' bytes e t r c a. lookup-insert_ne g j _ b.dl m
frame_keeps_others hexdigest (digests g q digest) f p j b s n =
    let m : g ≢ j = λ e. n (ground arith) in
    set_expected_digest_cases g q b digest (λ c. lookup j c.dl ≡ lookup j b.dl) refl
      λ d e t u. lookup-insert_ne g j _ b.dl m
frame_keeps_others hexdigest (finishes replaces g q ok) f p j b s n =
    let m : g ≢ j = λ e. n (ground arith) in
    dl_finish_cases g q b hexdigest replaces ok (λ o. lookup j o.1.dl ≡ lookup j b.dl) refl
      λ d e t. lookup-erase_ne g j b.dl m
frame_keeps_others hexdigest (configures config) f p j b s n = cc
