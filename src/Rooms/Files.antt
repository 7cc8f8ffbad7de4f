-- ===== src/Rooms/Files.antt =====
-- Files and texts that are posted in a room.
use lan_chat.Base.{
  String, Bool, true, false, not, ◌&&◌, ◌||◌, Option, none, some, List, [], ◌∷◌, ◌++◌, str_eq,
  if◌then◌else◌, keep, map,
}
use lan_chat.Dict.{lookup, has}
use lan_chat.History.Types.{Message}
use lan_chat.Rooms.Types.{
  Room, Rooms, RoomMsg, RoomText, FileMeta, Effect, send, send_text, append, Env, room_file,
  room_file_status, keys, get_room, envelope,
}

-- The message that a posted file is shown as.
abbrev pub file_message : Env → String → RoomMsg → FileMeta → Message
file_message env room_id m att = record {
  mid = some (if str_eq att.mid "" then env.fresh else att.mid);
  from = some m.from;
  to = none;
  room = some room_id;
  text = m.text;
  edited = false;
  attachment = some att.attachment;
}

-- An envelope without metadata shows a message without an attachment.
unfoldable pub emit_room_file_local : Env → Room → RoomMsg → List Effect
emit_room_file_local env r m = elim m.att [
  | none ↦
      append (record {
        mid = some env.fresh;
        from = some m.from;
        to = none;
        room = some r.room_id;
        text = m.text;
        edited = false;
        attachment = none;
      })
      ∷ []
  | some att ↦ append (file_message env r.room_id m att) ∷ []
]

unfoldable pub fan_out_room_file : Env → Room → RoomMsg → List Effect
unfolding emit_room_file_local
fan_out_room_file env r m =
    map (λ pid. send pid m) (keep (λ pid. not (str_eq pid env.host_id)) (keys r.members))
    ++ emit_room_file_local env r m

-- The copy of a room that is posted to.
abbrev pub posted_to : String → Rooms → Option Room
posted_to room_id s = elim (lookup room_id s.rooms) [
  | some r ↦ some r
  | none ↦ lookup room_id s.rooms_cache
]

unfoldable pub post_room_file : Env → String → FileMeta → String → Rooms → Bool × List Effect
unfolding fan_out_room_file emit_room_file_local
post_room_file env room_id att caption s = elim (posted_to room_id s) [
  | none ↦ (false, [])
  | some r ↦
      let m = record (envelope env room_file room_id) { att = some att; text = caption } in
      if str_eq r.owner env.host_id
      then (true, fan_out_room_file env r m)
      else if env.sends r.owner
      then (true, send r.owner m ∷ emit_room_file_local env r m)
      else (false, send r.owner m ∷ [])
]

-- The author of a frame, or the connection that it came over where that is proved.
abbrev pub writer : String → RoomMsg → String
writer verified m = if str_eq verified "" then m.from else verified

unfoldable pub handle_room_file_msg : Env → RoomMsg → String → Rooms → List Effect
unfolding get_room
handle_room_file_msg env m verified s = elim m.att [
  | none ↦ []
  | some att ↦ elim (get_room m.room_id s) [
    | none ↦ []
    | some (_, r) ↦
        let foreign =
          not (str_eq verified "") && (not (str_eq m.from "") && not (str_eq m.from verified)) in
        if not (has (writer verified m) r.members)
          || (not (str_eq m.from "") && not (has m.from r.members))
        then []
        else if foreign && (str_eq r.owner "" || not (str_eq verified r.owner))
        then []
        else append (file_message env m.room_id m att) ∷ []
  ]
]

unfoldable pub report_file_status : Env → String → String → FileMeta → String → List Effect
report_file_status env room_id sender_pid att status =
    send sender_pid
      (record (envelope env room_file_status room_id) { att = some att; status = status })
    ∷ []

unfoldable pub send_room_text : Env → String → String → Rooms → Bool × List Effect
send_room_text env room_id text s = elim (posted_to room_id s) [
  | none ↦ (false, [])
  | some r ↦
      let t : RoomText = record { text = text; mid = env.fresh; room = room_id } in
      let own : Message = record {
        mid = some env.fresh;
        from = some env.host_id;
        to = none;
        room = some room_id;
        text = text;
        edited = false;
        attachment = none;
      } in
      if str_eq (env.strip text) "" then (false, []) else (
        true,
        map (λ pid. send_text pid t) (keep (λ pid. not (str_eq pid env.host_id)) (keys r.members))
            ++ append own ∷ [],
      )
]
