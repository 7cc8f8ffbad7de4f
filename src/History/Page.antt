-- ===== src/History/Page.antt =====
-- `history_for_peer` and `history_for_room`: one page of a thread, newest last.
use lan_chat.Base.{
  ℕ, ◌+◌, ◌-◌, String, ◌||◌, List, [], ◌==◌, length, take, drop, keep, max, if◌then◌else◌,
}
use lan_chat.History.Types.{Message}
use lan_chat.History.Store.{Store, is_key}

-- `offset` and `limit` are not negative.
unfoldable pub page_of {ℓ} : {A : Type ℓ} → List A → ℕ → ℕ → List A
page_of msgs offset limit =
    let total = length msgs in
    let start = total - offset - limit in
    if total == 0 then [] else drop start (take (max (start + limit) (total - offset)) msgs)

abbrev pub peer_thread : String → Store → List Message
peer_thread peer_id s = keep (λ m. is_key peer_id m.to || is_key peer_id m.from) s.history

abbrev pub room_thread : String → Store → List Message
room_thread room_id s = keep (λ m. is_key room_id m.room) s.history

-- The total and the page.
unfoldable pub history_for_peer : String → ℕ → ℕ → Store → ℕ × List Message
unfolding page_of
history_for_peer peer_id offset limit s =
    let msgs = peer_thread peer_id s in (length msgs, page_of msgs offset limit)

unfoldable pub history_for_room : String → ℕ → ℕ → Store → ℕ × List Message
unfolding page_of
history_for_room room_id offset limit s =
    let msgs = room_thread room_id s in (length msgs, page_of msgs offset limit)
