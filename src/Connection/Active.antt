-- ===== src/Connection/Active.antt =====
-- The active socket of a peer and the queue of what could not be written: `_write`, `_flush_locked`,
-- `_maybe_set_active` and `_drop_conn`.
use Prim.Native.Nat.{Ordering}
use Prim.Native.String.{compare}
use lan_chat.Base.{
  ℕ, String, Bool, true, false, not, ◌&&◌, ◌||◌, Option, none, some, List, [], ◌∷◌, ◌++◌, ◌==◌,
  str_eq, if◌then◌else◌,
}
use lan_chat.Friends.Types.{is_in}

pub record Payload : Type 0 where
  pub kind : String
  pub mid : String
  pub text : String

-- `written` is what went out, each with its socket.
pub record Conn : Type 0 where
  pub sock : Option ℕ
  pub initiator : String
  pub hold : List Payload
  pub sent_mids : List String
  pub written : List (ℕ × Payload)

-- `min(a, b)` of two ids
abbrev pub lesser : String → String → String
lesser a b = elim (compare a b) [ Ordering.gt ↦ b | _ ↦ a ]

unfoldable pub is_sent : Payload → List String → Bool
unfolding is_in
is_sent p sent = not (str_eq p.mid "") && is_in p.mid sent

abbrev pub noted : Payload → List String → List String
noted p sent = if str_eq p.mid "" then sent else p.mid ∷ sent

-- What stays in the queue, the ids that were written, and the payloads; `sends` tells which write
-- succeeds.
unfoldable pub flush :
    (Payload → Bool) → List Payload → List String → List Payload × List String × List Payload
unfolding is_sent
flush sends [] sent = ([], sent, [])
flush sends (p ∷ ps) sent =
    let (still, sent', out) = flush sends ps (if is_sent p sent then sent else noted p sent) in
    if is_sent p sent
    then (still, sent', out)
    else if sends p
    then (still, sent', p ∷ out)
    else (p ∷ [], sent, [])

abbrev pub over : ℕ → List Payload → List (ℕ × Payload)
over s [] = []
over s (p ∷ ps) = (s, p) ∷ over s ps

unfoldable pub flush_locked : (Payload → Bool) → Conn → Conn
unfolding flush
flush_locked sends c = elim c.sock [
  | none ↦ c
  | some s ↦
      let (still, sent, out) = flush sends c.hold c.sent_mids in
      record c { hold = still; sent_mids = sent; written = c.written ++ over s out }
]

abbrev pub is_holdable : Payload → Bool
is_holdable p = str_eq p.kind "msg" || str_eq p.kind "friendAccept"

abbrev pub queued : Payload → Conn → Conn
queued p c = record c { hold = if is_holdable p then c.hold ++ p ∷ [] else c.hold }

unfoldable pub write : Bool → Payload → Conn → Bool × Conn
write sends p c = elim c.sock [
  | none ↦ (false, queued p c)
  | some s ↦
      if sends
      then (true, record c { sent_mids = noted p c.sent_mids; written = c.written ++ (s, p) ∷ [] })
      else (false, queued p (record c { sock = none }))
]

unfoldable pub drop_conn : Conn → Conn
drop_conn c = record c { sock = none; initiator = "" }

abbrev pub adopted : (Payload → Bool) → ℕ → String → Conn → Conn
adopted sends s initiator c = flush_locked sends (record c { sock = some s; initiator = initiator })

-- A socket that `initiator` dialed is offered for the peer `pid` of `host`.
unfoldable pub maybe_set_active :
    (Payload → Bool) → String → String → ℕ → String → Conn → Bool × Conn
unfolding flush_locked
maybe_set_active sends host pid s initiator c =
    let keeper = lesser host pid in
    let new = adopted sends s initiator c in
    elim c.sock [
      | none ↦ (true, new)
      | some cur ↦
          if cur == s
          then (true, c)
          else if str_eq c.initiator keeper && not (str_eq initiator keeper)
          then (false, c)
          else if not (str_eq c.initiator keeper) && not (str_eq initiator keeper)
          then (false, c)
          else (true, new)
    ]
