-- ===== src/Connection/Outbound.antt =====
-- `_reader_outbound`: the reader of a socket that this host dialed, whose peer the TLS certificate
-- proved.
use lan_chat.Base.{
  ℕ, String, Bool, true, false, List, [], ◌∷◌, ◌++◌, ◌||◌, length, ◌==◌, ltb, str_eq, if◌then◌else◌,
}
use lan_chat.Connection.Lines.{split}
use lan_chat.Connection.Inbound.{max_frame_buf}

-- What `json.loads` makes of a line. A line that is blank or does not parse is skipped.
pub data Line (M : Type 0) : Type 0 where
  skipped own_identity no_object : Line M
  challenge : String → Line M
  message : M → Line M

-- A signature over a nonce goes out, or a message is handled under the id that was dialed.
pub data Act (M : Type 0) : Type 0 where
  proof : String → Act M
  handled : String → M → Act M

-- `closed` is true once the reader has left its loop.
pub record Outbound (M : Type 0) : Type 0 where
  pub buf : List ℕ
  pub acts : List (Act M)
  pub closed : Bool

module _ {M : Type 0} (parse : List ℕ → Line M) (pid : String) where
  -- A line before others that have done what `o` says.
  abbrev pub on_line : Line M → List (Act M) × Bool → List (Act M) × Bool
  on_line skipped o = o
  on_line own_identity o = o
  on_line no_object o = ([], true)
  on_line (challenge nonce) (acts, raised) =
      (if str_eq nonce "" then acts else proof nonce ∷ acts, raised)
  on_line (message m) (acts, raised) = (handled pid m ∷ acts, raised)

  -- What the lines do, and whether one of them raises.
  unfoldable pub on_lines : List (List ℕ) → List (Act M) × Bool
  on_lines [] = ([], false)
  on_lines (l ∷ ls) = on_line (parse l) (on_lines ls)

  -- A chunk of the socket: the empty one is its end, and the reader leaves a peer that floods it.
  unfoldable pub on_chunk : List ℕ → Outbound M → Outbound M
  unfolding split on_lines
  on_chunk chunk r =
      let (ls, rest) = split (r.buf ++ chunk) in
      let (acts, raised) = on_lines ls in
      if r.closed
      then r
      else if length chunk == 0 || ltb max_frame_buf (length (r.buf ++ chunk))
      then record r { closed = true }
      else record { buf = rest; acts = r.acts ++ acts; closed = raised }

  unfoldable pub on_chunks : List (List ℕ) → Outbound M → Outbound M
  unfolding on_chunk
  on_chunks [] r = r
  on_chunks (c ∷ cs) r = on_chunks cs (on_chunk c r)
