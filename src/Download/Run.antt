-- ===== src/Download/Run.antt =====
-- Histories of the download table: every call that the daemon makes on it, in any order and with
-- any answers of the machine.
use lan_chat.Base.{ℕ, String, Bool, true, false, Option, List, [], ◌∷◌, ◌≡◌}
use lan_chat.Base.Int.{ℤ}
use lan_chat.Dict.{Dict}
use lan_chat.Download.Types.{Board}
use lan_chat.Download.Limits.{ConfigValue, apply_config_limits}
use lan_chat.Download.Begin.{BeginEnv, Request, dl_begin}
use lan_chat.Download.Chunk.{ChunkEnv, dl_chunk}
use lan_chat.Download.Finish.{dl_finish, set_expected_digest}

pub data Call : Type 0 where
  begins : BeginEnv → Request → Call
  chunks : ChunkEnv → String → String → Option (List ℕ) → ℤ → Call
  digests : String → String → String → Call
  finishes : Bool → String → String → Bool → Call
  configures : Dict ConfigValue → Call

abbrev pub is_configure : Call → Bool
is_configure (configures config) = true
is_configure _ = false

-- No call of the history changes the limits.
abbrev pub IsSettled : List Call → Type 0
IsSettled [] = Unit {0}
IsSettled (c ∷ cs) = (is_configure c ≡ false) × IsSettled cs

module _ (hexdigest : List ℕ → String) where
  unfoldable pub step : Call → Board → Board
  step (begins env r) b = (dl_begin env r b).1
  step (chunks env file_id peer_id raw total) b = (dl_chunk env file_id peer_id raw total b).board
  step (digests file_id peer_id digest) b = set_expected_digest file_id peer_id digest b
  step (finishes replaces file_id peer_id ok) b =
      (dl_finish hexdigest replaces file_id peer_id ok b).1
  step (configures config) b = record b { limits = apply_config_limits config b.limits }

  unfoldable pub run : List Call → Board → Board
  run [] b = b
  run (c ∷ cs) b = run cs (step c b)

  -- What every call keeps holds after every history.
  pub run_keeps :
      (P : Board → Type 0)
      → ((c : Call) (b : Board) → P b → P (step c b))
      → (cs : List Call) (b : Board) → P b
      → P (run cs b)
  unfolding run
  run_keeps P keeps [] b h = h
  run_keeps P keeps (c ∷ cs) b h = run_keeps P keeps cs (step c b) (keeps c b h)

  pub run_keeps_settled :
      (P : Board → Type 0)
      → ((c : Call) (b : Board) → is_configure c ≡ false → P b → P (step c b))
      → (cs : List Call) (b : Board) → IsSettled cs
      → P b
      → P (run cs b)
  unfolding run
  run_keeps_settled P keeps [] b s h = h
  run_keeps_settled P keeps (c ∷ cs) b s h =
      run_keeps_settled P keeps cs (step c b) s.1 (keeps c b s.0 h)
