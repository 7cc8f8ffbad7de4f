-- ===== src/History/Dedupe.antt =====
-- Which message ids count as seen after a restart.
use lan_chat.Base.{Bool, ℕ, String, ◌≡◌, refl, false, List}
use lan_chat.History.Types.{Library, IsFaithful}
use lan_chat.History.Store.{Env, load_history, has_mid, has_mid_in}
use lan_chat.History.Restart.{Op, AllGood, IsGood, apply_all, empty_store, load_history-apply_all}

-- After a restart the daemon holds the messages that it held before, and no message id counts as
-- seen, not even those of these messages.
pub has_mid-load_history :
    (lib : Library) (law : IsFaithful lib) (crypto : Bool) (key : List ℕ) (ops : List (Env × Op))
    (env : Env) (mid : String)
    → AllGood lib crypto key ops
    → IsGood lib crypto key env
    → let s =
        load_history lib env (record empty_store { file = (apply_all lib ops empty_store).file }) in
      (s.history ≡ (apply_all lib ops empty_store).history) × (has_mid mid s ≡ false)
unfolding has_mid has_mid_in load_history
has_mid-load_history lib law crypto key ops env mid g e = (
  (load_history-apply_all lib law crypto key ops env
      (record empty_store { file = (apply_all lib ops empty_store).file }) g e refl).0,
  refl,
)
