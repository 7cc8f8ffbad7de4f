-- ===== src/Http/Runs.antt =====
-- The requests of a run, in the order of their times.
use mathlib.Core.Path.{subst}
use mathlib.Core.List.{append_assoc, append-nil}
use lan_chat.Base.{
  ℕ, ◌≤◌, ◌<◌, ◌≡◌, refl, ap, Bool, true, false, List, [], ◌∷◌, ◌++◌, arith, length, if◌then◌else◌,
}
use lan_chat.Friends.Types.{World}
use lan_chat.Http.Throttle.{recent, send_window, send_max, auth_window, auth_max}
use lan_chat.Http.Window.{Step, Fits, Fits-step, noted_time, within}
use lan_chat.Http.Api.{Web, ApiRequest, Visit, Api, Reply, handle}
use lan_chat.Http.Limits.{is_refusal, is_attempt, handle-Counts}

pub record Call : Type 0 where
  pub is_post : Bool
  pub visit : Visit
  pub request : ApiRequest

-- The times of the calls whose answers pass a test.
abbrev pub times : (Reply → Bool) → List (ℕ × Reply) → List ℕ
times test [] = []
times test ((t, reply) ∷ trace) =
    let rest = times test trace in if test reply then t ∷ rest else rest

-- No call is before the time of the one that stands before it.
abbrev pub IsOrdered : ℕ → List Call → Type 0
IsOrdered last [] = Unit
IsOrdered last (c ∷ cs) = (last ≤ c.visit.env.now_ms) × IsOrdered c.visit.env.now_ms cs

module _ (w : World) (web : Web) where
  -- The answers with their times.
  unfoldable pub handle_all : List Call → Api → List (ℕ × Reply)
  unfolding handle
  handle_all [] a = []
  handle_all (c ∷ cs) a =
      let (reply, a') = handle w web c.is_post c.visit c.request a in
      (c.visit.env.now_ms, reply) ∷ handle_all cs a'

  -- The times of one test, after those that are admitted already.
  times_next :
      (test : Reply → Bool) (admitted : List ℕ) (t : ℕ) (reply : Reply) (trace : List (ℕ × Reply))
      → noted_time (test reply) t admitted ++ times test trace
        ≡ admitted ++ times test ((t, reply) ∷ trace)
  times_next test admitted t reply trace = next (test reply)
    where
      next :
          (b : Bool)
          → noted_time b t admitted ++ times test trace
            ≡ admitted ++ (if b then t ∷ times test trace else times test trace)
      next true = append_assoc admitted (t ∷ []) (times test trace)
      next false = refl

  bounded :
      (limit window : ℕ) (test : Reply → Bool) (bucket : Api → List ℕ)
      → 0 < window
      → ((c : Call) (a : Api)
          → let (reply, a') = handle w web c.is_post c.visit c.request a in
            Step limit window c.visit.env.now_ms (test reply) (bucket a) (bucket a'))
      → (cs : List Call) (a : Api) (last : ℕ) (admitted : List ℕ) → IsOrdered last cs
      → Fits limit window last admitted (bucket a)
      → (x : ℕ) → length (within window x (admitted ++ times test (handle_all cs a))) ≤ limit
  unfolding handle_all
  bounded limit window test bucket pos step [] a last admitted ord fits x =
      rw (append-nil admitted) (fits.bound x)
  bounded limit window test bucket pos step (c ∷ cs) a last admitted ord fits x =
      subst (λ ts. length (within window x ts) ≤ limit) (times_next test admitted _ _ _)
        (bounded limit window test bucket pos step cs _ c.visit.env.now_ms _ ord.1
          (Fits-step limit window last c.visit.env.now_ms _ pos ord.0 (step c a) fits) x)

  -- From empty windows, in every ten seconds of a run no more than ten answers refuse a token and no more
  -- than forty follow a place in the window of sends.
  pub handle_all-bounds :
      (cs : List Call) (a : Api)
      → IsOrdered 0 cs
      → a.auth_fails ≡ []
      → a.sends ≡ []
      → (x : ℕ)
      → (length (within auth_window x (times is_refusal (handle_all cs a))) ≤ auth_max)
        × (length (within send_window x (times is_attempt (handle_all cs a))) ≤ send_max)
  handle_all-bounds cs a ord fails sends x = (
    bounded auth_max auth_window is_refusal (λ b. b.auth_fails) (omega arith)
        (λ c b. (handle-Counts w web c.visit c.request b c.is_post).0) cs a 0 [] ord
        (empty _ _ fails) x,
    bounded send_max send_window is_attempt (λ b. b.sends) (omega arith)
        (λ c b. (handle-Counts w web c.visit c.request b c.is_post).1) cs a 0 [] ord
        (empty _ _ sends) x,
  )
    where
      empty : (limit window : ℕ) {bucket : List ℕ} → bucket ≡ [] → Fits limit window 0 [] bucket
      empty limit window e = record { bound = λ x. omega arith; current = ap (recent window 0) e }
