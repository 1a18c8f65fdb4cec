-- ===== src/Bridge/SessionState.antt =====
-- The state of the login and the heartbeat of a bridge of src/huawei_solar/bridge.py: the client that
-- it calls, and methods that change it.
use Prim.Native.String.{String}
use text.Mathlib.Text.{◌==◌ as str_eq}
use huawei_solar_lib.Base.{ℕ, Bool, false, not, Option, none, some, List, ◌==◌}
use huawei_solar_lib.Base.Lists.{filter_by}
use huawei_solar_lib.Exceptions.{Error, Result, ok, err}
use huawei_solar_lib.Payload.{Bytes}

-- The calls of the client: `login` with the slave that was passed, if any.
pub data Call (V : Type 0) : Type 0 where
  login_call : Option ℕ → String → String → Call V
  heartbeat_call : ℕ → Call V
  set_call : String → V → ℕ → Call V
  get_file_call : ℕ → Option Bytes → ℕ → Call V
  get_call : String → ℕ → Call V
  stop_call : Call V

-- What the methods of `AsyncHuaweiSolar` return or raise, by the calls before.
pub record Client (V : Type 0) : Type 0 where
  pub login : List (Call V) → Option ℕ → String → String → Result Bool
  pub heartbeat : List (Call V) → ℕ → Result Bool
  pub set : List (Call V) → String → V → ℕ → Result Bool
  pub get_file : List (Call V) → ℕ → Option Bytes → ℕ → Result Bytes
  -- the value of the register
  pub get : List (Call V) → String → ℕ → Result V
  pub stop : List (Call V) → Result (Unit {0})

pub record Session (V : Type 0) : Type 0 where
  pub heartbeat_enabled : Bool
  pub heartbeat_task : Option ℕ
  pub username : Option String
  pub password : Option String
  -- the number of tasks created, those that run, and whether the last one that was created ended
  -- with an error that its loop does not catch
  pub created : ℕ
  pub running : List ℕ
  pub crashed : Bool
  pub calls : List (Call V)

-- A method that changes the session: what it returns or raises, and the session afterwards.
abbrev pub Action : Type 0 → Type 0 → Type 0
Action V A = Session V → Result A × Session V

abbrev pub after : {V A B : Type 0} → Result A × Session V → (A → Action V B) → Result B × Session V
after (ok a, s) next = next a s
after (err e, s) next = (err e, s)

infixl 5 ◌>>=◌
abbrev pub ◌>>=◌ : {V A B : Type 0} → Action V A → (A → Action V B) → Action V B
◌>>=◌ m next s = after (m s) next

abbrev pub pure : {V A : Type 0} → A → Action V A
pure a s = (ok a, s)

abbrev pub raise : {V A : Type 0} → Error → Action V A
raise e s = (err e, s)

abbrev pub handle :
    {V A : Type 0} → (Error → Action V A) → Result A × Session V → Result A × Session V
handle handler (ok a, s) = (ok a, s)
handle handler (err e, s) = handler e s

-- `try … except`: the handler sees every error, and raises the others again.
abbrev pub catching : {V A : Type 0} → Action V A → (Error → Action V A) → Action V A
catching m handler s = handle handler (m s)

-- the truth of a text that may be None
abbrev pub truth : Option String → Bool
truth none = false
truth (some text) = not (str_eq text "")

abbrev pub text_of : Option String → String
text_of none = ""
text_of (some text) = text

-- `task.cancel()`
abbrev pub cancel : Option ℕ → List ℕ → List ℕ
cancel none tasks = tasks
cancel (some task) tasks = filter_by (λ t. not (t == task)) tasks
