-- ===== src/Client/Connection.antt =====
-- `_communication_lock` of src/huawei_solar/huawei_solar.py: what one call of the client does within
-- it, and calls one after another, which is what the lock makes of them. Times are whole numbers, of
-- any unit. What is not the code's own is the argument `Round`: how the wait for the connection ends,
-- what the clock shows, how much longer than asked the sleep takes, and what the body does.
use huawei_solar_lib.Base.{
  ℕ, zero, suc, ◌+◌, ◌-◌, ◌≤◌, ◌<◌, ◌≡◌, refl, Bool, true, false, Option, none, some, List, [], ◌∷◌,
  arith, ap, if◌then◌else◌,
}
use huawei_solar_lib.Base.Lists.{length, filter_by, All}
use huawei_solar_lib.Exceptions.{Error, Result, ok, err, timeout_error}

pub record Connection : Type 0 where
  pub reconnect_task : Option ℕ
  -- the number of tasks created
  pub created : ℕ
  pub last_call_finished_at : Option ℕ

pub record Round (A : Type 0) : Type 0 where
  pub waited : Result (Unit {0})
  pub now : ℕ
  pub overslept : ℕ
  pub lasted : ℕ
  pub body : Result A

pub record Interval : Type 0 where
  pub started : ℕ
  pub finished : ℕ

-- What a call returns or raises, when its body ran, if it did, and the client afterwards.
pub record Locked (A : Type 0) : Type 0 where
  pub result : Result A
  pub ran : Option Interval
  pub connection : Connection

abbrev pub new_connection : Connection
new_connection = record { reconnect_task = none; created = 0; last_call_finished_at = none }

-- The time to sleep: a time of 0 counts as no time, and no negative time is slept.
unfoldable pub cooldown_needed : ℕ → Option ℕ → ℕ → ℕ
cooldown_needed cooldown_time none now = 0
cooldown_needed cooldown_time (some zero) now = 0
cooldown_needed cooldown_time (some (suc t)) now = suc t + cooldown_time - now

abbrev is_timeout : Error → Bool
is_timeout timeout_error = true
is_timeout _ = false

-- `except TimeoutError`
unfoldable note_timeout : Bool → Connection → Connection
note_timeout true c = record c { reconnect_task = some c.created; created = suc c.created }
note_timeout false c = c

abbrev add_interval : Option Interval → List Interval → List Interval
add_interval none rest = rest
add_interval (some i) rest = i ∷ rest

module _ {A : Type 0} (cooldown_time : ℕ) where
  unfoldable body_interval : Round A → Option ℕ → Interval
  unfolding cooldown_needed
  body_interval r last =
      let started = r.now + cooldown_needed cooldown_time last r.now + r.overslept in
      record { started = started; finished = started + r.lasted }

  unfoldable run : Round A → Result (Unit {0}) → Connection → Locked A
  unfolding note_timeout body_interval
  run r (err e) c = record {
    result = err e;
    ran = none;
    connection = note_timeout (is_timeout e) c;
  }
  run r (ok _) c = record {
    result = r.body;
    ran = some (body_interval r c.last_call_finished_at);
    connection = record c {
      last_call_finished_at = some (body_interval r c.last_call_finished_at).finished;
    };
  }

  unfoldable pub communication_lock : Round A → Connection → Locked A
  unfolding run
  communication_lock r c = run r r.waited c

  -- The times at which the bodies of calls run.
  unfoldable pub intervals : Connection → List (Round A) → List Interval
  unfolding communication_lock
  intervals c [] = []
  intervals c (r ∷ rounds) =
      add_interval (communication_lock r c).ran
        (intervals (communication_lock r c).connection rounds)

abbrev pub is_ok : {A : Type 0} → Result A → Bool
is_ok (ok _) = true
is_ok (err _) = false

abbrev Waited : ℕ → Option ℕ → Interval → Type 0
Waited cooldown_time none i = Unit
Waited cooldown_time (some t) i = t + cooldown_time ≤ i.started

-- Each interval begins at least the cooldown time behind the end of the one before it.
unfoldable pub IsSpaced : ℕ → Option ℕ → List Interval → Type 0
IsSpaced cooldown_time last [] = Unit
IsSpaced cooldown_time last (i ∷ rest) =
    Waited cooldown_time last i × IsSpaced cooldown_time (some i.finished) rest

abbrev IsPositive : Option ℕ → Type 0
IsPositive none = Unit
IsPositive (some t) = 0 < t

-- A time that is noted by neither branch is kept.
kept_time :
    (P : Option ℕ → Connection → Type 0) (timed_out : Bool) (c : Connection)
    → ((after : Connection) → P after.last_call_finished_at after)
    → P c.last_call_finished_at (note_timeout timed_out c)
unfolding note_timeout
kept_time P true c h = h _
kept_time P false c h = h _

module _ {A : Type 0} (cooldown_time : ℕ) where
  body_interval-Waited :
      (r : Round A) (last : Option ℕ)
      → IsPositive last
      → Waited cooldown_time last (body_interval cooldown_time r last)
  unfolding body_interval cooldown_needed
  body_interval-Waited r none p = tt
  body_interval-Waited r (some zero) p = absurd (omega arith)
  body_interval-Waited r (some (suc t)) p = omega arith

  run-IsSpaced :
      (r : Round A) (waited : Result (Unit {0})) (c : Connection)
      (rest : Connection → List Interval)
      → ((after : Connection)
          → IsPositive after.last_call_finished_at
          → IsSpaced cooldown_time after.last_call_finished_at (rest after))
      → 0 < r.now
      → IsPositive c.last_call_finished_at
      → IsSpaced cooldown_time c.last_call_finished_at (
          add_interval
            (run cooldown_time r waited c).ran
            (rest (run cooldown_time r waited c).connection))
  unfolding run IsSpaced body_interval
  run-IsSpaced r (ok _) c rest h now p =
      (body_interval-Waited r c.last_call_finished_at p, h _ (omega arith))
  run-IsSpaced r (err e) c rest h now p =
      kept_time (λ last after. IsPositive last → IsSpaced cooldown_time last (rest after))
        (is_timeout e) c h p

  intervals-IsSpaced_from :
      (rounds : List (Round A)) (c : Connection)
      → All (λ r. 0 < r.now) rounds
      → IsPositive c.last_call_finished_at
      → IsSpaced cooldown_time c.last_call_finished_at (intervals cooldown_time c rounds)
  unfolding intervals communication_lock IsSpaced
  intervals-IsSpaced_from [] c now p = tt
  intervals-IsSpaced_from (r ∷ rounds) c (n, now) p =
      run-IsSpaced r r.waited c (λ c. intervals cooldown_time c rounds)
        (λ c. intervals-IsSpaced_from rounds c now) n p

  run-length :
      (r : Round A) (rounds : List (Round A)) (c : Connection) (waited : Result (Unit {0}))
      → ((c : Connection)
          → length (intervals cooldown_time c rounds)
            ≡ length (filter_by (λ r. is_ok r.waited) rounds))
      → length {A = Interval} (
          add_interval
            (run cooldown_time r waited c).ran
            (intervals cooldown_time (run cooldown_time r waited c).connection rounds))
        ≡ length (
            if is_ok waited
            then r ∷ filter_by (λ r. is_ok r.waited) rounds
            else filter_by (λ r. is_ok r.waited) rounds)
  unfolding run
  run-length r rounds c (ok _) h = ap suc (h _)
  run-length r rounds c (err e) h = h _

  length-intervals :
      (rounds : List (Round A)) (c : Connection)
      → length (intervals cooldown_time c rounds) ≡ length (filter_by (λ r. is_ok r.waited) rounds)
  unfolding intervals communication_lock filter_by
  length-intervals [] c = refl
  length-intervals (r ∷ rounds) c = run-length r rounds c r.waited (length-intervals rounds)

  -- When calls are made one after another, the bodies of those for which the connection is there run,
  -- each at least the cooldown time behind the end of the one before it, also where a call raises or
  -- times out in between, as long as the clock does not show 0.
  pub intervals-IsSpaced :
      (rounds : List (Round A))
      → All (λ r. 0 < r.now) rounds
      → IsSpaced cooldown_time none (intervals cooldown_time new_connection rounds)
        × (length (intervals cooldown_time new_connection rounds)
            ≡ length (filter_by (λ r. is_ok r.waited) rounds))
  intervals-IsSpaced rounds now =
      (intervals-IsSpaced_from rounds new_connection now tt, length-intervals rounds new_connection)
