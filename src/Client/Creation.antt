-- ===== src/Client/Creation.antt =====
-- `create`, `create_rtu`, `stop` and `_reconnect` of `AsyncHuaweiSolar`,
-- src/huawei_solar/huawei_solar.py: the calls of pymodbus's client that they make, the last one
-- first. What these calls return or raise, by the calls before, is a parameter: `connect` returns a
-- Boolean, and what the others return stands for None.
use huawei_solar_lib.Base.{
  ℕ, Bool, true, false, ◌&&◌, ◌≡◌, Option, none, some, List, [], ◌∷◌, arith,
}
use huawei_solar_lib.Exceptions.{Error, Result, ok, err, connection_exception}
use huawei_solar_lib.Client.Connection.{is_ok}

pub data ClientCall : Type 0 where
  construct_call : ClientCall
  connect_call : ClientCall
  close_call : ClientCall
  sleep_call : ClientCall
  cancel_call : ClientCall

abbrev pub Replies : Type 0
Replies = ClientCall → List ClientCall → Result Bool

abbrev pub Traced : Type 0 → Type 0
Traced A = Result A × List ClientCall

module _ (replies : Replies) where
  unfoldable pub call_client : ClientCall → List ClientCall → Traced Bool
  call_client call before = (replies call before, call ∷ before)

  -- A call, and what follows where it raises or returns. No code looks at what `connect` returned.
  abbrev after :
      Traced Bool
      → (Error → List ClientCall → Traced (Unit {0}))
      → (List ClientCall → Traced (Unit {0}))
      → Traced (Unit {0})
  after (ok _, calls) raised returned = returned calls
  after (err e, calls) raised returned = raised e calls

  abbrev fail : Error → List ClientCall → Traced (Unit {0})
  fail e calls = (err e, calls)

  abbrev give_up : Error → List ClientCall → Traced (Unit {0})
  give_up _ calls = (err connection_exception, calls)

  abbrev done : List ClientCall → Traced (Unit {0})
  done calls = (ok tt, calls)

  -- `client.close()`, whose own error would take the place of the ConnectionException
  unfoldable pub close_and_give_up : Error → List ClientCall → Traced (Unit {0})
  unfolding call_client
  close_and_give_up e calls = after (call_client close_call calls) fail (give_up e)

  -- a client that could not be constructed is None and is not closed
  unfoldable pub create : Traced (Unit {0})
  unfolding call_client close_and_give_up
  create =
      after (call_client construct_call []) give_up
        (λ calls. after (call_client connect_call calls) close_and_give_up done)

  unfoldable pub create_rtu : Traced (Unit {0})
  unfolding call_client
  create_rtu = after (call_client construct_call []) give_up (λ calls.
      after (call_client connect_call calls) give_up
        (λ calls. after (call_client sleep_call calls) give_up done))

  unfoldable pub reconnect : List ClientCall → Traced (Unit {0})
  unfolding call_client
  reconnect calls =
      after (call_client close_call calls) fail
        (λ calls. after (call_client connect_call calls) fail done)

  -- A task that reconnects is cancelled first.
  unfoldable pub stop : Option ℕ → List ClientCall → Traced (Unit {0})
  unfolding call_client
  stop none calls = after (call_client close_call calls) fail done
  stop (some task) calls =
      after (call_client cancel_call calls) fail
        (λ calls. after (call_client close_call calls) fail done)

-- `connect` was called, whatever came of it, and `close` was not called behind it.
abbrev pub is_unclosed : List ClientCall → Bool
is_unclosed [] = false
is_unclosed (close_call ∷ calls) = false
is_unclosed (connect_call ∷ calls) = true
is_unclosed (construct_call ∷ calls) = is_unclosed calls
is_unclosed (sleep_call ∷ calls) = is_unclosed calls
is_unclosed (cancel_call ∷ calls) = is_unclosed calls

module _ (replies : Replies) where
  create_unclosed : is_unclosed (create replies).1 ≡ is_ok (create replies).0
  unfolding create call_client close_and_give_up
  create_unclosed = ground arith

  create_connects :
      is_ok (create replies).0
      ≡ (is_ok (replies construct_call []) && is_ok (replies connect_call (construct_call ∷ [])))
  unfolding create call_client close_and_give_up
  create_connects = ground arith

  create_rtu_unclosed : is_unclosed (create_rtu replies).1 ≡ is_ok (replies construct_call [])
  unfolding create_rtu call_client
  create_rtu_unclosed = ground arith

  -- `create` returns exactly if neither the construction of the pymodbus client nor `connect` raises,
  -- whichever Boolean `connect` returns, and exactly then it leaves a client on which `connect` was
  -- called and `close` was not. `create_rtu` leaves such a client whenever the construction did not
  -- raise, also where `create_rtu` itself raises.
  pub create-is_unclosed :
      (is_ok (create replies).0
        ≡ (is_ok (replies construct_call []) && is_ok (replies connect_call (construct_call ∷ []))))
      × (is_unclosed (create replies).1 ≡ is_ok (create replies).0)
      × (is_unclosed (create_rtu replies).1 ≡ is_ok (replies construct_call []))
  create-is_unclosed = (create_connects, create_unclosed, create_rtu_unclosed)
