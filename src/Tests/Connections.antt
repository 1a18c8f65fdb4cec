-- ===== src/Tests/Connections.antt =====
-- Calls on one connection, and a serial port whose device does not answer.
use huawei_solar_lib.Base.{◌≡◌, true, false, none, List, [], ◌∷◌, arith}
use huawei_solar_lib.Base.Lists.{length, filter_by}
use huawei_solar_lib.Exceptions.{ok, err, timeout_error}
use huawei_solar_lib.Client.Connection.{
  Round, new_connection, intervals, IsSpaced, is_ok, intervals-IsSpaced,
}
use huawei_solar_lib.Client.Creation.{
  Replies, connect_call, create, create_rtu, is_unclosed, create-is_unclosed,
}

-- The second wait times out, the third call follows at once on the first, and its body raises.
abbrev rounds : List (Round (Unit {0}))
rounds =
    record { waited = ok tt; now = 10; overslept = 0; lasted = 3; body = ok tt }
    ∷ record { waited = err timeout_error; now = 14; overslept = 0; lasted = 0; body = ok tt }
    ∷ record { waited = ok tt; now = 15; overslept = 1; lasted = 2; body = err timeout_error }
    ∷ []

intervals-IsSpaced_example :
    IsSpaced 50 none (intervals 50 new_connection rounds)
    × (length (intervals 50 new_connection rounds)
        ≡ length (filter_by (λ r. is_ok r.waited) rounds))
intervals-IsSpaced_example =
    intervals-IsSpaced 50 rounds (omega arith, (omega arith, (omega arith, tt)))

abbrev no_connection : Replies
no_connection connect_call calls = err timeout_error
no_connection _ calls = ok false

create-is_unclosed_example :
    (is_ok (create no_connection).0 ≡ false)
    × (is_unclosed (create no_connection).1 ≡ is_ok (create no_connection).0)
    × (is_unclosed (create_rtu no_connection).1 ≡ true)
create-is_unclosed_example = create-is_unclosed no_connection
