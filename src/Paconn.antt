-- ===== src/Paconn.antt =====
-- paconn/agent.go: one end of a connection that carries one-way and two-way calls in frames. What a
-- write to the connection does, the time and the moment at which a waiting call runs are inputs; what
-- the agent does to its surroundings is a list of events. The encoding of a message by protobuf is a
-- parameter.
pub mod Message
pub mod Run
pub mod Calls
pub mod Exchange
pub mod Closing
pub mod Manager
pub mod Lives
mod Tests
use sutil.Paconn.Message.{
  ProType, call_type, ack_type, heart_type, ConnProto, or_zero, or_empty, call_of, ack_of,
  heart_message,
}
use sutil.Prelude.Text.{Bytes}
use sutil.Prelude.Table.{Table, find_at, put_at, remove_at}
use sutil.Framing.{packdata}
use sutil.Prelude.{
  ℕ, Bool, false, ◌&&◌, Option, none, some, List, [], ◌∷◌, ◌++◌, ◌==◌, if◌then◌else◌,
}

-- An entry of `callmsg`: the call has not come to its `select`, it waits there, or it was handed the
-- answer.
pub data Call : Type 0 where
  registered : Call
  waiting : Call
  notified : ℕ → Bytes → Call

-- `has_oneway` says that the callback is set; `two_way` is the other callback, if it is set.
pub record Agent : Type 0 where
  pub is_conn : Bool
  pub callmsg : Table Call
  pub active_heart : Bool
  pub has_oneway : Bool
  pub two_way : Option (ℕ → Bytes → ℕ × Bytes)

-- what `conn.Write` does
pub data Write : Type 0 where
  wrote : Write
  wrote_less : Write
  write_failed : Write

pub data SendError : Type 0 where
  not_ok : SendError
  bad_write : SendError
  bad_length : SendError
  send_timeout : SendError
  ack_timeout : SendError

pub data Event : Type 0 where
  written : Bytes → Event
  conn_closed : Event
  oneway_called : ℕ → Bytes → Event
  twoway_called : ℕ → Bytes → Event
  returned : ℕ → Bytes → Event
  gave_up : SendError → Event
  close_called : Bytes → Event

pub record Out : Type 0 where
  pub agent : Agent
  pub err : Option SendError
  pub events : List Event

unfoldable pub close : Agent → Agent
close a = record a { is_conn = false }

abbrev pub quiet : Agent → Out
quiet a = record { agent = a; err = none; events = [] }

abbrev pub before : List Event → Out → Out
before es o = record o { events = es ++ o.events }

-- behind the write of `frame`
unfoldable pub after_write : Bytes → Write → Agent → Out
unfolding close
after_write frame wrote a = record { agent = a; err = none; events = written frame ∷ [] }
after_write frame write_failed a = record {
  agent = close a;
  err = some bad_write;
  events = conn_closed ∷ [];
}
after_write frame wrote_less a = record {
  agent = close a;
  err = some bad_length;
  events = conn_closed ∷ [];
}

unfoldable pub send : Bytes → Write → Agent → Out
unfolding after_write
send payload w a =
    if a.is_conn
    then after_write (packdata payload) w a
    else record { agent = a; err = some not_ok; events = [] }

unfoldable pub set_call : ℕ → Call → Agent → Agent
set_call id c a = record a { callmsg = put_at id c a.callmsg }

-- the deferred `delete(m.callmsg, msgid)`
unfoldable pub drop_call : ℕ → Agent → Agent
drop_call id a = record a { callmsg = remove_at id a.callmsg }

unfoldable pub on_send : ℕ → Option SendError → Out → Out
unfolding drop_call
on_send id none o = o
on_send id (some e) o = record {
  agent = drop_call id o.agent;
  err = some e;
  events = o.events ++ (gave_up e ∷ []);
}

-- `Twoway` behind `send`: it comes to its `select` unless the send alone took the whole time.
unfoldable pub come_to_select : ℕ → Bool → Option Call → Agent → Out
unfolding drop_call set_call
come_to_select id late (some registered) a =
    if late
    then record {
      agent = drop_call id a;
      err = some send_timeout;
      events = gave_up send_timeout ∷ [];
    }
    else quiet (set_call id waiting a)
come_to_select id late _ a = quiet a

-- the `select` of `Twoway`, at the end of its time or when it was handed the answer
unfoldable pub time_up : ℕ → Option Call → Agent → Out
unfolding close drop_call
time_up id (some waiting) a = record {
  agent = drop_call id (close a);
  err = some ack_timeout;
  events = conn_closed ∷ gave_up ack_timeout ∷ [];
}
time_up id _ a = quiet a

unfoldable pub resume : ℕ → Option Call → Agent → Out
unfolding drop_call
resume id (some (notified btype result)) a = record {
  agent = drop_call id a;
  err = none;
  events = returned btype result ∷ [];
}
resume id _ a = quiet a

-- `recvACK`, with the entry of its message id: only a call that waits takes the answer
unfoldable pub notify : ℕ → ℕ → Bytes → Option Call → Agent → Agent
unfolding set_call
notify id btype result (some waiting) a = set_call id (notified btype result) a
notify id btype result _ a = a

unfoldable pub recv_ack : ConnProto → Agent → Out
unfolding notify
recv_ack pb a = quiet (
    notify (or_zero pb.ackmsgid) (or_zero pb.busstype) (or_empty pb.bussdata)
      (find_at (or_zero pb.ackmsgid) a.callmsg) a)

-- what the callback answers; without a callback, the zero values
unfoldable pub answer_of : Option (ℕ → Bytes → ℕ × Bytes) → ℕ → Bytes → ℕ × Bytes
answer_of none btype payload = (0, [])
answer_of (some f) btype payload = f btype payload

unfoldable pub twoway_calls : Option (ℕ → Bytes → ℕ × Bytes) → ℕ → Bytes → List Event
twoway_calls none btype payload = []
twoway_calls (some f) btype payload = twoway_called btype payload ∷ []

-- An error of sending the answer is only logged.
abbrev pub logged : Out → Out
logged o = record o { err = none }

module _ (marshal : ConnProto → Bytes) where
  unfoldable pub oneway : ℕ → Bytes → Write → Agent → Out
  unfolding send
  oneway btype payload w a =
      send
        (marshal (record {
          pro_type = call_type;
          msgid = none;
          ackmsgid = none;
          busstype = some btype;
          bussdata = some payload;
        }))
        w a

  -- `Twoway` up to the return of `send`
  unfoldable pub twoway : ℕ → ℕ → Bytes → Write → Agent → Out
  unfolding on_send send set_call
  twoway id btype payload w a =
      let o = send (marshal (call_of id btype payload)) w (set_call id registered a) in
      on_send id o.err o

  unfoldable pub recv_call : ConnProto → Write → Agent → Out
  unfolding send answer_of twoway_calls
  recv_call pb w a =
      if or_zero pb.msgid == 0
      then record {
        agent = a;
        err = none;
        events =
            if a.has_oneway
            then oneway_called (or_zero pb.busstype) (or_empty pb.bussdata) ∷ []
            else [];
      }
      else before (twoway_calls a.two_way (or_zero pb.busstype) (or_empty pb.bussdata)) (
          logged (
            send
              (marshal (
                ack_of (or_zero pb.msgid)
                  (answer_of a.two_way (or_zero pb.busstype) (or_empty pb.bussdata))))
              w a))

  unfoldable pub send_heart : Write → Agent → Out
  unfolding send
  send_heart w a = logged (send (marshal heart_message) w a)

  unfoldable pub recv_heart : Write → Agent → Out
  unfolding send_heart
  recv_heart w a = if a.active_heart then quiet a else send_heart w a

  -- one tick of `heart`, which runs only where the heart is active
  unfoldable pub heart_tick : Write → Agent → Out
  unfolding send_heart
  heart_tick w a = if a.active_heart && a.is_conn then send_heart w a else quiet a

  unfoldable pub dispatch : ProType → ConnProto → Write → Agent → Out
  unfolding recv_ack recv_call recv_heart
  dispatch ack_type pb w a = recv_ack pb a
  dispatch call_type pb w a = recv_call pb w a
  dispatch heart_type pb w a = recv_heart w a

  unfoldable pub on_decoded : Option ConnProto → Write → Agent → Out
  unfolding dispatch close
  on_decoded none w a = record { agent = close a; err = none; events = conn_closed ∷ [] }
  on_decoded (some pb) w a = dispatch pb.pro_type pb w a

  -- `proto`, the callback of `PackageSplit`; the write is that of the answer, if one is sent
  unfoldable pub proto : (Bytes → Option ConnProto) → Bytes → Write → Agent → Out
  unfolding on_decoded
  proto unmarshal payload w a = on_decoded (unmarshal payload) w a
