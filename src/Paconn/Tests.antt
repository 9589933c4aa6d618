-- ===== src/Paconn/Tests.antt =====
-- Agents at concrete messages.
use sutil.Prelude.Text.{Bytes, codes, text_eq}
use sutil.Prelude.Table.{find_at, put_at}
use sutil.Framing.{packdata, chunk}
use sutil.Paconn.{
  Agent, registered, wrote, written, returned, Event, put_at, twoway_called, resume, proto,
  come_to_select, twoway,
}
use sutil.Paconn.Message.{ConnProto, ProType, call_type, ack_type, heart_type, call_of, ack_of}
use sutil.Paconn.Run.{Step, calls_twoway, selects, receives, resumes, run, trace, recv_steps, step}
use sutil.Paconn.Calls.{IsAckOf, resume-IsAckOf}
use sutil.Paconn.Exchange.{twoway_is_answered}
use sutil.Paconn.Manager.{Life, added, ended}
use sutil.Paconn.Lives.{NotOf}
use sutil.Prelude.{
  ℕ, zero, suc, ◌+◌, ◌≡◌, refl, true, false, Option, none, some, List, [], ◌∷◌, ◌++◌, map,
  append-nil, arith, All, Some,
}
use sutil.Framing.Chunks.{concat}

-- an encoding: the type and the fields one behind the other, 0 for a field that is not set
abbrev type_code : ProType → ℕ
type_code call_type = 0
type_code ack_type = 1
type_code heart_type = 2

abbrev of_code : ℕ → ProType
of_code zero = call_type
of_code (suc zero) = ack_type
of_code (suc (suc n)) = heart_type

abbrev code_of : Option ℕ → ℕ
code_of none = 0
code_of (some n) = suc n

abbrev field_of : ℕ → Option ℕ
field_of zero = none
field_of (suc n) = some n

abbrev tail_of : Option Bytes → Bytes
tail_of none = []
tail_of (some d) = 0 ∷ d

abbrev data_of : Bytes → Option Bytes
data_of [] = none
data_of (c ∷ d) = some d

abbrev marshal : ConnProto → Bytes
marshal pb =
    type_code pb.pro_type
    ∷ code_of pb.msgid
    ∷ code_of pb.ackmsgid
    ∷ code_of pb.busstype
    ∷ tail_of pb.bussdata

abbrev unmarshal : Bytes → Option ConnProto
unmarshal (t ∷ m ∷ a ∷ b ∷ d) = some (record {
  pro_type = of_code t;
  msgid = field_of m;
  ackmsgid = field_of a;
  busstype = field_of b;
  bussdata = data_of d;
})
unmarshal _ = none

of_code-type_code : (t : ProType) → of_code (type_code t) ≡ t
of_code-type_code call_type = refl
of_code-type_code ack_type = refl
of_code-type_code heart_type = refl

field_of-code_of : (o : Option ℕ) → field_of (code_of o) ≡ o
field_of-code_of none = refl
field_of-code_of (some n) = refl

data_of-tail_of : (o : Option Bytes) → data_of (tail_of o) ≡ o
data_of-tail_of none = refl
data_of-tail_of (some d) = refl

decodes : (pb : ConnProto) → unmarshal (marshal pb) ≡ some pb
decodes pb = ground (
  arith,
  of_code-type_code pb.pro_type,
  field_of-code_of pb.msgid,
  field_of-code_of pb.ackmsgid,
  field_of-code_of pb.busstype,
  data_of-tail_of pb.bussdata,
)

abbrev echo : ℕ → Bytes → ℕ × Bytes
echo btype payload = (btype + 1, payload)

abbrev open_agent : Agent
open_agent = record {
  is_conn = true;
  callmsg = [];
  active_heart = false;
  has_oneway = false;
  two_way = some echo;
}

abbrev call_frame : Bytes
call_frame = packdata (marshal (call_of 5 7 (b'h' ∷ [])))

abbrev ack_frame : Bytes
ack_frame = packdata (marshal (ack_of 5 (echo 7 (b'h' ∷ []))))

abbrev answered : List Step
answered =
    calls_twoway 5 7 (b'h' ∷ []) wrote
    ∷ selects 5 false
    ∷ receives (marshal (ack_of 5 (8, b'h' ∷ []))) wrote
    ∷ []

twoway_is_answered_example :
    (trace marshal unmarshal (recv_steps (map chunk (call_frame ∷ []))) open_agent
      ≡ twoway_called 7 (b'h' ∷ []) ∷ written (concat (ack_frame ∷ [])) ∷ [])
    × (trace marshal unmarshal
          (calls_twoway 5 7 (b'h' ∷ []) wrote
            ∷ selects 5 false
            ∷ (recv_steps (map chunk (ack_frame ∷ [])) ++ (resumes 5 ∷ [])))
          open_agent
        ≡ written (concat (call_frame ∷ [])) ∷ returned 8 (b'h' ∷ []) ∷ [])
twoway_is_answered_example =
    twoway_is_answered marshal unmarshal decodes (call_frame ∷ []) (ack_frame ∷ []) 5 7 (b'h' ∷ [])
      echo open_agent open_agent (append-nil call_frame) (append-nil ack_frame)
      (omega arith, omega arith) (omega arith, omega arith) (λ e. omega arith) refl refl refl

abbrev result_event : List Event
result_event = returned 8 (b'h' ∷ []) ∷ []

returns_answer :
    (step marshal unmarshal (resumes 5) (run marshal unmarshal answered open_agent)).events
    ≡ result_event
unfolding step run find_at put_at resume proto come_to_select twoway
returns_answer = refl

resume-IsAckOf_example : Some (IsAckOf marshal unmarshal 5 8 (b'h' ∷ [])) answered
resume-IsAckOf_example =
    resume-IsAckOf marshal unmarshal 5 8 (b'h' ∷ []) answered open_agent refl returns_answer

abbrev closed_agent : Agent
closed_agent = record open_agent { is_conn = false }

abbrev sending_agent : Agent
sending_agent = record open_agent { callmsg = (5, registered) ∷ [] }

sending : find_at 5 sending_agent.callmsg ≡ some registered
unfolding find_at
sending = refl

abbrev others : List (Life ℕ)
others = added (codes "b") 2 ∷ ended (codes "b") ∷ []

others-NotOf : All (NotOf (codes "a")) others
unfolding text_eq
others-NotOf = (refl, (refl, tt))
