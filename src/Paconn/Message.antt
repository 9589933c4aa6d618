-- ===== src/Paconn/Message.antt =====
-- paconn/pb/connproto.proto: the message that a frame carries, with the getters of its fields and the
-- messages that agent.go makes. Decoding refuses a type that the protocol does not have.
use sutil.Prelude.{ℕ, Option, none, some, []}
use sutil.Prelude.Text.{Bytes}

pub data ProType : Type 0 where
  call_type : ProType
  ack_type : ProType
  heart_type : ProType

-- A field that is not set is none; `busstype` is an int32, kept as its bits.
pub record ConnProto : Type 0 where
  pub pro_type : ProType
  pub msgid : Option ℕ
  pub ackmsgid : Option ℕ
  pub busstype : Option ℕ
  pub bussdata : Option Bytes

-- the getters, with the zero values of fields that are not set
abbrev pub or_zero : Option ℕ → ℕ
or_zero (some n) = n
or_zero none = 0

abbrev pub or_empty : Option Bytes → Bytes
or_empty (some d) = d
or_empty none = []

abbrev pub call_of : ℕ → ℕ → Bytes → ConnProto
call_of id btype payload = record {
  pro_type = call_type;
  msgid = some id;
  ackmsgid = none;
  busstype = some btype;
  bussdata = some payload;
}

abbrev pub ack_of : ℕ → ℕ × Bytes → ConnProto
ack_of id answer = record {
  pro_type = ack_type;
  msgid = none;
  ackmsgid = some id;
  busstype = some answer.0;
  bussdata = some answer.1;
}

abbrev pub heart_message : ConnProto
heart_message = record {
  pro_type = heart_type;
  msgid = none;
  ackmsgid = none;
  busstype = none;
  bussdata = none;
}
