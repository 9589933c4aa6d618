-- ===== src/Paconn/Closing.antt =====
-- What is left of an agent that was closed, and of a call whose answer came too early.
use sutil.Prelude.Text.{Bytes}
use sutil.Prelude.Table.{find_at, find_at-put_at}
use sutil.Paconn.Run.{selects, times_up, receives, step, trace}
use sutil.Paconn.{
  registered, waiting, Agent, Write, Event, written, conn_closed, gave_up, Out, on_decoded,
  dispatch, come_to_select, time_up, recv_ack, set_call, notify, proto, quiet, ack_timeout,
}
use sutil.Paconn.Message.{ConnProto, ack_type, or_zero}
use sutil.Prelude.{◌≡◌, refl, false, Option, some, [], ◌∷◌, arith, All}

-- nothing is written to the connection
abbrev pub Unwritten : Event → Type 0
Unwritten (written frame) = ⊥
Unwritten _ = Unit

abbrev Mute : Out → Type 0
Mute o = (o.agent.is_conn ≡ false) × All Unwritten o.events

module _ (marshal : ConnProto → Bytes) (unmarshal : Bytes → Option ConnProto) where
  early_ack :
      (pb : ConnProto) (w : Write) (a : Agent)
      → pb.pro_type ≡ ack_type
      → find_at (or_zero pb.ackmsgid) a.callmsg ≡ some registered
      → dispatch marshal pb.pro_type pb w a ≡ quiet a
  unfolding dispatch recv_ack notify
  early_ack pb w a t h = rw (t, h) refl

  -- An answer that comes while its call has sent its message and not yet come to its `select` is
  -- dropped: with no other answer the call waits to the end of its time and closes the connection.
  pub early_ack_closes :
      (payload : Bytes) (pb : ConnProto) (w : Write) (a : Agent)
      → unmarshal payload ≡ some pb
      → pb.pro_type ≡ ack_type
      → find_at (or_zero pb.ackmsgid) a.callmsg ≡ some registered
      → trace marshal unmarshal
          (receives payload w
            ∷ selects (or_zero pb.ackmsgid) false
            ∷ times_up (or_zero pb.ackmsgid)
            ∷ [])
          a
        ≡ conn_closed ∷ gave_up ack_timeout ∷ []
  unfolding trace step proto on_decoded come_to_select set_call time_up
  early_ack_closes payload pb w a u t h =
      rw
        (
          u,
          early_ack pb w a t h,
          h,
          find_at-put_at (or_zero pb.ackmsgid) (or_zero pb.ackmsgid) waiting a.callmsg,
        )
        (ground arith)
