-- ===== src/Paconn/Calls.antt =====
-- What the two-way calls of an agent are answered with.
use sutil.Paconn.Run.{
  Step, calls_oneway, calls_twoway, selects, times_up, resumes, receives, ticks, closes, step, run,
}
use sutil.Prelude.Text.{Bytes}
use sutil.Prelude.Table.{find_at, put_at, find_at-put_at, find_at-remove_at}
use sutil.Paconn.{
  Call, registered, waiting, notified, Agent, Write, close, send, after_write, oneway, twoway,
  come_to_select, time_up, resume, proto, on_decoded, dispatch, recv_ack, recv_call, recv_heart,
  notify, heart_tick, send_heart, set_call, drop_call, on_send, wrote, answer_of, wrote_less,
  write_failed, returned,
}
use sutil.Paconn.Message.{
  ConnProto, ProType, call_type, ack_type, heart_type, or_zero, or_empty, call_of, ack_of,
  heart_message,
}
use sutil.Prelude.{
  ℕ, ◌≡◌, Bool, Option, some, List, [], ◌∷◌, arith, ◌⊎◌, Option-cases, refl, inl, inr, none, Some,
}

module _ (marshal : ConnProto → Bytes) (unmarshal : Bytes → Option ConnProto) where
  -- the step is the arrival of the answer to the call `id`
  abbrev pub IsAckOf : ℕ → ℕ → Bytes → Step → Type 0
  IsAckOf id btype result (receives payload w) =
      (pb : ConnProto) × (unmarshal payload ≡ some pb)
      × (pb.pro_type ≡ ack_type)
      × (or_zero pb.ackmsgid ≡ id)
      × (or_zero pb.busstype ≡ btype)
      × (or_empty pb.bussdata ≡ result)
  IsAckOf id btype result _ = ⊥

  send-callmsg :
      (payload : Bytes) (w : Write) (a : Agent) → (send payload w a).agent.callmsg ≡ a.callmsg
  unfolding send after_write close
  send-callmsg payload wrote a = ground arith
  send-callmsg payload wrote_less a = ground arith
  send-callmsg payload write_failed a = ground arith

  module _ (id btype : ℕ) (result : Bytes) where
    abbrev Holds : Agent → Type 0
    Holds a = find_at id a.callmsg ≡ some (notified btype result)

    twoway-Holds :
        (other b : ℕ) (payload : Bytes) (w : Write) (a : Agent)
        → Holds (twoway marshal other b payload w a).agent
        → Holds a
    unfolding twoway on_send set_call drop_call
    twoway-Holds other b payload w a h =
        let m = marshal (call_of other b payload) in
        let a2 = set_call other registered a in
        ground (
          arith,
          send-callmsg m w (set_call other registered a),
          Option-cases (send m w (set_call other registered a)).err,
          find_at-put_at other id registered a.callmsg,
          find_at-remove_at other id (put_at other registered a.callmsg),
        )

    select-Holds :
        (other : ℕ) (late : Bool) (c : Option Call) (a : Agent)
        → Holds (come_to_select other late c a).agent
        → Holds a
    unfolding come_to_select set_call drop_call
    select-Holds other late c a h =
        ground
          (arith, find_at-put_at other id waiting a.callmsg, find_at-remove_at other id a.callmsg)

    time_up-Holds :
        (other : ℕ) (c : Option Call) (a : Agent) → Holds (time_up other c a).agent → Holds a
    unfolding time_up drop_call close
    time_up-Holds other c a h = ground (arith, find_at-remove_at other id a.callmsg)

    resume-Holds :
        (other : ℕ) (c : Option Call) (a : Agent) → Holds (resume other c a).agent → Holds a
    unfolding resume drop_call
    resume-Holds other c a h = ground (arith, find_at-remove_at other id a.callmsg)

    recv_call-Holds :
        (pb : ConnProto) (w : Write) (a : Agent) → Holds (recv_call marshal pb w a).agent → Holds a
    unfolding recv_call
    recv_call-Holds pb w a h = ground (
      arith,
      send-callmsg
          (marshal (
            ack_of (or_zero pb.msgid)
              (answer_of a.two_way (or_zero pb.busstype) (or_empty pb.bussdata))))
          w a,
    )

    heart-Holds : (w : Write) (a : Agent) → Holds (send_heart marshal w a).agent → Holds a
    unfolding send_heart
    heart-Holds w a h = ground (arith, send-callmsg (marshal heart_message) w a)

    recv_ack-Holds :
        (pb : ConnProto) (a : Agent)
        → Holds (recv_ack pb a).agent
        → Holds a
          ⊎ ((or_zero pb.ackmsgid ≡ id)
              × (or_zero pb.busstype ≡ btype)
              × (or_empty pb.bussdata ≡ result))
    unfolding recv_ack notify set_call
    recv_ack-Holds pb a h = ground (
      arith,
      find_at-put_at (or_zero pb.ackmsgid) id
          (notified (or_zero pb.busstype) (or_empty pb.bussdata)) a.callmsg,
    )

    oneway-Holds :
        (b : ℕ) (payload : Bytes) (w : Write) (a : Agent)
        → Holds (oneway marshal b payload w a).agent
        → Holds a
    unfolding oneway
    oneway-Holds b payload w a h = ground (
      arith,
      send-callmsg
          (marshal (record {
            pro_type = call_type;
            msgid = none;
            ackmsgid = none;
            busstype = some b;
            bussdata = some payload;
          }))
          w a,
    )

    recv_heart-Holds : (w : Write) (a : Agent) → Holds (recv_heart marshal w a).agent → Holds a
    unfolding recv_heart
    recv_heart-Holds w a h = ground (arith, heart-Holds w a)

    tick-Holds : (w : Write) (a : Agent) → Holds (heart_tick marshal w a).agent → Holds a
    unfolding heart_tick
    tick-Holds w a h = ground (arith, heart-Holds w a)

    decoded-Holds :
        (payload : Bytes) (o : Option ConnProto) (w : Write) (a : Agent)
        → unmarshal payload ≡ o
        → Holds (on_decoded marshal o w a).agent
        → Holds a ⊎ IsAckOf id btype result (receives payload w)
    unfolding on_decoded close dispatch
    decoded-Holds payload none w a e h = inl h
    decoded-Holds payload (some pb) w a e h = by_type pb.pro_type refl h
      where
        by_type :
            (t : ProType)
            → pb.pro_type ≡ t
            → Holds (dispatch marshal t pb w a).agent
            → Holds a ⊎ IsAckOf id btype result (receives payload w)
        by_type call_type q k = inl (recv_call-Holds pb w a k)
        by_type heart_type q k = inl (recv_heart-Holds w a k)
        by_type ack_type q k = elim (recv_ack-Holds pb a k) [
          | inl old ↦ inl old
          | inr (i, b, r) ↦ inr (pb, e, q, i, b, r)
        ]

    step-Holds :
        (s : Step) (a : Agent)
        → Holds (step marshal unmarshal s a).agent
        → Holds a ⊎ IsAckOf id btype result s
    unfolding step close proto
    step-Holds (calls_oneway b payload w) a h = inl (oneway-Holds b payload w a h)
    step-Holds (calls_twoway other b payload w) a h = inl (twoway-Holds other b payload w a h)
    step-Holds (selects other late) a h =
        inl (select-Holds other late (find_at other a.callmsg) a h)
    step-Holds (times_up other) a h = inl (time_up-Holds other (find_at other a.callmsg) a h)
    step-Holds (resumes other) a h = inl (resume-Holds other (find_at other a.callmsg) a h)
    step-Holds (receives payload w) a h = decoded-Holds payload (unmarshal payload) w a refl h
    step-Holds (ticks w) a h = inl (tick-Holds w a h)
    step-Holds closes a h = inl h

    run-Holds :
        (ss : List Step) (a : Agent)
        → Holds (run marshal unmarshal ss a)
        → Holds a ⊎ Some (IsAckOf id btype result) ss
    unfolding run
    run-Holds [] a h = inl h
    run-Holds (s ∷ ss) a h = elim (run-Holds ss (step marshal unmarshal s a).agent h) [
      | inr later ↦ inr (inr later)
      | inl now ↦ elim (step-Holds s a now) [ inl old ↦ inl old | inr ack ↦ inr (inl ack) ]
    ]

    resumed :
        (c : Option Call) (a : Agent)
        → (resume id c a).events ≡ returned btype result ∷ []
        → c ≡ some (notified btype result)
    unfolding resume
    resumed c a h = ground arith

    -- A two-way call that returns a result returns what one of the received answers carried, and that
    -- answer bore the call's own message id: on an agent that began without calls, whatever calls,
    -- messages, ticks and closings came before and between.
    pub resume-IsAckOf :
        (ss : List Step) (a : Agent)
        → a.callmsg ≡ []
        → (step marshal unmarshal (resumes id) (run marshal unmarshal ss a)).events
          ≡ returned btype result ∷ []
        → Some (IsAckOf id btype result) ss
    unfolding step find_at
    resume-IsAckOf ss a e h =
        let end = run marshal unmarshal ss a in
        elim (run-Holds ss a (resumed (find_at id end.callmsg) end h)) [
          | inl old ↦ absurd (ground (arith, old, e))
          | inr ack ↦ ack
        ]
