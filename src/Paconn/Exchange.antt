-- ===== src/Paconn/Exchange.antt =====
-- A two-way call between two agents, over a connection that cuts the frames as it likes.
use sutil.Prelude.Text.{Bytes}
use sutil.Prelude.Table.{find_at, find_at-put_at}
use sutil.Framing.{packdata, chunk, package_split, reading}
use sutil.Framing.RoundTrip.{InRange}
use sutil.Framing.Chunks.{concat, package_split-pack_all}
use sutil.Paconn.Run.{calls_twoway, selects, resumes, receives, step, trace, recv_steps}
use sutil.Paconn.{
  Call, registered, waiting, notified, Agent, Write, wrote, written, twoway_called, returned, send,
  after_write, set_call, proto, on_decoded, dispatch, recv_call, twoway_calls, answer_of, twoway,
  come_to_select, recv_ack, resume, on_send, quiet, notify,
}
use sutil.Paconn.Message.{ConnProto, call_of, ack_of}
use sutil.Prelude.{
  ℕ, ◌≡◌, refl, sym, ◌∙◌, ◌≢◌, true, Option, none, some, List, [], ◌∷◌, map, append-nil, arith,
  false, ◌++◌,
}

-- a connection that delivers one frame delivers its one message
recv_steps-packdata :
    (cs : List Bytes) (m : Bytes)
    → concat cs ≡ packdata m
    → InRange 1 5120 m
    → recv_steps (map chunk cs) ≡ receives m wrote ∷ []
unfolding recv_steps
recv_steps-packdata cs m e r =
    let whole : package_split (map chunk cs) ≡ record { calls = m ∷ []; state = reading [] } =
      package_split-pack_all cs (m ∷ []) (e ∙ sym (append-nil (packdata m))) (r, tt) in
    rw whole refl

module _ (marshal : ConnProto → Bytes) (unmarshal : Bytes → Option ConnProto)
    (decodes : (pb : ConnProto) → unmarshal (marshal pb) ≡ some pb) where
  send_well :
      (payload : Bytes) (a : Agent)
      → a.is_conn ≡ true
      → send payload wrote a
        ≡ record { agent = a; err = none; events = written (packdata payload) ∷ [] }
  unfolding send after_write
  send_well payload a h = ground (arith, h)

  callee :
      (id btype : ℕ) (payload : Bytes) (f : ℕ → Bytes → ℕ × Bytes) (b : Agent)
      → id ≢ 0
      → b.is_conn ≡ true
      → b.two_way ≡ some f
      → trace marshal unmarshal (receives (marshal (call_of id btype payload)) wrote ∷ []) b
        ≡ twoway_called btype payload
          ∷ written (packdata (marshal (ack_of id (f btype payload))))
          ∷ []
  unfolding trace step proto on_decoded dispatch recv_call twoway_calls answer_of
  callee id btype payload f b n c t =
      rw (decodes (call_of id btype payload), t)
        (ground (arith, n, send_well (marshal (ack_of id (f btype payload))) b c))

  find_at-set_call : (id : ℕ) (c : Call) (a : Agent) → find_at id (set_call id c a).callmsg ≡ some c
  unfolding set_call
  find_at-set_call id c a = ground (arith, find_at-put_at id id c a.callmsg)

  calls_step :
      (id btype : ℕ) (payload : Bytes) (a : Agent)
      → a.is_conn ≡ true
      → step marshal unmarshal (calls_twoway id btype payload wrote) a ≡ record {
        agent = set_call id registered a;
        err = none;
        events = written (packdata (marshal (call_of id btype payload))) ∷ [];
      }
  unfolding step twoway on_send set_call
  calls_step id btype payload a c =
      rw (send_well (marshal (call_of id btype payload)) (set_call id registered a) c) refl

  selects_step :
      (id : ℕ) (a : Agent)
      → find_at id a.callmsg ≡ some registered
      → step marshal unmarshal (selects id false) a ≡ quiet (set_call id waiting a)
  unfolding step come_to_select
  selects_step id a h = rw h refl

  ack_step :
      (id : ℕ) (answer : ℕ × Bytes) (w : Write) (a : Agent)
      → find_at id a.callmsg ≡ some waiting
      → step marshal unmarshal (receives (marshal (ack_of id answer)) w) a
        ≡ quiet (set_call id (notified answer.0 answer.1) a)
  unfolding step proto on_decoded dispatch recv_ack notify
  ack_step id answer w a h = rw (decodes (ack_of id answer), h) refl

  resumes_step :
      (id btype : ℕ) (result : Bytes) (a : Agent)
      → find_at id a.callmsg ≡ some (notified btype result)
      → (step marshal unmarshal (resumes id) a).events ≡ returned btype result ∷ []
  unfolding step resume
  resumes_step id btype result a h = rw h refl

  caller :
      (id btype : ℕ) (payload : Bytes) (answer : ℕ × Bytes) (a : Agent)
      → a.is_conn ≡ true
      → trace marshal unmarshal
          (calls_twoway id btype payload wrote
            ∷ selects id false
            ∷ receives (marshal (ack_of id answer)) wrote
            ∷ resumes id
            ∷ [])
          a
        ≡ written (packdata (marshal (call_of id btype payload))) ∷ returned answer.0 answer.1 ∷ []
  unfolding trace
  caller id btype payload answer a c =
      let a1 = set_call id registered a in
      let a2 = set_call id waiting a1 in
      let a3 = set_call id (notified answer.0 answer.1) a2 in
      rw
        (
          calls_step id btype payload a c,
          selects_step id a1 (find_at-set_call id registered a),
          ack_step id answer wrote a2 (find_at-set_call id waiting a1),
          resumes_step id answer.0 answer.1 a3
              (find_at-set_call id (notified answer.0 answer.1) a2),
        )
        refl

  -- A two-way call is answered. The caller writes one frame; however the connection cuts it, the callee
  -- that reads it calls its callback with the call's type and data, and writes one frame; however that
  -- is cut, the caller, once it waits and reads it, returns just what the callback answered. This is for
  -- open agents, a message id that is not 0, an encoding that is decoded again, messages that fit a
  -- frame of 1 to 5120 bytes, and writes that succeed.
  pub twoway_is_answered :
      (cs ds : List Bytes) (id btype : ℕ) (payload : Bytes) (f : ℕ → Bytes → ℕ × Bytes)
      (a b : Agent)
      → concat cs ≡ packdata (marshal (call_of id btype payload))
      → concat ds ≡ packdata (marshal (ack_of id (f btype payload)))
      → InRange 1 5120 (marshal (call_of id btype payload))
      → InRange 1 5120 (marshal (ack_of id (f btype payload)))
      → id ≢ 0
      → a.is_conn ≡ true
      → b.is_conn ≡ true
      → b.two_way ≡ some f
      → (trace marshal unmarshal (recv_steps (map chunk cs)) b
          ≡ twoway_called btype payload ∷ written (concat ds) ∷ [])
        × (trace marshal unmarshal
              (calls_twoway id btype payload wrote
                ∷ selects id false
                ∷ (recv_steps (map chunk ds) ++ (resumes id ∷ [])))
              a
            ≡ written (concat cs) ∷ returned (f btype payload).0 (f btype payload).1 ∷ [])
  twoway_is_answered cs ds id btype payload f a b e g i j n c d t = (
    rw (recv_steps-packdata cs _ e i, g) (callee id btype payload f b n d t),
    rw (recv_steps-packdata ds _ g j, e) (caller id btype payload (f btype payload) a c),
  )
