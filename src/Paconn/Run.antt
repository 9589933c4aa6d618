-- ===== src/Paconn/Run.antt =====
-- paconn/agent.go: a run of an agent, as the steps that its goroutines make in the order in which its
-- locks let them. `recv` makes the steps of the messages that `PackageSplit` cuts out, `heart` those of
-- the ticks, and each call of `Twoway` the steps of its own message id.
use sutil.Prelude.Table.{find_at}
use sutil.Framing.{Split, closed, broke, reading, Read, package_split}
use sutil.Paconn.{
  close_called, wrote, conn_closed, Agent, Write, Event, Out, close, oneway, twoway, come_to_select,
  time_up, resume, proto, heart_tick, quiet,
}
use sutil.Paconn.Message.{ConnProto}
use sutil.Prelude.{ℕ, Bool, Option, List, [], ◌∷◌, ◌++◌, none, map}
use sutil.Prelude.Text.{Bytes}

-- what happens to an agent, in the order in which its locks let it happen
pub data Step : Type 0 where
  calls_oneway : ℕ → Bytes → Write → Step
  calls_twoway : ℕ → ℕ → Bytes → Write → Step
  selects : ℕ → Bool → Step
  times_up : ℕ → Step
  resumes : ℕ → Step
  receives : Bytes → Write → Step
  ticks : Write → Step
  closes : Step

module _ (marshal : ConnProto → Bytes) (unmarshal : Bytes → Option ConnProto) where
  unfoldable pub step : Step → Agent → Out
  step (calls_oneway btype payload w) a = oneway marshal btype payload w a
  step (calls_twoway id btype payload w) a = twoway marshal id btype payload w a
  step (selects id late) a = come_to_select id late (find_at id a.callmsg) a
  step (times_up id) a = time_up id (find_at id a.callmsg) a
  step (resumes id) a = resume id (find_at id a.callmsg) a
  step (receives payload w) a = proto marshal unmarshal payload w a
  step (ticks w) a = heart_tick marshal w a
  step closes a = quiet (close a)

  unfoldable pub run : List Step → Agent → Agent
  unfolding step
  run [] a = a
  run (s ∷ ss) a = run ss (step s a).agent

  unfoldable pub trace : List Step → Agent → List Event
  unfolding step
  trace [] a = []
  trace (s ∷ ss) a = (step s a).events ++ trace ss (step s a).agent

-- the end of `recv`: `PackageSplit` returned that the connection is closed, or broke off; the bytes are
-- those that the callback `cbClose` is handed
unfoldable pub after_recv : Split → Agent → Out
unfolding close
after_recv closed a = record { agent = a; err = none; events = close_called [] ∷ [] }
after_recv (broke b stop) a = record {
  agent = close a;
  err = none;
  events = conn_closed ∷ close_called b ∷ [];
}
after_recv (reading b) a = quiet a

-- the steps that `recv` makes of what the connection's reads answer, each answer to a message being
-- written well
unfoldable pub recv_steps : List Read → List Step
recv_steps reads = map (λ m. receives m wrote) (package_split reads).calls
