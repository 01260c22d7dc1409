-- ===== src/Exex/Loop.antt =====
-- The loop of `ubt_exex` of src/ubt_exex.rs over its notifications and signals, on the turns that
-- `tokio::select!` takes.
pub mod Stays
pub mod Ended
use ubt_exex.Common.{
  ℕ, List, [], ◌∷◌, String, Message, just, Result, ok, err, panic, UbtError, Foreign, done, failed,
}
use ubt_exex.Tree.{B256}
use ubt_exex.Exex.{Parts, UbtExEx}
use ubt_exex.Exex.Revert.{shutdown}
use ubt_exex.Exex.Lifecycle.{
  ExExNotification, chain_committed, chain_reorged, chain_reverted, handle,
}

-- One turn of the loop: a notification, with what sending its event gives if there is one to send;
-- an error of the stream; its end; a signal; or a handler for SIGTERM that cannot be registered.
pub data Turn : Type 0 where
  notified : ExExNotification → Foreign (Unit {0}) → Turn
  stream_failed : String → Turn
  ended : Turn
  interrupted : Turn
  terminated : Turn
  unregistered : String → Turn

-- An error of the ExEx as `eyre` reports it: one of `UbtExEx`, or one of the node.
pub data Report : Type 0 where
  of_ubt : UbtError → Report
  of_node : String → Report

-- `waiting` is a loop that has had all the turns given and waits for the next.
pub data End : Type 0 where
  waiting : End
  returned : End
  reported : Report → End
  panicked : Message → End

-- The event `FinishedHeight` of a notification that commits a chain.
abbrev pub finished_height : ExExNotification → List (ℕ × B256)
finished_height (chain_committed new) = (new.tip_number, new.tip_hash) ∷ []
finished_height (chain_reorged old new) = (new.tip_number, new.tip_hash) ∷ []
finished_height (chain_reverted old) = []

module _ (P : Parts) where
  -- How the loop has ended, the events that it has sent, and the state it leaves.
  pub record Ran : Type 0 where
    pub end : End
    pub sent : List (ℕ × B256)
    pub state : UbtExEx P

  -- `ctx.events.send(..)?`, and the rest of the loop.
  unfoldable pub send_all :
      List (ℕ × B256) → Foreign (Unit {0}) → UbtExEx P → (UbtExEx P → Ran) → Ran
  send_all [] sending s rest = rest s
  send_all (h ∷ hs) (done u) s rest =
      let r : Ran = rest s in record { end = r.end; sent = h ∷ r.sent; state = r.state }
  send_all (h ∷ hs) (failed e) s rest = record { end = reported (of_node e); sent = []; state = s }

  unfoldable pub after_handle :
      ExExNotification
      → Foreign (Unit {0})
      → Result (Unit {0}) × UbtExEx P
      → (UbtExEx P → Ran)
      → Ran
  unfolding send_all
  after_handle n sending (ok u, s) rest = send_all (finished_height n) sending s rest
  after_handle n sending (err e, s) rest = record {
    end = reported (of_ubt e);
    sent = [];
    state = s;
  }
  after_handle n sending (panic m, s) rest = record { end = panicked m; sent = []; state = s }

  -- The branch of a signal, after `shutdown`.
  unfoldable pub after_shutdown : Result (Unit {0}) × UbtExEx P → Ran
  after_shutdown (ok u, s) = record { end = returned; sent = []; state = s }
  after_shutdown (err e, s) = record { end = reported (of_ubt e); sent = []; state = s }
  after_shutdown (panic m, s) = record { end = panicked m; sent = []; state = s }

  unfoldable pub run_loop : List Turn → UbtExEx P → Ran
  unfolding after_handle after_shutdown
  run_loop [] s = record { end = waiting; sent = []; state = s }
  run_loop (notified n sending ∷ turns) s = after_handle n sending (handle P n s) (run_loop turns)
  run_loop (stream_failed e ∷ turns) s = record { end = reported (of_node e); sent = []; state = s }
  run_loop (ended ∷ turns) s = record { end = returned; sent = []; state = s }
  run_loop (interrupted ∷ turns) s = after_shutdown (shutdown P s)
  run_loop (terminated ∷ turns) s = after_shutdown (shutdown P s)
  run_loop (unregistered e ∷ turns) s = record {
    end = panicked (just "failed to register SIGTERM handler");
    sent = [];
    state = s;
  }
