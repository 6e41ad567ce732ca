-- ===== src/Broker/Poller/Laws.antt =====
-- What a poller keeps of the state that its handler works on.
use gno_land_block_indexer.Prelude.{Bool, true, false, String, Option, none, some, List, [], ◌∷◌}
use gno_land_block_indexer.Ent.Error.{Result, ok, err}
use gno_land_block_indexer.Broker.Aws.{Aws, SqsMessage}
use gno_land_block_indexer.Broker.Poller.{
  Site, message_body, delete_if_handled, process_message, process_messages, after_receive,
  poll_round, poll_on, poll_messages,
}

module _ (A : Aws) (S : Type 0) (unwrap : String → Option String)
    (handler : String → S → Result (Unit {0}) × S) (P : S → Type 0)
    (handler-keeps : (bytes : String) (s : S) → P s → P (handler bytes s).1) where
  handled :
      (url : String) (msg : SqsMessage) (out : Result (Unit {0}) × S) (a : A.State)
      → P out.1
      → P (delete_if_handled A S unwrap handler url msg out a).state
  handled url msg (ok _, s) a p = p
  handled url msg (err e, s) a p = p

  process_message-keeps :
      (url : String) (msg : SqsMessage) (w : Site A S unwrap handler)
      → P w.state
      → P (process_message A S unwrap handler url msg w).state
  unfolding process_message
  process_message-keeps url msg w p =
      handled url msg (handler (message_body A S unwrap handler msg (unwrap msg.body)) w.state)
        w.aws (handler-keeps (message_body A S unwrap handler msg (unwrap msg.body)) w.state p)

  process_messages-keeps :
      (url : String) (ms : List SqsMessage) (w : Site A S unwrap handler)
      → P w.state
      → P (process_messages A S unwrap handler url ms w).state
  unfolding process_messages
  process_messages-keeps url [] w p = p
  process_messages-keeps url (m ∷ ms) w p =
      process_messages-keeps url ms (process_message A S unwrap handler url m w)
        (process_message-keeps url m w p)

  received-keeps :
      (url : String) (done : Bool) (out : Option (List SqsMessage) × A.State)
      (w : Site A S unwrap handler)
      → P w.state
      → P (after_receive A S unwrap handler url done out w).1.state
  received-keeps url done (none, a) w p = p
  received-keeps url done (some ms, a) w p = process_messages-keeps url ms (record w { aws = a }) p

  round-keeps :
      (url : String) (r : Bool × Bool) (w : Site A S unwrap handler)
      → P w.state
      → P (poll_round A S unwrap handler url r w).1.state
  unfolding poll_round
  round-keeps url (true, after) w p = p
  round-keeps url (false, after) w p = received-keeps url after (A.receive_messages url w.aws) w p

  on-keeps :
      (rest : Site A S unwrap handler → Bool × Site A S unwrap handler)
      (out : Bool × Site A S unwrap handler)
      → P out.1.state
      → ((w : Site A S unwrap handler) → P w.state → P (rest w).1.state)
      → P (poll_on A S unwrap handler rest out).1.state
  on-keeps rest (true, w) p k = k w p
  on-keeps rest (false, w) p k = p

  -- However long a poller runs, it keeps what its handler keeps.
  pub poll_messages-keeps :
      (url : String) (rounds : List (Bool × Bool)) (w : Site A S unwrap handler)
      → P w.state
      → P (poll_messages A S unwrap handler url rounds w).1.state
  unfolding poll_messages
  poll_messages-keeps url [] w p = p
  poll_messages-keeps url (r ∷ rs) w p =
      on-keeps (poll_messages A S unwrap handler url rs) (poll_round A S unwrap handler url r w)
        (round-keeps url r w p) (poll_messages-keeps url rs)
