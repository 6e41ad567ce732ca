-- ===== src/EventProcessor/Queue/Laws.antt =====
-- The queue of the event processor behind the broker's poller.
use gno_land_block_indexer.Prelude.{
  ◌≤◌, ◌≡◌, refl, Bool, String, Option, none, some, List, [], ◌∷◌, ltb, length, length-append,
  arith, Bool-cases, inl, inr,
}
use gno_land_block_indexer.Model.{Block, BlockWithTransactions}
use gno_land_block_indexer.Ent.Error.{Result, ok}
use gno_land_block_indexer.Broker.Aws.{Aws, SqsMessage}
use gno_land_block_indexer.Broker.Poller.{Site, message_body, process_message, poll_messages}
use gno_land_block_indexer.Broker.Poller.Laws.{poll_messages-keeps}
use gno_land_block_indexer.EventProcessor.Queue.{capacity, offer, offer_decoded, handle_message}

abbrev pub Queue : Type 0
Queue = List BlockWithTransactions

module _ (unmarshal : String → Option BlockWithTransactions) where
  offer-bounded :
      (q : Queue) (m : BlockWithTransactions)
      → length q ≤ capacity
      → length (offer q m).1 ≤ capacity
  offer-bounded q m h = elim (Bool-cases (ltb (length q) capacity)) [
    | inl y ↦ rw y (rw (length-append q (m ∷ [])) (ground arith))
    | inr n ↦ rw n h
  ]

  decoded-bounded :
      (q : Queue) (o : Option BlockWithTransactions)
      → length q ≤ capacity
      → length (offer_decoded q o).1 ≤ capacity
  decoded-bounded q none h = h
  decoded-bounded q (some m) h = offer-bounded q m h

  pub handle_message-bounded :
      (q : Queue) (bytes : String)
      → length q ≤ capacity
      → length (handle_message unmarshal q bytes).1 ≤ capacity
  unfolding handle_message
  handle_message-bounded q bytes h = decoded-bounded q (unmarshal bytes) h

  offer_full :
      (q : Queue) (b : Block) (m : BlockWithTransactions)
      → m.block ≡ some b
      → length q ≡ capacity
      → offer q m ≡ (ok tt, q)
  offer_full q b m e h = rw h (rw e refl)

  module _ (A : Aws) (unwrap : String → Option String) where
    -- The handler as the poller runs it, on the queue.
    abbrev pub handler : String → Queue → Result (Unit {0}) × Queue
    handler bytes q = handle_message unmarshal q bytes

    -- If at most a hundred blocks wait at the start, then whatever messages the broker brings, and however long the poller runs, at most a hundred blocks
    -- wait in the queue.
    pub poll_messages-bounded :
        (url : String) (rounds : List (Bool × Bool)) (w : Site A Queue unwrap handler)
        → length w.state ≤ capacity
        → length (poll_messages A Queue unwrap handler url rounds w).1.state ≤ capacity
    poll_messages-bounded =
        poll_messages-keeps A Queue unwrap handler (λ q. length q ≤ capacity)
          (λ bytes q h. handle_message-bounded q bytes h)

    -- While the queue holds a hundred blocks, a message with a block is deleted from the broker and its block is
    -- not queued: nothing processes it any more.
    pub process_message_full :
        (url : String) (msg : SqsMessage) (b : Block) (m : BlockWithTransactions)
        (w : Site A Queue unwrap handler)
        → unmarshal (message_body A Queue unwrap handler msg (unwrap msg.body)) ≡ some m
        → m.block ≡ some b
        → length w.state ≡ capacity
        → process_message A Queue unwrap handler url msg w
          ≡ record { aws = (A.delete_message url msg.receipt_handle w.aws).1; state = w.state }
    unfolding process_message handle_message
    process_message_full url msg b m w decoded block full =
        rw decoded (rw (offer_full w.state b m block full) refl)
