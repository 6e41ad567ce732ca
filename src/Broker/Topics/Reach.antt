-- ===== src/Broker/Topics/Reach.antt =====
-- A subscription makes a topic reach the queue of its poller.
use gno_land_block_indexer.Prelude.{
  ◌≡◌, refl, Bool, true, false, String, Option, none, some, [], ◌∷◌, ◌++◌,
}
use gno_land_block_indexer.Ent.Action.{annotate, ◌>>=◌}
use gno_land_block_indexer.Ent.Post.{Post, Post-bind, Post-annotate}
use gno_land_block_indexer.Broker.Dict.{value_at, assign}
use gno_land_block_indexer.Broker.Dict.{Follows, Follows-assign, Follows-value_at}
use gno_land_block_indexer.Broker.Aws.{Aws}
use gno_land_block_indexer.Broker.Service.{Service, Reaches}
use gno_land_block_indexer.Broker.Topics.{
  Broker, option_result, bool_result, asks, does, add_topic, known_or_new, ensure_topic,
  subscribe_queue_to_topic, add_subscriber, queue_name, subscribe_queue, subscribe_topic, subscribe,
}

module _ (A : Aws) (unwrap : String → Option String) (S : Service A unwrap) (Handler : Type 0) where
  -- The broker knows its topics by the ARNs that the service gives them.
  abbrev pub KnowsArns : Broker A Handler → Type 0
  KnowsArns b = Follows S.arn_of_topic b.topic_arns

  -- The ARN is the service's, and neither the service nor the pollers have changed.
  abbrev pub Found : String → Broker A Handler → String → Broker A Handler → Type 0
  Found topic b arn b' =
      (arn ≡ S.arn_of_topic topic)
      × (S.view b'.aws ≡ S.view b.aws)
      × (b'.pollers ≡ b.pollers)
      × KnowsArns b'

  created_out-Found :
      (topic : String) (b : Broker A Handler) (out : Option String × A.State)
      → KnowsArns b
      → A.create_topic topic b.aws ≡ out
      → Post
          ((annotate "failed to create topic"
                (λ b. (option_result A Handler out.0, record b { aws = out.1 }))
              >>= add_topic A Handler topic)
            b)
          (Found topic b)
          (λ _. Unit)
  created_out-Found topic b (none, s) k e = tt
  created_out-Found topic b (some arn, s) k e =
      let (is, same) = S.created topic arn b.aws s e in
      (is, same, refl, rw is (Follows-assign S.arn_of_topic b.topic_arns topic k))

  known-Found :
      (topic : String) (o : Option String) (b : Broker A Handler)
      → KnowsArns b
      → value_at b.topic_arns topic ≡ o
      → Post (known_or_new A Handler topic o b) (Found topic b) (λ _. Unit)
  known-Found topic (some arn) b k e =
      (Follows-value_at S.arn_of_topic b.topic_arns topic arn k e, refl, refl, k)
  known-Found topic none b k e = created_out-Found topic b (A.create_topic topic b.aws) k refl

  pub ensure_topic-Found :
      (topic : String) (b : Broker A Handler)
      → KnowsArns b
      → Post (ensure_topic A Handler topic b) (Found topic b) (λ _. Unit)
  unfolding ensure_topic
  ensure_topic-Found topic b k = known-Found topic (value_at b.topic_arns topic) b k refl

  -- A call of the service, by what it says of each answer that is no error.
  asks-Post :
      (msg : String) (call : A.State → Option String × A.State)
      (Q : String → Broker A Handler → Type 0) (b : Broker A Handler)
      → ((x : String) (s : A.State) → call b.aws ≡ (some x, s) → Q x (record b { aws = s }))
      → Post (annotate msg (asks A Handler call) b) Q (λ _. Unit)
  asks-Post msg call Q b h =
      Post-annotate Q (λ _. Unit) msg (asks A Handler call) b (out (call b.aws) refl)
    where
      out :
          (o : Option String × A.State)
          → call b.aws ≡ o
          → Post (option_result A Handler o.0, record b { aws = o.1 }) Q (λ _. Unit)
      out (none, s) e = tt
      out (some x, s) e = h x s e

  pub does-Post :
      (msg : String) (call : A.State → Bool × A.State) (Q : Unit {0} → Broker A Handler → Type 0)
      (b : Broker A Handler)
      → ((s : A.State) → call b.aws ≡ (true, s) → Q tt (record b { aws = s }))
      → Post (annotate msg (does A Handler call) b) Q (λ _. Unit)
  does-Post msg call Q b h =
      Post-annotate Q (λ _. Unit) msg (does A Handler call) b (out (call b.aws) refl)
    where
      out :
          (o : Bool × A.State)
          → call b.aws ≡ o
          → Post (bool_result A Handler o.0, record b { aws = o.1 }) Q (λ _. Unit)
      out (true, s) e = h s e
      out (false, s) e = tt

  -- The topic of the ARN reaches the queue, and no poller was started since.
  abbrev Linked : String → String → Broker A Handler → Broker A Handler → Type 0
  Linked arn url b b' = Reaches (S.view b'.aws) arn url × (b'.pollers ≡ b.pollers)

  sns_subscribe-Linked :
      (arn url queue : String) (b c : Broker A Handler)
      → queue ≡ S.arn_of_queue url
      → (S.view c.aws).admits url arn ≡ true
      → c.pollers ≡ b.pollers
      → Post
          (annotate "failed to subscribe to topic" (does A Handler (A.sns_subscribe arn queue)) c)
          (λ _ b'. Linked arn url b b')
          (λ _. Unit)
  sns_subscribe-Linked arn url queue b c is admits same =
      does-Post "failed to subscribe to topic" (A.sns_subscribe arn queue)
        (λ _ b'. Linked arn url b b') c
        (λ s e.
          let (feeds, kept) = S.subscribed arn url c.aws s (rw is at e) in
          ((feeds, rw kept admits), same))

  set_policy-Linked :
      (arn url queue : String) (b c : Broker A Handler)
      → queue ≡ S.arn_of_queue url
      → c.pollers ≡ b.pollers
      → Post
          ((annotate "failed to set queue policy"
                (does A Handler (A.set_policy url (record { resource = queue; source_arn = arn })))
              >>= λ _.
                  annotate "failed to subscribe to topic"
                    (does A Handler (A.sns_subscribe arn queue)))
            c)
          (λ _ b'. Linked arn url b b')
          (λ _. Unit)
  set_policy-Linked arn url queue b c is same =
      Post-bind (λ _ d. ((S.view d.aws).admits url arn ≡ true) × (d.pollers ≡ b.pollers))
        (λ _ b'. Linked arn url b b') (λ _. Unit)
        (annotate "failed to set queue policy"
          (does A Handler (A.set_policy url (record { resource = queue; source_arn = arn }))))
        (λ _. annotate "failed to subscribe to topic" (does A Handler (A.sns_subscribe arn queue)))
        c
        (does-Post "failed to set queue policy"
          (A.set_policy url (record { resource = queue; source_arn = arn }))
          (λ _ d. ((S.view d.aws).admits url arn ≡ true) × (d.pollers ≡ b.pollers)) c
          (λ s e. (S.admitted url arn c.aws s (rw is at e), same)))
        (λ _ d (admits, same_d). sns_subscribe-Linked arn url queue b d is admits same_d)

  subscribe_queue_to_topic-Linked :
      (arn url : String) (b c : Broker A Handler)
      → c.pollers ≡ b.pollers
      → Post
          (subscribe_queue_to_topic A Handler arn url c)
          (λ _ b'. Linked arn url b b')
          (λ _. Unit)
  unfolding subscribe_queue_to_topic
  subscribe_queue_to_topic-Linked arn url b c same =
      Post-bind (λ q d. (q ≡ S.arn_of_queue url) × (d.pollers ≡ b.pollers))
        (λ _ b'. Linked arn url b b') (λ _. Unit)
        (annotate "failed to get queue attributes" (asks A Handler (A.queue_arn url))) _ c
        (asks-Post "failed to get queue attributes" (A.queue_arn url)
          (λ q d. (q ≡ S.arn_of_queue url) × (d.pollers ≡ b.pollers)) c
          (λ q s e. (S.asked url q c.aws s e, same)))
        (λ q d (is, same_d). set_policy-Linked arn url q b d is same_d)

  -- One poller was started, and the topic reaches its queue.
  abbrev pub Listens : String → Handler → Broker A Handler → Broker A Handler → Type 0
  Listens topic h b b' =
      (url : String) × (b'.pollers
        ≡ b.pollers ++ record { topic = topic; queue_url = url; handler = h } ∷ [])
      × Reaches (S.view b'.aws) (S.arn_of_topic topic) url

  subscribe_topic-Listens :
      (nano topic arn : String) (h : Handler) (b c : Broker A Handler)
      → arn ≡ S.arn_of_topic topic
      → c.pollers ≡ b.pollers
      → Post
          (subscribe_topic A Handler nano topic h arn c)
          (λ _ b'. Listens topic h b b')
          (λ _. Unit)
  subscribe_topic-Listens nano topic arn h b c is same =
      let call = A.create_queue (queue_name A Handler topic nano) in
      Post-bind (λ _ d. d.pollers ≡ b.pollers) (λ _ d. Listens topic h b d) (λ _. Unit)
        (annotate "failed to create queue for topic" (asks A Handler call))
        (subscribe_queue A Handler nano topic h arn) c
        (asks-Post "failed to create queue for topic" call (λ _ d. d.pollers ≡ b.pollers) c
          (λ url s e. same))
        (λ url d same_d.
          Post-bind (λ _ e. Linked arn url b e) (λ _ e. Listens topic h b e) (λ _. Unit)
            (annotate "failed to subscribe queue to topic"
              (subscribe_queue_to_topic A Handler arn url))
            (λ _. add_subscriber A Handler topic url h)
            (record d { queue_urls = assign d.queue_urls (queue_name A Handler topic nano) url })
            (Post-annotate (λ _ e. Linked arn url b e) (λ _. Unit)
              "failed to subscribe queue to topic" (subscribe_queue_to_topic A Handler arn url) _
              (subscribe_queue_to_topic-Linked arn url b _ same_d))
            (λ _ e (reaches, same_e). (url, rw same_e refl, rw (← is) reaches)))

  -- If the broker knows its topics by the service's ARNs, a subscription without an error starts one
  -- poller, and the topic reaches its queue.
  pub subscribe-Listens :
      (nano topic : String) (h : Handler) (b : Broker A Handler)
      → KnowsArns b
      → Post (subscribe A Handler nano topic h b) (λ _ b'. Listens topic h b b') (λ _. Unit)
  unfolding subscribe
  subscribe-Listens nano topic h b k =
      Post-bind (Found topic b) (λ _ d. Listens topic h b d) (λ _. Unit)
        (ensure_topic A Handler topic) (subscribe_topic A Handler nano topic h) b
        (ensure_topic-Found topic b k)
        (λ arn c (is, view, same, knows). subscribe_topic-Listens nano topic arn h b c is same)
