-- ===== src/Broker/Topics/Laws.antt =====
-- Topics are created once, and a subscription is registered whole or not at all.
use gno_land_block_indexer.Prelude.{
  ◌≡◌, refl, ap, Bool, true, false, String, Option, none, some, [], ◌∷◌, ◌++◌, arith,
}
use gno_land_block_indexer.Ent.Error.{ok}
use gno_land_block_indexer.Ent.Action.{Action, annotate, ◌>>=◌}
use gno_land_block_indexer.Ent.Post.{Post, Post-bind, Post-annotate}
use gno_land_block_indexer.Broker.Dict.{value_at, assign, value_at-assign}
use gno_land_block_indexer.Broker.Aws.{Aws, Policy}
use gno_land_block_indexer.Broker.Topics.{
  Broker, option_result, bool_result, asks, does, add_topic, known_or_new, ensure_topic,
  subscribe_queue_to_topic, handlers_of, add_subscriber, queue_name, subscribe_queue,
  subscribe_topic, subscribe,
}

module _ (A : Aws) (Handler : Type 0) where
  -- The topic is known under the ARN.
  abbrev Knows : String → String → Broker A Handler → Type 0
  Knows topic arn b = value_at b.topic_arns topic ≡ some arn

  created_out :
      (topic : String) (b : Broker A Handler) (out : Option String × A.State)
      → Post
          ((annotate "failed to create topic"
                (λ b. (option_result A Handler out.0, record b { aws = out.1 }))
              >>= add_topic A Handler topic)
            b)
          (λ arn b'. Knows topic arn b')
          (λ b'. Unit)
  created_out topic b (none, s) = tt
  created_out topic b (some arn, s) = value_at-assign b.topic_arns topic arn

  known-Knows :
      (topic : String) (o : Option String) (b : Broker A Handler)
      → value_at b.topic_arns topic ≡ o
      → Post (known_or_new A Handler topic o b) (λ arn b'. Knows topic arn b') (λ b'. Unit)
  known-Knows topic (some arn) b e = e
  known-Knows topic none b e = created_out topic b (A.create_topic topic b.aws)

  ensure_topic-Knows :
      (topic : String) (b : Broker A Handler)
      → Post (ensure_topic A Handler topic b) (λ arn b'. Knows topic arn b') (λ b'. Unit)
  unfolding ensure_topic
  ensure_topic-Knows topic b = known-Knows topic (value_at b.topic_arns topic) b refl

  known_again :
      (topic arn : String) (o : Option String) (b : Broker A Handler)
      → o ≡ some arn
      → known_or_new A Handler topic o b ≡ (ok arn, b)
  known_again topic arn none b e = cc
  known_again topic arn (some x) b e = ground arith

  -- Once a topic's ARN was found or created, it is found again without a call of the service.
  pub ensure_topic_again :
      (topic arn : String) (b b' : Broker A Handler)
      → ensure_topic A Handler topic b ≡ (ok arn, b')
      → ensure_topic A Handler topic b' ≡ (ok arn, b')
  unfolding ensure_topic
  ensure_topic_again topic arn b b' e =
      known_again topic arn (value_at b'.topic_arns topic) b' (rw e at (ensure_topic-Knows topic b))

  -- The subscribers and pollers of two brokers are the same.
  abbrev SameSubscribers : Broker A Handler → Broker A Handler → Type 0
  SameSubscribers b b' = (b'.subscribers ≡ b.subscribers) × (b'.pollers ≡ b.pollers)

  abbrev Quiet : {X : Type 0} → Action (Broker A Handler) X → Type 0
  Quiet m =
      (b c : Broker A Handler)
      → SameSubscribers b c
      → Post (m c) (λ _ b'. SameSubscribers b b') (λ b'. SameSubscribers b b')

  asks-Quiet : (call : A.State → Option String × A.State) → Quiet (asks A Handler call)
  asks-Quiet call b c h = out (call c.aws)
    where
      out :
          (o : Option String × A.State)
          → Post
              (option_result A Handler o.0, record c { aws = o.1 })
              (λ _ b'. SameSubscribers b b')
              (λ b'. SameSubscribers b b')
      out (none, s) = h
      out (some x, s) = h

  does-Quiet : (call : A.State → Bool × A.State) → Quiet (does A Handler call)
  does-Quiet call b c h = out (call c.aws)
    where
      out :
          (o : Bool × A.State)
          → Post
              (bool_result A Handler o.0, record c { aws = o.1 })
              (λ _ b'. SameSubscribers b b')
              (λ b'. SameSubscribers b b')
      out (true, s) = h
      out (false, s) = h

  annotate-Quiet :
      {X : Type 0} (msg : String) (m : Action (Broker A Handler) X)
      → Quiet m
      → Quiet (annotate msg m)
  annotate-Quiet msg m q b c h = Post-annotate _ _ msg m c (q b c h)

  bind-Quiet :
      {X Y : Type 0} (m : Action (Broker A Handler) X) (f : X → Action (Broker A Handler) Y)
      → Quiet m
      → ((x : X) → Quiet (f x))
      → Quiet (m >>= f)
  bind-Quiet m f q k b c h = Post-bind _ _ _ m f c (q b c h) (λ x c' j. k x b c' j)

  known-Quiet : (topic : String) (o : Option String) → Quiet (known_or_new A Handler topic o)
  known-Quiet topic (some arn) b c h = h
  known-Quiet topic none b c h =
      bind-Quiet (annotate "failed to create topic" (asks A Handler (A.create_topic topic)))
        (add_topic A Handler topic)
        (annotate-Quiet "failed to create topic" (asks A Handler (A.create_topic topic))
          (asks-Quiet (A.create_topic topic)))
        (λ arn b c h. h) b c h

  ensure_topic-Quiet : (topic : String) → Quiet (ensure_topic A Handler topic)
  unfolding ensure_topic
  ensure_topic-Quiet topic b c h = known-Quiet topic (value_at c.topic_arns topic) b c h

  subscribe_queue-Quiet : (arn url : String) → Quiet (subscribe_queue_to_topic A Handler arn url)
  unfolding subscribe_queue_to_topic
  subscribe_queue-Quiet arn url =
      bind-Quiet (annotate "failed to get queue attributes" (asks A Handler (A.queue_arn url))) _
        (annotate-Quiet "failed to get queue attributes" (asks A Handler (A.queue_arn url))
          (asks-Quiet (A.queue_arn url)))
        (λ q.
          let policy : Policy = record { resource = q; source_arn = arn } in
          bind-Quiet
            (annotate "failed to set queue policy" (does A Handler (A.set_policy url policy)))
            (λ _. annotate "failed to subscribe to topic" (does A Handler (A.sns_subscribe arn q)))
            (annotate-Quiet "failed to set queue policy" (does A Handler (A.set_policy url policy))
              (does-Quiet (A.set_policy url policy)))
            (λ _.
              annotate-Quiet "failed to subscribe to topic" (does A Handler (A.sns_subscribe arn q))
                (does-Quiet (A.sns_subscribe arn q))))

  -- The handler was put behind the others of its topic, and one poller was started for it.
  abbrev pub Registered : String → Handler → Broker A Handler → Broker A Handler → Type 0
  Registered topic h b b' =
      (b'.subscribers
        ≡ assign b.subscribers topic
            (handlers_of A Handler (value_at b.subscribers topic) ++ h ∷ []))
      × ((url : String) × (b'.pollers
            ≡ b.pollers ++ record { topic = topic; queue_url = url; handler = h } ∷ []))

  add_subscriber-Registered :
      (topic url : String) (h : Handler) (b c : Broker A Handler)
      → SameSubscribers b c
      → Post
          (add_subscriber A Handler topic url h c)
          (λ _ b'. Registered topic h b b')
          (λ b'. SameSubscribers b b')
  add_subscriber-Registered topic url h b c (subs, polls) = (
    ap (λ m. assign m topic (handlers_of A Handler (value_at m topic) ++ h ∷ [])) subs,
    (url, ap (λ l. l ++ record { topic = topic; queue_url = url; handler = h } ∷ []) polls),
  )

  subscribe_queue-Registered :
      (nano topic arn url : String) (h : Handler) (b c : Broker A Handler)
      → SameSubscribers b c
      → Post
          (subscribe_queue A Handler nano topic h arn url c)
          (λ _ b'. Registered topic h b b')
          (λ b'. SameSubscribers b b')
  subscribe_queue-Registered nano topic arn url h b c k =
      Post-bind (λ _ d. SameSubscribers b d) (λ _ d. Registered topic h b d)
        (λ d. SameSubscribers b d)
        (annotate "failed to subscribe queue to topic" (subscribe_queue_to_topic A Handler arn url))
        (λ _. add_subscriber A Handler topic url h)
        (record c { queue_urls = assign c.queue_urls (queue_name A Handler topic nano) url })
        (annotate-Quiet "failed to subscribe queue to topic"
          (subscribe_queue_to_topic A Handler arn url) (subscribe_queue-Quiet arn url) b _ k)
        (λ _ d l. add_subscriber-Registered topic url h b d l)

  subscribe_topic-Registered :
      (nano topic arn : String) (h : Handler) (b c : Broker A Handler)
      → SameSubscribers b c
      → Post
          (subscribe_topic A Handler nano topic h arn c)
          (λ _ b'. Registered topic h b b')
          (λ b'. SameSubscribers b b')
  subscribe_topic-Registered nano topic arn h b c k =
      let call = A.create_queue (queue_name A Handler topic nano) in
      Post-bind (λ _ d. SameSubscribers b d) (λ _ d. Registered topic h b d)
        (λ d. SameSubscribers b d)
        (annotate "failed to create queue for topic" (asks A Handler call))
        (subscribe_queue A Handler nano topic h arn) c
        (annotate-Quiet "failed to create queue for topic" (asks A Handler call) (asks-Quiet call) b
          c k)
        (λ url d l. subscribe_queue-Registered nano topic arn url h b d l)

  -- A subscription that returns no error registers the handler and starts one poller; one that
  -- returns an error registers nothing and starts none.
  pub subscribe-Registered :
      (nano topic : String) (h : Handler) (b : Broker A Handler)
      → Post
          (subscribe A Handler nano topic h b)
          (λ _ b'. Registered topic h b b')
          (λ b'. (b'.subscribers ≡ b.subscribers) × (b'.pollers ≡ b.pollers))
  unfolding subscribe
  subscribe-Registered nano topic h b =
      Post-bind (λ _ d. SameSubscribers b d) (λ _ d. Registered topic h b d)
        (λ d. SameSubscribers b d) (ensure_topic A Handler topic)
        (subscribe_topic A Handler nano topic h) b (ensure_topic-Quiet topic b b (refl, refl))
        (λ arn c j. subscribe_topic-Registered nano topic arn h b c j)
