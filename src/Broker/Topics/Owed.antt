-- ===== src/Broker/Topics/Owed.antt =====
-- What is published to a topic is owed to each queue that the topic reaches.
use gno_land_block_indexer.Prelude.{◌≡◌, String, Option, List, [], ◌∷◌, All, Among}
use gno_land_block_indexer.Ent.Error.{ok}
use gno_land_block_indexer.Ent.Action.{annotate}
use gno_land_block_indexer.Ent.Post.{Post, Post-bind}
use gno_land_block_indexer.Broker.Aws.{Aws}
use gno_land_block_indexer.Broker.Service.{Service, Reaches}
use gno_land_block_indexer.Broker.Topics.{Broker, does, ensure_topic, publish}
use gno_land_block_indexer.Broker.Topics.Reach.{KnowsArns, Found, ensure_topic-Found, does-Post}

module _ (A : Aws) (Handler : Type 0) (topic : String) where
  -- Texts that are published one after the other, each without an error.
  pub data Publishes : List String → Broker A Handler → Broker A Handler → Type 0 where
    done : {p : Broker A Handler} → Publishes [] p p
    also :
        {text : String} {texts : List String} {p p' p'' : Broker A Handler}
        → publish A Handler topic text p ≡ (ok tt, p')
        → Publishes texts p' p''
        → Publishes (text ∷ texts) p p''

module _ (A : Aws) (unwrap : String → Option String) (S : Service A unwrap) (Handler : Type 0)
    (topic url : String) where
  -- The broker knows its topics, and this topic reaches the queue of the URL.
  abbrev pub Ready : Broker A Handler → Type 0
  Ready p = KnowsArns A unwrap S Handler p × Reaches (S.view p.aws) (S.arn_of_topic topic) url

  -- Each of the texts is owed to the queue, and what was owed before still is.
  abbrev pub Owes : List String → Broker A Handler → Broker A Handler → Type 0
  Owes texts p p' =
      All (λ text. Among (S.envelope text) ((S.view p'.aws).owed url)) texts
      × ((body : String)
          → Among body ((S.view p.aws).owed url)
          → Among body ((S.view p'.aws).owed url))

  sns_publish-Owes :
      (text arn : String) (p c : Broker A Handler)
      → Reaches (S.view p.aws) (S.arn_of_topic topic) url
      → Found A unwrap S Handler topic p arn c
      → Post
          (annotate "failed to publish message to topic"
            (does A Handler (A.sns_publish arn text))
            c)
          (λ _ p'. Owes (text ∷ []) p p' × Ready p')
          (λ _. Unit)
  sns_publish-Owes text arn p c reaches (is, same, polls, knows) =
      does-Post A unwrap S Handler "failed to publish message to topic" (A.sns_publish arn text)
        (λ _ p'. Owes (text ∷ []) p p' × Ready p') c
        (λ s e.
          let (owed, kept, reaches') =
            S.published (S.arn_of_topic topic) url text c.aws s (rw is at e) (rw same reaches) in
          (((owed, tt), rw same at kept), (knows, reaches')))

  publish-Owes :
      (text : String) (p : Broker A Handler)
      → Ready p
      → Post (publish A Handler topic text p) (λ _ p'. Owes (text ∷ []) p p' × Ready p') (λ _. Unit)
  unfolding publish
  publish-Owes text p (knows, reaches) =
      Post-bind (Found A unwrap S Handler topic p) (λ _ p'. Owes (text ∷ []) p p' × Ready p')
        (λ _. Unit) (ensure_topic A Handler topic)
        (λ arn.
          annotate "failed to publish message to topic" (does A Handler (A.sns_publish arn text)))
        p (ensure_topic-Found A unwrap S Handler topic p knows)
        (λ arn c found. sns_publish-Owes text arn p c reaches found)

  pub Publishes-Owes :
      {texts : List String} {p p' : Broker A Handler}
      → Publishes A Handler topic texts p p'
      → Ready p
      → Owes texts p p'
  Publishes-Owes done r = (tt, λ body k. k)
  Publishes-Owes {p = p} (also {text} {texts} e rest) r =
      let (first, r') = rw e at (publish-Owes text p r) in
      let (owed, kept) = Publishes-Owes rest r' in
      ((kept (S.envelope text) first.0.0, owed), λ body k. kept body (first.1 body k))
