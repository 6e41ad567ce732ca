-- ===== src/Broker/Local.antt =====
-- A service that obeys the laws of Service: names are ARNs and URLs, and the state is the wiring.
use gno_land_block_indexer.Prelude.{
  ◌≡◌, refl, ap, sym, true, ◌&&◌, String, Option, some, [], ◌∷◌, ◌++◌, str_eq, eq_refl,
  if◌then◌else◌, arith, Among, Among-append_last, Among-append_left,
}
use gno_land_block_indexer.Broker.Aws.{Aws}
use gno_land_block_indexer.Broker.Service.{Wiring, Reaches, Service}

abbrev admit : String → String → Wiring → Wiring
admit url arn w = record w {
  admits = λ u a. if str_eq u url && str_eq a arn then true else w.admits u a;
}

abbrev feed : String → String → Wiring → Wiring
feed arn url w = record w {
  feeds = λ a u. if str_eq a arn && str_eq u url then true else w.feeds a u;
}

abbrev send : String → String → Wiring → Wiring
send arn m w = record w {
  owed = λ u. if w.feeds arn u && w.admits u arn then w.owed u ++ m ∷ [] else w.owed u;
}

abbrev pub local : Aws
local = record {
  State = Wiring;
  list_topics = λ w. (true, w);
  list_queues = λ w. (true, w);
  create_topic = λ name w. (some name, w);
  sns_publish = λ arn m w. (true, send arn m w);
  create_queue = λ name w. (some name, w);
  queue_arn = λ url w. (some url, w);
  set_policy = λ url p w. (true, admit url p.source_arn w);
  sns_subscribe = λ arn q w. (true, feed arn q w);
  receive_messages = λ url w. (some [], w);
  delete_message = λ url r w. (true, w);
  delete_queue = λ url w. (true, w);
  delete_topic = λ arn w. (true, w);
}

-- The rest of two answers that are equal.
pub same_state :
    {X : Type 0} {x y : X} {w w' : Wiring} → ◌≡◌ {A = X × Wiring} (x, w) (y, w') → w ≡ w'
same_state e = ap (λ o. o.1) e

pub admit_lem : (url arn : String) (w : Wiring) → (admit url arn w).admits url arn ≡ true
admit_lem url arn w = rw (eq_refl url, eq_refl arn) refl

pub feed_lem : (arn url : String) (w : Wiring) → (feed arn url w).feeds arn url ≡ true
feed_lem arn url w = rw (eq_refl url, eq_refl arn) refl

pub send_lem :
    (arn url m : String) (w : Wiring)
    → Reaches w arn url
    → Among m ((send arn m w).owed url)
      × ((body : String) → Among body (w.owed url) → Among body ((send arn m w).owed url))
      × Reaches (send arn m w) arn url
send_lem arn url m w (feeds, admits) = (
  rw (feeds, admits) (Among-append_last m (w.owed url)),
  λ body k. rw (feeds, admits) (Among-append_left body (w.owed url) (m ∷ []) k),
  (feeds, admits),
)

abbrev pub raw : String → Option String
raw text = some text

unfoldable pub local_service : Service local raw
local_service = record {
  view = λ w. w;
  arn_of_topic = λ name. name;
  arn_of_queue = λ url. url;
  envelope = λ m. m;
  unwrap-envelope = λ m. refl;
  created = λ name arn s s' e. (ground (arith, e), sym (same_state e));
  asked = λ url arn s s' e. ground (arith, e);
  admitted = λ url arn s s' e. rw (← same_state e) (admit_lem url arn s);
  subscribed = λ arn url s s' e. rw (← same_state e) (feed_lem arn url s, refl);
  published = λ arn url m s s' e r. rw (← same_state e) (send_lem arn url m s r);
}
