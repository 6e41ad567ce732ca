-- ===== src/BlockSynchronizer/Session/Laws.antt =====
-- What a subscription sends on its channel.
use gno_land_block_indexer.Prelude.{
  ◌+◌, ◌≤◌, ◌≡◌, refl, ◌∙◌, Bool, true, false, String, Option, none, some, List, [], ◌∷◌, length,
  length-append, if◌then◌else◌, str_eq, arith,
}
use gno_land_block_indexer.Model.{Time, Fields, Block}
use gno_land_block_indexer.Ent.Error.{Result, err, cancelled}
use gno_land_block_indexer.BlockSynchronizer.Session.{
  get, as_string, as_object, Read, context_done, close_normal, timeout, broken, message, Round,
  Session, Outcome, go_on, return, block_of_fields, send_block, send_found, take_blocks,
  take_payload, has_errors, is_own, handle_type, handle_typed, read_round, step, continue_with, run,
}

module _ (parse_time : String → String → Option Time) (subscription_id : String) where
  -- A round that goes on has sent nothing; one that returns has sent one block at most.
  abbrev SendsOne : Session → Outcome → Type 0
  SendsOne s (go_on s') = s'.sent ≡ s.sent
  SendsOne s (return r s') = length s'.sent ≤ length s.sent + 1

  if-SendsOne :
      (s : Session) (b : Bool) (x y : Outcome)
      → SendsOne s x
      → SendsOne s y
      → SendsOne s (if b then x else y)
  if-SendsOne s true x y h k = h
  if-SendsOne s false x y h k = k

  send_block-SendsOne :
      (r : Round) (b : Block) (s : Session)
      → SendsOne s (send_block parse_time subscription_id true r b s)
  unfolding send_block
  send_block-SendsOne r b s =
      if-SendsOne s r.room _ _ (rw (length-append s.sent (b ∷ [])) (omega arith))
        (if-SendsOne s r.done_at_send (return (err cancelled) s) (go_on s) (omega arith) refl)

  send_found-SendsOne :
      (r : Round) (m : Option Fields) (s : Session)
      → SendsOne s (send_found parse_time subscription_id true r m s)
  send_found-SendsOne r none s = refl
  send_found-SendsOne r (some m) s =
      send_block-SendsOne r (block_of_fields parse_time subscription_id true m) s

  take_blocks-SendsOne :
      (r : Round) (m : Option Fields) (s : Session)
      → SendsOne s (take_blocks parse_time subscription_id true r m s)
  take_blocks-SendsOne r none s = refl
  take_blocks-SendsOne r (some m) s = send_found-SendsOne r (as_object (get "getBlocks" m)) s

  take_payload-SendsOne :
      (r : Round) (p : Option Fields) (s : Session)
      → SendsOne s (take_payload parse_time subscription_id true r p s)
  take_payload-SendsOne r none s = refl
  take_payload-SendsOne r (some p) s =
      if-SendsOne s (has_errors parse_time subscription_id true (get "errors" p)) (go_on s) _ refl
        (take_blocks-SendsOne r (as_object (get "data" p)) s)

  handle_type-SendsOne :
      (r : Round) (m : Fields) (type : String) (s : Session)
      → SendsOne s (handle_type parse_time subscription_id true r m type s)
  unfolding handle_type
  handle_type-SendsOne r m type s =
      if-SendsOne s (str_eq type "ping") _ _ (if-SendsOne s r.pong_written _ _ refl (omega arith)) (
        if-SendsOne s (str_eq type "next") _ _
          (take_payload-SendsOne r (as_object (get "payload" m)) s)
          (if-SendsOne s (str_eq type "error") _ _
            (if-SendsOne s (is_own parse_time subscription_id true (get "id" m)) _ _ (omega arith)
              refl)
            (if-SendsOne s (str_eq type "complete") _ _ (omega arith) refl)))

  handle_typed-SendsOne :
      (r : Round) (m : Fields) (type : Option String) (s : Session)
      → SendsOne s (handle_typed parse_time subscription_id true r m type s)
  handle_typed-SendsOne r m none s = refl
  handle_typed-SendsOne r m (some type) s = handle_type-SendsOne r m type s

  counted : (s t : Session) (o : Outcome) → t.sent ≡ s.sent → SendsOne t o → SendsOne s o
  counted s t (go_on u) e h = h ∙ e
  counted s t (return r u) e h = rw e at h

  read_round-SendsOne :
      (r : Round) (x : Read) (s : Session)
      → SendsOne s (read_round parse_time subscription_id true r x s)
  read_round-SendsOne r context_done s = omega arith
  read_round-SendsOne r close_normal s = omega arith
  read_round-SendsOne r timeout s = refl
  read_round-SendsOne r broken s = omega arith
  read_round-SendsOne r (message m) s =
      let t : Session = record s { message_count = s.message_count + 1 } in
      counted s t (handle_typed parse_time subscription_id true r m (as_string (get "type" m)) t)
        refl (handle_typed-SendsOne r m (as_string (get "type" m)) t)

  -- A subscription that still runs has sent nothing; one that has ended has sent one block at most.
  abbrev pub RanOnce : Session → Option (Result (Unit {0})) × Session → Type 0
  RanOnce s (none, s') = s'.sent ≡ s.sent
  RanOnce s (some r, s') = length s'.sent ≤ length s.sent + 1

  rebase :
      (s t : Session) (out : Option (Result (Unit {0})) × Session)
      → t.sent ≡ s.sent
      → RanOnce t out
      → RanOnce s out
  rebase s t (none, u) e h = h ∙ e
  rebase s t (some r, u) e h = rw e at h

  continued :
      (rest : Session → Option (Result (Unit {0})) × Session) (s : Session) (o : Outcome)
      → SendsOne s o
      → ((t : Session) → RanOnce t (rest t))
      → RanOnce s (continue_with parse_time subscription_id true rest o)
  continued rest s (go_on t) h k = rebase s t (rest t) h (k t)
  continued rest s (return r t) h k = h

  -- With `once`, whatever the rounds bring, the subscription sends one block at most, and while it
  -- still runs, none.
  pub run-RanOnce :
      (rounds : List Round) (s : Session) → RanOnce s (run parse_time subscription_id true rounds s)
  unfolding run step
  run-RanOnce [] s = refl
  run-RanOnce (r ∷ rs) s =
      continued (run parse_time subscription_id true rs) s
        (step parse_time subscription_id true s r) (read_round-SendsOne r r.read s) (run-RanOnce rs)
