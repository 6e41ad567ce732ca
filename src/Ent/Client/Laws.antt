-- ===== src/Ent/Client/Laws.antt =====
-- The builders' `Save` by the laws of the database: it is carried out whole and the keys allowed
-- it, or it returns an error and changes nothing.
use gno_land_block_indexer.Prelude.{◌≡◌, refl, Bool, true, Option, none, some, List, [], ◌∷◌}
use gno_land_block_indexer.Ent.Error.{Error, Result}
use gno_land_block_indexer.Ent.Tables.{Tables}
use gno_land_block_indexer.Ent.Database.{
  Database, Reply, accepted, refused, failed, Write, done, broken, lost,
}
use gno_land_block_indexer.Ent.Client.{reply_result, run_checked, check_all, save_bulk}
use gno_land_block_indexer.Ent.Post.{Post}

module _ (D : Database) where
  open D use {State, tables}

  -- A statement is carried out, or the tables stay as they were.
  abbrev pub Applied : Bool → Tables → State → Result (Unit {0}) × State → Type 0
  Applied fits after s out =
      Post out (λ _ s'. (fits ≡ true) × (tables s' ≡ after)) (λ s'. tables s' ≡ tables s)

  pub reply_result-Applied :
      (fits : Bool) (after : Tables) (s : State) (out : Reply × State)
      → Write D fits after s out
      → Applied fits after s (reply_result out.0, out.1)
  reply_result-Applied fits after s (accepted, s') (done f a e) = (f, e)
  reply_result-Applied fits after s (accepted, s') (broken f a e) = cc
  reply_result-Applied fits after s (accepted, s') (lost a e) = cc
  reply_result-Applied fits after s (refused, s') (done f a e) = cc
  reply_result-Applied fits after s (refused, s') (broken f a e) = e
  reply_result-Applied fits after s (refused, s') (lost a e) = cc
  reply_result-Applied fits after s (failed, s') (done f a e) = cc
  reply_result-Applied fits after s (failed, s') (broken f a e) = cc
  reply_result-Applied fits after s (failed, s') (lost a e) = e

  pub run_checked-Applied :
      (check : Option Error) (statement : State → Reply × State) (fits : Bool) (after : Tables)
      (s : State)
      → Write D fits after s (statement s)
      → Applied fits after s (run_checked D check statement s)
  run_checked-Applied none statement fits after s w =
      reply_result-Applied fits after s (statement s) w
  run_checked-Applied (some e) statement fits after s w = refl

  -- A bulk; an empty one changes nothing, and is no error.
  pub save_bulk-Applied {ℓ} :
      {R : Type ℓ} (check : R → Option Error) (insert : List R → State → Reply × State)
      (fits : List R → Bool) (after : List R → Tables) (rs : List R) (s : State)
      → fits [] ≡ true
      → after [] ≡ tables s
      → Write D (fits rs) (after rs) s (insert rs s)
      → Applied (fits rs) (after rs) s (save_bulk D check insert rs s)
  save_bulk-Applied check insert fits after [] s f a w = (f, cc)
  save_bulk-Applied check insert fits after (r ∷ rs) s f a w =
      run_checked-Applied (check_all check (r ∷ rs)) (insert (r ∷ rs)) (fits (r ∷ rs))
        (after (r ∷ rs)) s w
