-- ===== src/EventProcessor/Process/Records.antt =====
-- The transfers that a transaction's events leave.
use gno_land_block_indexer.Prelude.{
  ◌≡◌, refl, sym, ◌∙◌, ap, inl, inr, Option, none, some, List, [], ◌∷◌, ◌++◌, append-nil,
  append_assoc, if◌then◌else◌, Bool-cases,
}
use gno_land_block_indexer.Model.{Time, Event, Transfer}
use gno_land_block_indexer.Ent.Error.{Result, ok, err}
use gno_land_block_indexer.Ent.Action.{pure}
use gno_land_block_indexer.Ent.Post.{Post, Post-bind, Post-weaken}
use gno_land_block_indexer.Ent.Database.{Database}
use gno_land_block_indexer.EventProcessor.Attributes.{Parsed, unparsed, read_attrs}
use gno_land_block_indexer.EventProcessor.Process.{
  dispatch, handle_parsed, handle_event, process_events, is_transfer_event, transfer_of,
}

abbrev recorded_parsed : Time → Event → Option Parsed → List Transfer
recorded_parsed now e none = []
recorded_parsed now e (some p) = transfer_of now e p ∷ []

-- One transfer for each event of type transfer, in order.
unfoldable pub recorded : Time → List Event → List Transfer
recorded now [] = []
recorded now (e ∷ es) =
    (if is_transfer_event e then recorded_parsed now e (read_attrs unparsed e.attrs) else [])
    ++ recorded now es

module _ (D : Database) where
  open D use {State}

  anyhow : {A : Type 0} (Q : Type 0) (out : Result A × State) → Q → Post out (λ _ _. Q) (λ _. Unit)
  anyhow Q (ok a, s) q = q
  anyhow Q (err e, s) q = tt

  handle_parsed-recorded :
      (now : Time) (e : Event) (p : Option Parsed) (s : State)
      → Post (handle_parsed D now e p s) (λ t _. t ∷ [] ≡ recorded_parsed now e p) (λ _. Unit)
  handle_parsed-recorded now e none s = tt
  handle_parsed-recorded now e (some p) s =
      Post-bind (λ _ _. Unit) _ _ (dispatch D now e p) (λ _. pure (transfer_of now e p)) s
        (anyhow Unit (dispatch D now e p s) tt) (λ _ s' k. refl)

  -- The loop over a transaction's events, if it returns no error, returns one transfer for each
  -- event of type transfer, in order, behind those that it was given.
  pub process_events-recorded :
      (now : Time) (ts : List Transfer) (es : List Event) (s : State)
      → Post (process_events D now ts es s) (λ out _. out ≡ ts ++ recorded now es) (λ _. Unit)
  unfolding process_events recorded handle_event
  process_events-recorded now ts [] s = sym (append-nil ts)
  process_events-recorded now ts (e ∷ es) s = elim (Bool-cases (is_transfer_event e)) [
    | inl moves ↦ rw moves (
        Post-bind (λ t _. t ∷ [] ≡ recorded_parsed now e (read_attrs unparsed e.attrs)) _ _
          (handle_event D now e) (λ t. process_events D now (ts ++ t ∷ []) es) s
          (handle_parsed-recorded now e (read_attrs unparsed e.attrs) s)
          (λ t s' k.
            Post-weaken _ _ _ _ (process_events D now (ts ++ t ∷ []) es s')
              (process_events-recorded now (ts ++ t ∷ []) es s')
              (λ out s'' h.
                h
                ∙ append_assoc ts (t ∷ []) (recorded now es)
                ∙ ap (λ r. ts ++ (r ++ recorded now es)) k)
              (λ s'' h. tt)))
    | inr other ↦ rw other (process_events-recorded now ts es s)
  ]
