-- ===== src/EventProcessor/Ledger.antt =====
-- The ideal ledger: what the events of a block mean for the balances, with no tables, no accounts to
-- create and no errors. An amount is added with the rounding of a float64.
use gno_land_block_indexer.Prelude.{
  All, ◌≡◌, Bool, true, not, ◌&&◌, String, Option, none, some, List, [], ◌∷◌, ℤ, neg64,
  if◌then◌else◌, str_eq,
}
use gno_land_block_indexer.Float64.{Float64, add, of_int64}
use gno_land_block_indexer.Text.{to_lower}
use gno_land_block_indexer.Model.{Event, Transaction}
use gno_land_block_indexer.EventProcessor.Attributes.{Parsed, unparsed, read_attrs}
use gno_land_block_indexer.EventProcessor.Process.{is_transfer_event}

-- The balance of an address in a token.
abbrev pub Ledger : Type 0
Ledger = String → String → Float64

abbrev pub pay : String → String → ℤ → Ledger → Ledger
pay a t v l = λ b u. if str_eq a b && str_eq t u then add (l b u) (of_int64 v) else l b u

-- A mint pays the receiver, a burn takes from the sender, a transfer does both; an event of another
-- function moves nothing.
abbrev pub apply_parsed : Event → Parsed → Ledger → Ledger
apply_parsed e p l =
    let f = to_lower e.func in
    if str_eq f "mint"
    then pay p.to_address e.pkg_path p.num_value l
    else if str_eq f "burn"
    then pay p.from_address e.pkg_path (neg64 p.num_value) l
    else if str_eq f "transfer"
    then pay p.to_address e.pkg_path p.num_value
        (pay p.from_address e.pkg_path (neg64 p.num_value) l)
    else l

abbrev pub apply_read : Event → Option Parsed → Ledger → Ledger
apply_read e none l = l
apply_read e (some p) l = apply_parsed e p l

abbrev pub apply_event : Event → Ledger → Ledger
apply_event e l = if is_transfer_event e then apply_read e (read_attrs unparsed e.attrs) l else l

unfoldable pub apply_events : List Event → Ledger → Ledger
apply_events [] l = l
apply_events (e ∷ es) l = apply_events es (apply_event e l)

unfoldable pub apply_transactions : List Transaction → Ledger → Ledger
apply_transactions [] l = l
apply_transactions (tx ∷ txs) l = apply_transactions txs (apply_events tx.response.events l)

abbrev filled : String → Bool
filled s = not (str_eq s "")

-- The event names a token, and the addresses that its function needs.
abbrev pub names_parties : Event → Parsed → Bool
names_parties e p =
    let f = to_lower e.func in
    filled e.pkg_path
    && (if str_eq f "mint"
        then filled p.to_address
        else if str_eq f "burn"
        then filled p.from_address
        else if str_eq f "transfer"
        then filled p.from_address && filled p.to_address
        else true)

abbrev pub read_names : Event → Option Parsed → Bool
read_names e none = true
read_names e (some p) = names_parties e p

abbrev pub is_addressed : Event → Bool
is_addressed e = if is_transfer_event e then read_names e (read_attrs unparsed e.attrs) else true

-- Each event of a transaction is addressed.
abbrev pub IsAddressed : Transaction → Type 0
IsAddressed tx = All (λ e. is_addressed e ≡ true) tx.response.events
