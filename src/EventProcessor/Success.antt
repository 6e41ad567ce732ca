-- ===== src/EventProcessor/Success.antt =====
-- When the processing of a block succeeds: each address holds one token only, its home. `Home` is a
-- condition on the input, no part of the code.
pub mod Events
pub mod Transfers
pub mod Blocks
use gno_land_block_indexer.Prelude.{
  ◌≡◌, ◌≢◌, refl, sym, ◌∙◌, inl, inr, true, false, String, Option, none, some, List, [], ◌∷◌, ◌++◌,
  All, All-map, All-append, ℤ, eq_iff, str_eq, arith, Bool-cases, if◌then◌else◌,
}
use gno_land_block_indexer.Float64.{Float64, of_int64, is_positive}
use gno_land_block_indexer.Text.{to_lower}
use gno_land_block_indexer.Model.{Event, Transaction}
use gno_land_block_indexer.Ent.Tables.{Tables, AccountRow, has_account}
use gno_land_block_indexer.Ent.Balances.{
  exists_account, ensured, credit, zero_row, UniqueAddresses, is_open, is_account,
  has_account_of_exists,
}
use gno_land_block_indexer.Ent.WellFormed.{
  has_account-credit, UniqueAddresses-credit, UniqueAddresses-append, any-append_left,
}
use gno_land_block_indexer.EventProcessor.Attributes.{Parsed, unparsed, read_attrs}
use gno_land_block_indexer.EventProcessor.Process.{is_transfer_event}

module _ (home : String → String) where
  -- Each account is for the token that its address is at home in.
  abbrev pub IsHomed : List AccountRow → Type 0
  IsHomed rs = All (λ r. r.token ≡ home r.address) rs

  -- A mint names its receiver alone, a burn its sender alone, a transfer both; and they are at home in the token.
  pub data IsFair (e : Event) (p : Parsed) : Type 0 where
    mint :
        to_lower e.func ≡ "mint"
        → p.from_address ≡ ""
        → p.to_address ≢ ""
        → e.pkg_path ≡ home p.to_address
        → IsFair e p
    burn :
        to_lower e.func ≡ "burn"
        → p.to_address ≡ ""
        → p.from_address ≢ ""
        → e.pkg_path ≡ home p.from_address
        → IsFair e p
    move :
        to_lower e.func ≡ "transfer"
        → p.from_address ≢ ""
        → p.to_address ≢ ""
        → e.pkg_path ≡ home p.from_address
        → e.pkg_path ≡ home p.to_address
        → IsFair e p

  -- The attributes can be read, the token is named and the amount is positive.
  abbrev pub IsReadable : Event → Type 0
  IsReadable e =
      (p : Parsed) × (read_attrs unparsed e.attrs ≡ some p)
      × (e.pkg_path ≢ "")
      × (is_positive (of_int64 p.num_value) ≡ true)
      × IsFair e p

  abbrev pub IsGood : Event → Type 0
  IsGood e = if is_transfer_event e then IsReadable e else Unit {0}

  abbrev pub AllGood : Transaction → Type 0
  AllGood tx = (tx.hash ≢ "") × All IsGood tx.response.events

  pub open_of_home :
      (a t : String) (rs : List AccountRow) → IsHomed rs → t ≡ home a → is_open a t rs ≡ true
  open_of_home a t [] h e = ground arith
  open_of_home a t (r ∷ rs) (here, rest) e = elim (Bool-cases (str_eq r.address a)) [
    | inl same ↦
        let address : r.address ≡ a = (eq_iff r.address a).0 same in
        let token : r.token ≡ t = here ∙ rw address (sym e) in ground (arith, eq_iff r.token t)
    | inr other ↦ ground (arith, open_of_home a t rs rest e)
  ]

  -- The accounts have unique addresses and are at home, those of `old` are still there, and so are the `known`.
  pub record IsReady (old : List AccountRow) (known : List String) (rs : List AccountRow)
      : Type 0 where
    pub unique : UniqueAddresses rs
    pub homed : IsHomed rs
    pub kept : (a : String) → has_account a old ≡ true → has_account a rs ≡ true
    pub known_there : All (λ a. has_account a rs ≡ true) known

  IsHomed-credit :
      (a t : String) (x : Float64) (rs : List AccountRow) → IsHomed rs → IsHomed (credit a t x rs)
  IsHomed-credit a t x [] h = tt
  IsHomed-credit a t x (r ∷ rs) (here, rest) = elim (Bool-cases (is_account a t r)) [
    | inl y ↦ rw y (here, IsHomed-credit a t x rs rest)
    | inr n ↦ rw n (here, IsHomed-credit a t x rs rest)
  ]

  pub IsReady-credit :
      (a t : String) (x : Float64) (old : List AccountRow) (known : List String)
      (rs : List AccountRow)
      → IsReady old known rs
      → IsReady old known (credit a t x rs)
  IsReady-credit a t x old known rs h = record {
    unique = UniqueAddresses-credit a t x rs h.unique;
    homed = IsHomed-credit a t x rs h.homed;
    kept = λ b k. has_account-credit b a t x rs ∙ h.kept b k;
    known_there = All-map _ _ known (λ b k. has_account-credit b a t x rs ∙ k) h.known_there;
  }

  has_account-append :
      (b : String) (r : AccountRow) (rs : List AccountRow)
      → has_account b rs ≡ true
      → has_account b (rs ++ r ∷ []) ≡ true
  has_account-append b r rs k = any-append_left (λ q. str_eq q.address b) rs (r ∷ []) k

  has_account-append_self :
      (a t : String) (rs : List AccountRow) → has_account a (rs ++ zero_row a t ∷ []) ≡ true
  has_account-append_self a t [] = ground (arith, eq_iff a a)
  has_account-append_self a t (r ∷ rs) = ground (arith, has_account-append_self a t rs)

  pub IsReady-ensured :
      (a t : String) (old : List AccountRow) (known : List String) (rs : List AccountRow)
      → t ≡ home a
      → IsReady old known rs
      → IsReady old (a ∷ known) (ensured a t rs)
  IsReady-ensured a t old known rs e h = elim (Bool-cases (exists_account a t rs)) [
    | inl y ↦ rw y (record {
      unique = h.unique;
      homed = h.homed;
      kept = h.kept;
      known_there = (has_account_of_exists a t rs y, h.known_there);
    })
    | inr n ↦
        let free = open_of_home a t rs h.homed e in
        let new : has_account a rs ≡ false = ground arith in
        rw n (record {
          unique = UniqueAddresses-append rs (zero_row a t) h.unique new;
          homed = All-append _ rs (zero_row a t ∷ []) h.homed (e, tt);
          kept = λ b k. has_account-append b (zero_row a t) rs (h.kept b k);
          known_there = (
            has_account-append_self a t rs,
            All-map _ _ known (λ b k. has_account-append b (zero_row a t) rs k) h.known_there,
          );
        })
  ]
