-- ===== src/Rest/Routes/Laws.antt =====
-- Which paths the routes take.
use gno_land_block_indexer.Prelude.{
  ◌≡◌, ◌≢◌, refl, ◌∙◌, ap, false, String, Option, none, some, str_eq, eq_iff, arith, Bool-cases,
  inl, inr,
}
use gno_land_block_indexer.Text.{cut_suffix, trim_slash}
use gno_land_block_indexer.Rest.Routes.{
  balances, transfer_history, empty_token_path, account_balances, token_route, token_routes,
}
use mathlib.Core.Option

account_ne : (t : String) → account_balances t ≢ empty_token_path
account_ne t e = cc

none_ne : (o : Option String) → o ≡ none → o ≢ some ""
none_ne o e h = cc

cons_ne_nil :
    (c : Prim.Native.Char.Char) (o : Option String) → Option.map (String.◌∷◌ c) o ≢ some ""
cons_ne_nil c none e = cc
cons_ne_nil c (some s) e = cc

-- Only the suffix itself has nothing before the suffix.
cut_suffix_empty : (suf path : String) → cut_suffix suf path ≡ some "" → path ≡ suf
unfolding cut_suffix
cut_suffix_empty suf String.[] e = elim (Bool-cases (str_eq String.[] suf)) [
  | inl y ↦ (eq_iff String.[] suf).0 y
  | inr n ↦ absurd (none_ne none refl (rw n at e))
]
cut_suffix_empty suf (String.◌∷◌ c s) e = elim (Bool-cases (str_eq (String.◌∷◌ c s) suf)) [
  | inl y ↦ (eq_iff (String.◌∷◌ c s) suf).0 y
  | inr n ↦ absurd (cons_ne_nil c (cut_suffix suf s) (rw n at e))
]

balances_ne : balances ≢ empty_token_path
balances_ne e = cc

history_ne : transfer_history ≢ empty_token_path
history_ne e = cc

suffix_ne :
    (path : String) (o : Option String)
    → str_eq path "/balances" ≡ false
    → cut_suffix "/balances" path ≡ o
    → token_route o ≢ empty_token_path
suffix_ne path none n e h = cc
suffix_ne path (some t) n e h = elim (Bool-cases (str_eq t "")) [
  | inl y ↦
      let empty : t ≡ "" = (eq_iff t "").0 y in
      let whole : path ≡ "/balances" = cut_suffix_empty "/balances" path (e ∙ ap some empty) in
      ground (arith, eq_iff path "/balances")
  | inr m ↦ absurd (account_ne (trim_slash t) (rw m at h))
]

-- No path is answered with "Token path cannot be empty": the only one that has nothing before
-- `/balances` was taken by the case before.
pub token_routes-ne : (path : String) → token_routes path ≢ empty_token_path
unfolding token_routes
token_routes-ne path e = elim (Bool-cases (str_eq path "/balances")) [
  | inl y ↦ absurd (balances_ne (rw y at e))
  | inr n ↦ elim (Bool-cases (str_eq path "/transfer-history")) [
    | inl y ↦ absurd (history_ne (rw (n, y) at e))
    | inr m ↦ absurd (suffix_ne path (cut_suffix "/balances" path) n refl (rw (n, m) at e))
  ]
]
