-- ===== src/Wallet/Ledger.antt =====
-- The books of the wallet tables: a wallet's balance is the sum of its transactions.
use inno_taxi.Base.{
  ℕ, String, some, Bool, true, false, List, [], ◌∷◌, ◌++◌, ◌≡◌, refl, sym, ap, ◌∙◌, inl, inr, arith,
  eq_iff,
}
use mathlib.Core.Path.{subst}
use inno_taxi.Base.Int.{ℤ, pos, ◌+ℤ◌, ◌-ℤ◌, int64}
use inno_taxi.Base.Lists.{All}
use inno_taxi.Base.Tests.{◌==◌, if◌then◌else◌, Bool-cases, ==_eq, ==_self}
use inno_taxi.Wallet.Entity.{Wallet, Transaction, transaction_type_credit}
use inno_taxi.Wallet.Store.{Tables, find_wallet, set_balance, has_wallet}

-- A balance after a transaction, as the wallet's int64 keeps it.
abbrev pub entered : Transaction → ℤ → ℤ
entered r b =
    if r.type == transaction_type_credit
    then int64 (b +ℤ r.amount_minor_units)
    else int64 (b -ℤ r.amount_minor_units)

-- The balance that the transactions of wallet `i` leave, from `b` on.
unfoldable pub net : String → ℤ → List Transaction → ℤ
net i b [] = b
net i b (r ∷ rs) = net i (if r.wallet_id == i then entered r b else b) rs

abbrev pub Balances : List Transaction → Wallet → Type 0
Balances rs x = x.balance_minor_units ≡ net x.id (pos 0) rs

abbrev pub Owned : List Wallet → Transaction → Type 0
Owned ws r = has_wallet r.wallet_id ws ≡ true

-- Every balance is the sum of the wallet's transactions, and every transaction has its wallet.
abbrev pub Booked : Tables → Type 0
Booked t = All (Balances t.transactions) t.wallets × All (Owned t.wallets) t.transactions

net-append :
    (i : String) (b : ℤ) (rs : List Transaction) (r : Transaction)
    → net i b (rs ++ r ∷ []) ≡ (if r.wallet_id == i then entered r (net i b rs) else net i b rs)
unfolding net
net-append i b [] r = refl
net-append i b (x ∷ rs) r = net-append i (if x.wallet_id == i then entered x b else b) rs r

net-append_mine :
    (i : String) (b : ℤ) (rs : List Transaction) (r : Transaction)
    → r.wallet_id ≡ i
    → net i b (rs ++ r ∷ []) ≡ entered r (net i b rs)
net-append_mine i b rs r h =
    let test : (r.wallet_id == i) ≡ true = ground (arith, h, eq_iff r.wallet_id i) in
    net-append i b rs r ∙ ap (λ (c : Bool). if c then entered r (net i b rs) else net i b rs) test

net-append_foreign :
    (i : String) (b : ℤ) (rs : List Transaction) (r : Transaction)
    → (i == r.wallet_id) ≡ false
    → net i b (rs ++ r ∷ []) ≡ net i b rs
net-append_foreign i b rs r h =
    let test : (r.wallet_id == i) ≡ false =
      ground (arith, h, eq_iff r.wallet_id i, eq_iff i r.wallet_id) in
    net-append i b rs r ∙ ap (λ (c : Bool). if c then entered r (net i b rs) else net i b rs) test

net_foreign :
    (i : String) (b : ℤ) (ws : List Wallet) (rs : List Transaction)
    → has_wallet i ws ≡ false
    → All (Owned ws) rs
    → net i b rs ≡ b
unfolding net
net_foreign i b ws [] fresh ps = refl
net_foreign i b ws (r ∷ rs) fresh (p, ps) = elim (Bool-cases (r.wallet_id == i)) [
  | inl same ↦ absurd (ground (arith, fresh, p, ==_eq r.wallet_id i same))
  | inr other ↦ rw other (net_foreign i b ws rs fresh ps)
]

module _ (i : String) (b : ℤ) (now : ℕ) where
  has_wallet-set_balance :
      (j : String) (ws : List Wallet) → has_wallet j (set_balance i b now ws) ≡ has_wallet j ws
  unfolding has_wallet set_balance
  has_wallet-set_balance j [] = refl
  has_wallet-set_balance j (x ∷ ws) = ground (arith, has_wallet-set_balance j ws)

  Owned-set_balance :
      (ws : List Wallet) (rs : List Transaction)
      → All (Owned ws) rs
      → All (Owned (set_balance i b now ws)) rs
  Owned-set_balance ws [] ps = tt
  Owned-set_balance ws (r ∷ rs) (p, ps) =
      (has_wallet-set_balance r.wallet_id ws ∙ p, Owned-set_balance ws rs ps)

has_wallet-append :
    (j : String) (ws : List Wallet) (x : Wallet)
    → has_wallet j ws ≡ true
    → has_wallet j (ws ++ x ∷ []) ≡ true
unfolding has_wallet
has_wallet-append j [] x h = absurd (ground (arith, h))
has_wallet-append j (y ∷ ws) x h = elim (Bool-cases (y.id == j)) [
  | inl same ↦ rw same refl
  | inr other ↦ rw other (has_wallet-append j ws x (rw other at h))
]

Owned-append :
    (ws : List Wallet) (x : Wallet) (rs : List Transaction)
    → All (Owned ws) rs
    → All (Owned (ws ++ x ∷ [])) rs
Owned-append ws x [] ps = tt
Owned-append ws x (r ∷ rs) (p, ps) = (has_wallet-append r.wallet_id ws x p, Owned-append ws x rs ps)

All-append :
    {A : Type 0} (P : A → Type 0) (xs : List A) (x : A) → All P xs → P x → All P (xs ++ x ∷ [])
All-append P [] x qs p = (p, tt)
All-append P (y ∷ xs) x (q, qs) p = (q, All-append P xs x qs p)

find_wallet-All :
    (P : Wallet → Type 0) (u : String) (ws : List Wallet) (a : Wallet)
    → find_wallet u ws ≡ some a
    → All P ws
    → (P a) × (has_wallet a.id ws ≡ true)
unfolding find_wallet has_wallet
find_wallet-All P u [] a found ps = absurd (ground (arith, found))
find_wallet-All P u (x ∷ ws) a found (p, ps) = elim (Bool-cases (x.user_id == u)) [
  | inl same ↦
      (let here : x ≡ a = ground (arith, found, same) in
        (subst P here p, ground (arith, here, ==_self a.id)))
  | inr other ↦
      (let (q, there) = find_wallet-All P u ws a (rw other at found) ps in
        (q, ground (arith, there)))
]

-- The wallets keep the sum when one gets a transaction and the balance that follows from it.
Balances-posted :
    (rs : List Transaction) (r : Transaction) (b : ℤ) (now : ℕ) (ws : List Wallet)
    → b ≡ entered r (net r.wallet_id (pos 0) rs)
    → All (Balances rs) ws
    → All (Balances (rs ++ r ∷ [])) (set_balance r.wallet_id b now ws)
unfolding set_balance
Balances-posted rs r b now [] h ps = tt
Balances-posted rs r b now (x ∷ ws) h (p, ps) = (here, Balances-posted rs r b now ws h ps)
  where
    here :
        Balances (rs ++ r ∷ []) (
          if x.id == r.wallet_id then record x { balance_minor_units = b; updated_at = now } else x)
    here = elim (Bool-cases (x.id == r.wallet_id)) [
      | inl same ↦ rw same (
          h
          ∙ ap (λ i. entered r (net i (pos 0) rs)) (sym (==_eq x.id r.wallet_id same))
          ∙ sym (net-append_mine x.id (pos 0) rs r (sym (==_eq x.id r.wallet_id same))))
      | inr other ↦ rw other (p ∙ sym (net-append_foreign x.id (pos 0) rs r other))
    ]

-- A transaction on a wallet that is there.
pub Booked-posted :
    (t : Tables) (u : String) (a : Wallet) (r : Transaction) (b : ℤ) (now : ℕ)
    → find_wallet u t.wallets ≡ some a
    → r.wallet_id ≡ a.id
    → b ≡ entered r a.balance_minor_units
    → Booked t
    → Booked (record {
      wallets = set_balance a.id b now t.wallets;
      transactions = t.transactions ++ r ∷ [];
    })
Booked-posted t u a r b now found mine next (sums, owners) =
    let (sum, there) = find_wallet-All (Balances t.transactions) u t.wallets a found sums in
    (
      rw (sym mine) (
          Balances-posted t.transactions r b now t.wallets
            (next ∙ ap (entered r) (sum ∙ ap (λ i. net i (pos 0) t.transactions) (sym mine))) sums),
      Owned-set_balance a.id b now t.wallets (t.transactions ++ r ∷ []) (
          All-append (Owned t.wallets) t.transactions r owners
            (ap (λ i. has_wallet i t.wallets) mine ∙ there)),
    )

-- A new wallet, at balance 0.
pub Booked-created :
    (t : Tables) (x : Wallet)
    → has_wallet x.id t.wallets ≡ false
    → x.balance_minor_units ≡ pos 0
    → Booked t
    → Booked (record { wallets = t.wallets ++ x ∷ []; transactions = t.transactions })
Booked-created t x fresh zero (sums, owners) = (
  All-append (Balances t.transactions) t.wallets x sums
      (zero ∙ sym (net_foreign x.id (pos 0) t.wallets t.transactions fresh owners)),
  Owned-append t.wallets x t.transactions owners,
)
