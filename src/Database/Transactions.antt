-- ===== src/Database/Transactions.antt =====
-- A transaction keeps what its body returns, or leaves the table as it was.
use p2pos.Database.{DbError, Table, transaction}
use p2pos.Common.{Result-cases, ◌≡◌, Result, err, ok, refl, inr, inl}

pub transaction_of_ok :
    (body : Table → Result DbError Table) (t : Table) {t' : Table}
    → body t ≡ ok t'
    → transaction body t ≡ (t', ok tt)
unfolding transaction
transaction_of_ok body t h = rw (h, transaction) refl

pub transaction_of_err :
    (body : Table → Result DbError Table) (t : Table) {e : DbError}
    → body t ≡ err e
    → transaction body t ≡ (t, err e)
unfolding transaction
transaction_of_err body t h = rw (h, transaction) refl

-- What holds of the table and of each result of the body holds after the transaction.
pub transaction-keeps {κ} :
    (P : Table → Type κ) (body : Table → Result DbError Table) (t : Table)
    → P t
    → ((t' : Table) → body t ≡ ok t' → P t')
    → P (transaction body t).0
transaction-keeps P body t p h = elim (Result-cases (body t)) [
  | inl (t', e) ↦ rw (transaction_of_ok body t e) (h t' e)
  | inr (f, e) ↦ rw (transaction_of_err body t e) p
]
