-- ===== src/Storage/Log/Order.antt =====
-- The order `operator<` of src/storage/log.cc.
use ctgfs.Prelude.{◌<◌, ◌≡◌, ◌⊎◌, ◌↔◌, inl, inr, true, false, arith}
use ctgfs.Prelude.Bytes.{Bytes, bytes_lt, bytes_lt_irrefl, bytes_lt_trans, bytes_lt-total}
use ctgfs.Storage.Log.{Log, log_lt}

pub bytes_lt_asymm : (s t : Bytes) → bytes_lt s t ≡ true → bytes_lt t s ≡ false
bytes_lt_asymm s t h = ground (arith, bytes_lt_trans s t s h, bytes_lt_irrefl s)

pub log_lt_irrefl : (a : Log) → log_lt a a ≡ false
unfolding log_lt
log_lt_irrefl a = ground (arith, bytes_lt_irrefl a.key)

pub log_lt-total :
    (a b : Log) → (log_lt a b ≡ true) ⊎ (log_lt b a ≡ true) ⊎ ((a.key ≡ b.key) × (a.lsn ≡ b.lsn))
unfolding log_lt
log_lt-total a b = ground (
  arith,
  bytes_lt-total a.key b.key,
  bytes_lt_asymm a.key b.key,
  bytes_lt_asymm b.key a.key,
  bytes_lt_irrefl a.key,
)

log_lt_trans : (a b c : Log) → log_lt a b ≡ true → log_lt b c ≡ true → log_lt a c ≡ true
unfolding log_lt
log_lt_trans a b c h k = ground (
  arith,
  bytes_lt-total a.key b.key,
  bytes_lt-total b.key c.key,
  bytes_lt_trans a.key b.key c.key,
  bytes_lt_asymm a.key b.key,
  bytes_lt_asymm b.key c.key,
  bytes_lt_asymm a.key c.key,
  bytes_lt_irrefl a.key,
)

log_lt_iff :
    (a b : Log)
    → (log_lt a b ≡ true) ↔ ((bytes_lt a.key b.key ≡ true) ⊎ ((a.key ≡ b.key) × (b.lsn < a.lsn)))
unfolding log_lt
log_lt_iff a b = (
  λ h. ground (arith, bytes_lt-total a.key b.key, bytes_lt_asymm a.key b.key),
  λ h. elim h [ inl lt ↦ ground arith | inr (same, newer) ↦ ground (arith, bytes_lt_irrefl a.key) ],
)

-- A record comes before another exactly if its key does, in the order of bytes, or if it has the same key
-- and is the newer one. So the order is irreflexive and transitive, and of two records neither of which
-- comes before the other, key and number are the same.
pub log_lt-IsOrder :
    (a b c : Log)
    → ((log_lt a b ≡ true) ↔ ((bytes_lt a.key b.key ≡ true) ⊎ ((a.key ≡ b.key) × (b.lsn < a.lsn))))
      × (log_lt a a ≡ false)
      × (log_lt a b ≡ true → log_lt b c ≡ true → log_lt a c ≡ true)
      × ((log_lt a b ≡ true) ⊎ (log_lt b a ≡ true) ⊎ ((a.key ≡ b.key) × (a.lsn ≡ b.lsn)))
log_lt-IsOrder a b c = (log_lt_iff a b, log_lt_irrefl a, log_lt_trans a b c, log_lt-total a b)
