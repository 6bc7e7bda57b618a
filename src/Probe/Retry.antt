-- ===== src/Probe/Retry.antt =====
-- The retry loops of `writeDP`, `readDP`, `writeAP` and `readAP`.
use swagger.Prelude.{
  ℕ, zero, suc, ◌<◌, ◌≡◌, ◌≢◌, refl, false, ◌⊎◌, inl, inr, arith, ◌==◌, ==_iff, Bool-cases,
}
use swagger.Protocol.Status
use swagger.Swd.{swd_wait}
use swagger.Probe.{
  Link, Driver, status, register, retry, retry_write, retry_read, read_step, write_dp, read_dp,
}

module _ {X : Type 0} (transaction : X → ℕ × X) where
  -- What `n` transactions in a row leave.
  unfoldable pub after : ℕ → X → X
  after zero x = x
  after (suc n) x = after n (transaction x).1

  -- The first `n` of them are answered `SWD_WAIT`.
  abbrev pub Waits : ℕ → X → Type 0
  Waits zero x = Unit
  Waits (suc n) x = ((transaction x).0 ≡ swd_wait) × Waits n (transaction x).1

  -- `k` transactions were answered `SWD_WAIT`. Either these were all `tries`, and the result is a
  -- timeout, or the next was answered otherwise, and the result is the status of its code.
  abbrev pub Outcome : (tries : ℕ) → X → ℕ × X → ℕ → Type 0
  Outcome tries x result k =
      Waits k x
      × ((k ≡ tries) × (result ≡ (Status.timeout, after tries x))
          ⊎ (k < tries)
            × ((transaction (after k x)).0 ≢ swd_wait)
            × (result ≡ (status (transaction (after k x)).0, after (suc k) x)))

  retry-Outcome : (tries : ℕ) (x : X) → (k : ℕ) × (Outcome tries x (retry tries transaction x) k)
  unfolding retry after
  retry-Outcome zero x = (0, (tt, inl (refl, refl)))
  retry-Outcome (suc tries) x = elim (Bool-cases ((transaction x).0 == swd_wait)) [
    | inl busy ↦
        let (k, (waits, ends)) = retry-Outcome tries (transaction x).1 in
        (
          suc k,
          (
            ((==_iff _ swd_wait).0 busy, waits),
            rw busy (elim ends [
              | inl (e, r) ↦ inl (omega arith, r)
              | inr (e, ne, r) ↦ inr (omega arith, ne, r)
            ]),
          ),
        )
    | inr answered ↦ (0, (tt, inr (omega arith, ground arith, rw answered)))
  ]

module _ (l : Link) where
  -- `writeDP` repeats its transaction while the target answers `SWD_WAIT`, ten times at most. After
  -- ten such answers it reports a timeout, and else the status of the first other answer.
  write_dp-Outcome :
      (address word : ℕ) (d : Driver l)
      → let write = l.write_transaction false (register address) word in
        let r = write_dp l address word d in
        (k : ℕ) × Outcome write 10 d.line (r.0, r.1.line) k × (r.1.ap_cache ≡ d.ap_cache)
  unfolding write_dp retry_write
  write_dp-Outcome address word d =
      let (k, outcome) =
        retry-Outcome (l.write_transaction false (register address) word) 10 d.line in
      (k, outcome, refl)

  -- `readDP` does so too, and its result is what the last transaction read.
  read_dp-Outcome :
      (address old : ℕ) (d : Driver l)
      → let r = read_dp l address old d in
        (k : ℕ) × Outcome
          (read_step l false (register address))
          10
          (old, d.line)
          (r.0.0, (r.0.1, r.1.line))
          k
        × (r.1.ap_cache ≡ d.ap_cache)
  unfolding read_dp retry_read
  read_dp-Outcome address old d =
      let (k, outcome) = retry-Outcome (read_step l false (register address)) 10 (old, d.line) in
      (k, outcome, refl)

  -- writeDP and readDP repeat their transaction while the target answers SWD_WAIT, ten times at most.
  -- After ten such answers they report a timeout, and else the status of the first other answer, with
  -- what the last transaction of readDP has read; the cached bank stays as it was.
  pub retries-Outcome :
      (address word old : ℕ) (d : Driver l)
      → (let write = l.write_transaction false (register address) word in
          let r = write_dp l address word d in
          (k : ℕ) × Outcome write 10 d.line (r.0, r.1.line) k × (r.1.ap_cache ≡ d.ap_cache))
        × (let r = read_dp l address old d in
            (k : ℕ) × Outcome
              (read_step l false (register address))
              10
              (old, d.line)
              (r.0.0, (r.0.1, r.1.line))
              k
            × (r.1.ap_cache ≡ d.ap_cache))
  retries-Outcome address word old d =
      (write_dp-Outcome address word d, read_dp-Outcome address old d)
