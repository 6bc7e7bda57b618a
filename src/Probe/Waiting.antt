-- ===== src/Probe/Waiting.antt =====
-- `waitMemoryTrue` of `mid_level.cpp`: which reads decide its result.
use Prim.Native.Nat.{bit_and}
use native.Mathlib.Nat.{suc-add, zero-add}
use swagger.Prelude.{
  ℕ, zero, suc, ◌+◌, ◌-◌, ◌≤◌, ◌≡◌, refl, ◌∙◌, ap, ◌⊎◌, inl, inr, Bool, true, false, arith, ◌==◌,
  if◌then◌else◌,
}
use swagger.Protocol.Status
use swagger.Probe.{Link, Driver, read_memory, wait_true_loop, wait_memory_true}

-- The branches of a round that is the last.
last_round :
    {D : Type 0} (ok last hit : Bool) (late good stat : ℕ) (d : D) (again : ℕ × D)
    → (ok ≡ false) ⊎ ((last ≡ true) ⊎ (hit ≡ true))
    → (if ok then (if last then (late, d) else if hit then (good, d) else again) else (stat, d))
      ≡ (if ok then (if last then late else good) else stat, d)
last_round false last hit late good stat d again stops = refl
last_round true true hit late good stat d again stops = refl
last_round true false true late good stat d again stops = refl
last_round true false false late good stat d again (inl e) = ground (arith, e)
last_round true false false late good stat d again (inr (inl e)) = ground (arith, e)
last_round true false false late good stat d again (inr (inr e)) = ground (arith, e)

stops_at :
    (ok hit : Bool) (n : ℕ)
    → (ok ≡ false) ⊎ ((n ≡ 9) ⊎ (hit ≡ true))
    → (ok ≡ false) ⊎ (((n == 9) ≡ true) ⊎ (hit ≡ true))
stops_at ok hit n (inl e) = inl e
stops_at ok hit n (inr (inl e)) = inr (inl (ground (arith, e)))
stops_at ok hit n (inr (inr e)) = inr (inr e)

same_test : (n : ℕ) → n ≤ 9 → (9 - n == 0) ≡ (n == 9)
same_test n few = ground (arith, few)

module _ (l : Link) (address word mask : ℕ) where
  -- So many reads in a row succeed and do not match; `end` holds the local variable and the driver
  -- after them.
  unfoldable pub Misses : ℕ → (old : ℕ) → Driver l → (end : ℕ × Driver l) → Type 0
  Misses zero old d end = (old, d) ≡ end
  Misses (suc n) old d end =
      let ((stat, memory), d') = read_memory l address old d in
      ((stat == Status.ok) ≡ true)
      × ((bit_and memory mask == word) ≡ false)
      × Misses n memory d' end

  wait_true_loop_step :
      (left old : ℕ) (d : Driver l)
      → wait_true_loop l (suc left) address word mask old d ≡ (
          let r = read_memory l address old d in
          if r.0.0 == Status.ok
          then (if left == 0
              then (Status.timeout, r.1)
              else if bit_and r.0.1 mask == word
              then (Status.ok, r.1)
              else wait_true_loop l left address word mask r.0.1 r.1)
          else (r.0.0, r.1))
  unfolding wait_true_loop
  wait_true_loop_step left old d = refl

  wait_true_loop-Misses :
      (n left old : ℕ) (d : Driver l) (end : ℕ × Driver l)
      → 1 ≤ left
      → Misses n old d end
      → wait_true_loop l (n + left) address word mask old d
        ≡ wait_true_loop l left address word mask end.0 end.1
  unfolding Misses
  wait_true_loop-Misses zero left old d end more same =
      rw zero-add (ap (λ e. wait_true_loop l left address word mask e.0 e.1) same)
  wait_true_loop-Misses (suc n) left old d end more (ok, miss, rest) =
      let again : (n + left == 0) ≡ false = ground (arith, more) in
      rw (suc-add, wait_true_loop_step (n + left) old d, ok, again, miss)
        (wait_true_loop-Misses n left _ _ end more rest)

  -- Where nine reads at most succeed without a match, and the next read fails, or matches, or is the
  -- tenth, waitMemoryTrue ends after that read: with its status where it fails; with a timeout where
  -- it is the tenth, whether or not the word matches; and else with success.
  pub wait_memory_true_lem :
      (n : ℕ) (d : Driver l) (end : ℕ × Driver l)
      → n ≤ 9
      → Misses n 0 d end
      → let ((stat, memory), d') = read_memory l address end.0 end.1 in
        ((stat == Status.ok) ≡ false) ⊎ ((n ≡ 9) ⊎ ((bit_and memory mask == word) ≡ true))
        → wait_memory_true l address word mask d
          ≡ (if stat == Status.ok then (if n == 9 then Status.timeout else Status.ok) else stat, d')
  unfolding wait_memory_true
  wait_memory_true_lem n d end few misses stops =
      let tries : n + suc (9 - n) ≡ 10 = omega arith in
      (rw tries at (wait_true_loop-Misses n (suc (9 - n)) 0 d end (omega arith) misses))
      ∙ wait_true_loop_step (9 - n) end.0 end.1
      ∙ rw (same_test n few)
          (last_round _ (n == 9) _ Status.timeout Status.ok _ _ _ (stops_at _ _ n stops))
