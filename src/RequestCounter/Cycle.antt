-- ===== src/RequestCounter/Cycle.antt =====
-- The values that successive calls return: a cycle through 1, …, 65535.
use rcdiscover.Base.{ℕ, zero, suc, ◌+◌, ◌*◌, ◌%◌, ◌<◌, ◌≡◌, ◌≢◌, refl, arith, ap}
use rcdiscover.RequestCounter.{next_value, id_bytes, get_next}

-- The counter after `n` calls on a fresh counter.
unfoldable pub after_calls : ℕ → ℕ
after_calls zero = 0
after_calls (suc n) = (get_next (after_calls n)).0

-- The id that call number `n` returns, counted from 0.
unfoldable pub nth_id : ℕ → ℕ × ℕ
nth_id n = (get_next (after_calls n)).1

pub after_calls-suc : (n : ℕ) → after_calls (suc n) ≡ n % 65535 + 1
unfolding after_calls get_next
after_calls-suc zero = refl
after_calls-suc (suc n) = ground (arith, after_calls-suc n)

-- Id `n` is the 16-bit big-endian number `n % 65535 + 1`.
pub nth_id-value : (n : ℕ) → (nth_id n).0 * 256 + (nth_id n).1 ≡ n % 65535 + 1
unfolding nth_id get_next
nth_id-value n = omega (arith, after_calls_next)
  where
    after_calls_next : next_value (after_calls n) ≡ n % 65535 + 1
    after_calls_next = unfold after_calls in after_calls-suc n

nth_id-cong : (a b : ℕ) → nth_id a ≡ nth_id b → a % 65535 ≡ b % 65535
nth_id-cong a b e = omega (arith, nth_id-value a, nth_id-value b, ap (λ p. p.0) e, ap (λ p. p.1) e)

-- Two calls that are fewer than 65535 calls apart never return the same id, and no call returns
-- the id 0.
pub nth_id-distinct :
    (n d : ℕ) → 0 < d → d < 65535 → (nth_id n ≢ nth_id (n + d)) × (nth_id n ≢ (0, 0))
nth_id-distinct n d hd hd' = (
  λ e. omega (arith, nth_id-cong n (n + d) e),
  λ e. omega (arith, nth_id-value n, ap (λ p. p.0) e, ap (λ p. p.1) e),
)

-- After 65535 calls the ids come round again.
pub nth_id-period : (n : ℕ) → nth_id (n + 65535) ≡ nth_id n
unfolding nth_id get_next
nth_id-period n = ap id_bytes same
  where
    same : next_value (after_calls (n + 65535)) ≡ next_value (after_calls n)
    same = unfold after_calls in omega (arith, after_calls-suc n, after_calls-suc (n + 65535))
