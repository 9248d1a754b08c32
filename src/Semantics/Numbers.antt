-- ===== src/Semantics/Numbers.antt =====
-- `str::parse::<u64>`, as src/error_semantics.rs and src/config.rs use it, reads back what is printed.
use Prim.Native.Char.{code}
use Prim.Native.String.{◌++◌}
use text.Mathlib.TextLemmas.{nil-append, cons-append, append-ne-nil_of_right_ne-nil}
use codaze.Prelude.{
  ℕ, zero, suc, ◌+◌, ◌-◌, ◌*◌, ◌/◌, ◌%◌, ◌≤◌, ◌<◌, String, some, ◌≡◌, ◌≢◌, refl, arith, ltb,
  Bool-cases, inl, inr,
}
use mathlib.Core.Path.{subst, sym}
use codaze.Prelude.Decimal.{digit, show_fuel, show}
use codaze.Prelude.Time.{DateTime, seconds, u64_max}
use codaze.Semantics.Payload.{Parsers, digits_from, parse_u64, parse_retry_after_str}

digits_from-digit :
    (acc d : ℕ) → d < 10 → acc * 10 + d ≤ u64_max → digits_from acc (digit d) ≡ some (acc * 10 + d)
unfolding digits_from
digits_from-digit acc zero small fits = ground arith
digits_from-digit acc (suc zero) small fits = ground arith
digits_from-digit acc (suc (suc zero)) small fits = ground arith
digits_from-digit acc (suc (suc (suc zero))) small fits = ground arith
digits_from-digit acc (suc (suc (suc (suc zero)))) small fits = ground arith
digits_from-digit acc (suc (suc (suc (suc (suc zero))))) small fits = ground arith
digits_from-digit acc (suc (suc (suc (suc (suc (suc zero)))))) small fits = ground arith
digits_from-digit acc (suc (suc (suc (suc (suc (suc (suc zero))))))) small fits = ground arith
digits_from-digit acc (suc (suc (suc (suc (suc (suc (suc (suc zero)))))))) small fits = ground arith
digits_from-digit acc (suc (suc (suc (suc (suc (suc (suc (suc (suc zero))))))))) small fits =
    ground arith
digits_from-digit acc (suc (suc (suc (suc (suc (suc (suc (suc (suc (suc d)))))))))) small fits =
    absurd (omega arith)

digit-ne : (d : ℕ) → d < 10 → digit d ≢ ""
digit-ne zero small = λ e. cc
digit-ne (suc zero) small = λ e. cc
digit-ne (suc (suc zero)) small = λ e. cc
digit-ne (suc (suc (suc zero))) small = λ e. cc
digit-ne (suc (suc (suc (suc zero)))) small = λ e. cc
digit-ne (suc (suc (suc (suc (suc zero))))) small = λ e. cc
digit-ne (suc (suc (suc (suc (suc (suc zero)))))) small = λ e. cc
digit-ne (suc (suc (suc (suc (suc (suc (suc zero))))))) small = λ e. cc
digit-ne (suc (suc (suc (suc (suc (suc (suc (suc zero)))))))) small = λ e. cc
digit-ne (suc (suc (suc (suc (suc (suc (suc (suc (suc zero))))))))) small = λ e. cc
digit-ne (suc (suc (suc (suc (suc (suc (suc (suc (suc (suc d)))))))))) small = absurd (omega arith)

-- A digit that is read after digits.
digits_from-append :
    (s : String) (acc m d : ℕ)
    → d < 10
    → m * 10 + d ≤ u64_max
    → digits_from acc s ≡ some m
    → digits_from acc (s ++ digit d) ≡ some (m * 10 + d)
unfolding digits_from
digits_from-append String.[] acc m d small fits h =
    let same : acc ≡ m = ground arith in
    rw (nil-append (digit d)) (
      subst (λ k. digits_from acc (digit d) ≡ some (k * 10 + d)) same
        (digits_from-digit acc d small (subst (λ k. k * 10 + d ≤ u64_max) (sym same) fits)))
digits_from-append (String.◌∷◌ c s) acc m d small fits h =
    let next = digits_from-append s (acc * 10 + (code c - b'0')) m d small fits (ground arith) in
    subst (λ t. digits_from acc t ≡ some (m * 10 + d)) (sym (cons-append c s (digit d)))
      (ground arith)

digits_from-show_fuel :
    (fuel n : ℕ) → n < fuel → n ≤ u64_max → digits_from 0 (show_fuel fuel n) ≡ some n
unfolding show_fuel
digits_from-show_fuel zero n enough fits = absurd (omega arith)
digits_from-show_fuel (suc fuel) n enough fits = elim (Bool-cases (ltb n 10)) [
  | inl small ↦
      rw (small, show_fuel)
        (subst (λ k. digits_from 0 (digit n) ≡ some k) (omega arith)
          (digits_from-digit 0 n (ground arith) (omega arith)))
  | inr large ↦
      let ten : 10 ≤ n = ground arith in
      let front = digits_from-show_fuel fuel (n / 10) (omega arith) (omega arith) in
      rw (large, show_fuel)
        (subst (λ k. digits_from 0 (show_fuel fuel (n / 10) ++ digit (n % 10)) ≡ some k)
          (omega arith)
          (digits_from-append (show_fuel fuel (n / 10)) 0 (n / 10) (n % 10) (omega arith)
            (omega arith) front))
]

parse_u64-digits : (s : String) (n : ℕ) → s ≢ "" → digits_from 0 s ≡ some n → parse_u64 s ≡ some n
unfolding parse_u64 digits_from
parse_u64-digits String.[] n some_digit h = absurd (some_digit refl)
parse_u64-digits (String.◌∷◌ c s) n some_digit h = ground arith

show_fuel-ne : (fuel n : ℕ) → show_fuel (suc fuel) n ≢ ""
unfolding show_fuel
show_fuel-ne fuel n = elim (Bool-cases (ltb n 10)) [
  | inl small ↦ rw (small, show_fuel) (digit-ne n (ground arith))
  | inr large ↦
      rw (large, show_fuel)
        (append-ne-nil_of_right_ne-nil (show_fuel fuel (n / 10)) (digit-ne (n % 10) (omega arith)))
]

-- What a number within 64 bits prints is read as that number.
pub parse_u64-show : (n : ℕ) → n ≤ u64_max → parse_u64 (show n) ≡ some n
unfolding show
parse_u64-show n fits =
    parse_u64-digits (show_fuel (suc n) n) n (show_fuel-ne n n)
      (digits_from-show_fuel (suc n) n (omega arith) fits)

digits_from-le : (s : String) (acc n : ℕ) → digits_from acc s ≡ some n → n ≤ u64_max
unfolding digits_from
digits_from-le String.[] acc n h = ground arith
digits_from-le (String.◌∷◌ c s) acc n h =
    ground (arith, digits_from-le s (acc * 10 + (code c - b'0')) n)

-- A number that is read fits 64 bits.
pub parse_u64-le : (s : String) (n : ℕ) → parse_u64 s ≡ some n → n ≤ u64_max
unfolding parse_u64
parse_u64-le String.[] n h = cc
parse_u64-le (String.◌∷◌ c String.[]) n h = ground (arith, digits_from-le (String.◌∷◌ c "") 0 n)
parse_u64-le (String.◌∷◌ c (String.◌∷◌ d s)) n h =
    ground (
      arith,
      digits_from-le (String.◌∷◌ d s) 0 n,
      digits_from-le (String.◌∷◌ c (String.◌∷◌ d s)) 0 n,
    )

-- A header that asks to wait for a number of seconds of 64 bits, in decimal, is read as that time.
pub parse_retry_after_str-show :
    (p : Parsers) (n : ℕ) (now : DateTime)
    → n ≤ u64_max
    → parse_retry_after_str p (show n) now ≡ some (seconds n)
unfolding parse_retry_after_str
parse_retry_after_str-show p n now fits = rw (parse_u64-show n fits, parse_retry_after_str) refl
