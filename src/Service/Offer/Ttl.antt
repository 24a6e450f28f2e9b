-- ===== src/Service/Offer/Ttl.antt =====
-- The lifetime of an offer in `CreateOffer` of backend/internal/service/trade.go. The product
-- `time.Duration(req.TTLSeconds) * time.Second` is an int64 of nanoseconds, and wraps.
use interstellar_trade_platf.Base.{
  ℕ, suc, ◌+◌, ◌-◌, ◌*◌, ◌%◌, ◌≡◌, ◌||◌, if◌then◌else◌, ltb, Result, ok, ◌≤◌, err, arith,
}
use interstellar_trade_platf.Base.Int.{ℤ, pos, negsuc, ◌==ℤ◌}
use interstellar_trade_platf.Domain.Errors.{AppError, bad_request}

abbrev two_63 : ℕ
two_63 = 9223372036854775808

abbrev two_64 : ℕ
two_64 = 18446744073709551616

-- The int64 with these 64 bits.
abbrev of_bits : ℕ → ℤ
of_bits b = if ltb b two_63 then pos b else negsuc (two_64 - 1 - b)

-- `time.Duration(s) * time.Second`
unfoldable pub seconds : ℤ → ℤ
seconds (pos n) = of_bits (n * 1000000000 % two_64)
seconds (negsuc n) = of_bits (two_64 - 1 - (suc n * 1000000000 - 1) % two_64)

abbrev pub default_offer_ttl : ℕ
default_offer_ttl = 604800000000000

abbrev pub min_offer_ttl : ℕ
min_offer_ttl = 60000000000

abbrev pub max_offer_ttl : ℕ
max_offer_ttl = 7776000000000000

abbrev checked_ttl : ℤ → Result AppError ℕ
checked_ttl (pos d) =
    if ltb d min_offer_ttl || ltb max_offer_ttl d
    then err (bad_request "ttl_seconds must be between 60 and 7776000")
    else ok d
checked_ttl (negsuc d) = err (bad_request "ttl_seconds must be between 60 and 7776000")

-- The lifetime in nanoseconds that a request asks for; 0 asks for the default.
unfoldable pub offer_ttl : ℤ → Result AppError ℕ
unfolding seconds
offer_ttl s = if s ==ℤ pos 0 then ok default_offer_ttl else checked_ttl (seconds s)

-- A request for 60 to 7776000 seconds gets exactly those, and so does one that is larger by any
-- multiple of 2^55 seconds.
pub offer_ttl_wraps :
    (n k : ℕ)
    → 60 ≤ n
    → n ≤ 7776000
    → offer_ttl (pos (n + k * 36028797018963968)) ≡ ok (n * 1000000000)
unfolding offer_ttl
offer_ttl_wraps n k lo hi = ground arith
