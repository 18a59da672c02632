-- ===== src/Exceptions.antt =====
-- app/exceptions: the domain exceptions with their status codes, and what a coroutine can end in.
use social_media_scraper.Base.{ℕ}

-- app/exceptions/network.py
pub data NetworkError : Type 0 where
  network_connection_error retry_exceeded circuit_open network_timeout dns_failure : NetworkError

-- app/exceptions/errors.py
pub data DomainError : Type 0 where
  configuration_error discovery_error extraction_error scraper_timeout_error : DomainError
  validation_error : DomainError

-- Anything that an `except Exception` clause catches: an `AppException` of either module, one of
-- Python's own, or one of a library, told apart by a number.
pub data Error : Type 0 where
  network : NetworkError → Error
  domain : DomainError → Error
  value_error : Error
  runtime_error : Error
  foreign : ℕ → Error

-- `asyncio.CancelledError` is a `BaseException`, which no `except Exception` clause catches.
pub data Outcome {ℓ} (A : Type ℓ) : Type ℓ where
  returned : A → Outcome A
  raised : Error → Outcome A
  cancelled : Outcome A

unfoldable pub network_status : NetworkError → ℕ
network_status network_connection_error = 502
network_status retry_exceeded = 502
network_status circuit_open = 503
network_status network_timeout = 504
network_status dns_failure = 502

unfoldable pub domain_status : DomainError → ℕ
domain_status configuration_error = 500
domain_status discovery_error = 502
domain_status extraction_error = 502
domain_status scraper_timeout_error = 504
domain_status validation_error = 422

-- The status code of the response that the registered handlers give for an exception.
unfoldable pub response_status : Error → ℕ
unfolding network_status domain_status
response_status (network e) = network_status e
response_status (domain e) = domain_status e
response_status value_error = 500
response_status runtime_error = 500
response_status (foreign n) = 500
