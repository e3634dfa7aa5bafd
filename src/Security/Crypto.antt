-- ===== src/Security/Crypto.antt =====
-- `CryptoProvider` of include/poker/security/crypto_provider.hpp. What implements it stands outside: a
-- provider is a parameter, with the state of its random numbers. A token's hash is a function of the
-- token, since the callers look sessions and tickets up by it.
use poker.Prelude.{Bool, Text}

pub record CryptoProvider : Type 1 where
  pub State : Type 0
  pub hash_password : State → Text → Text × State
  pub verify_password : Text → Text → Bool
  pub generate_session_token : State → Text × State
  pub hash_session_token : Text → Text
